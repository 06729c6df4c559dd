-- ===== src/Rpc.antt =====
-- src/lib/bdev_ubi_rpc.c: the JSON-RPC methods. SPDK's decoder of a request's parameters is an
-- argument: it overwrites the fields that are given, or fails.
pub mod Answer
pub mod Once
pub mod Config
use bdev_ubi.Common.{
  ℕ, Bool, true, false, Option, none, some, List, [], ◌∷◌, map, ℤ, pos, negsuc, neg, is_zero,
  is_neg, enoent, if◌then◌else◌,
}
use bdev_ubi.Common.Outcome.{Outcome, done, fault, ◌>>=◌}
use bdev_ubi.Posix.{FilePath}
use bdev_ubi.Bdev.Create
use bdev_ubi.Bdev.Create.{Opts, Answers}
use bdev_ubi.Bdev.Create.Flow.{Event, run_create}
use bdev_ubi.Snapshot
use bdev_ubi.Snapshot.{Found, missing, foreign, ubi, SnapshotStatus, Effect, replied}

-- `struct rpc_construct_ubi`. An optional string is NULL, none, if it is not given.
pub record RpcConstructUbi : Type 0 where
  pub name : Option FilePath
  pub image_path : Option FilePath
  pub snapshot_path : Option FilePath
  pub base_bdev_name : Option FilePath
  pub no_sync : Bool
  pub format_bdev : Bool
  pub stripe_size_kb : ℕ
  pub copy_on_read : Bool
  pub directio : Bool

-- The request before it is decoded.
abbrev pub defaults : RpcConstructUbi
defaults = record {
  name = none;
  image_path = none;
  snapshot_path = none;
  base_bdev_name = none;
  no_sync = false;
  format_bdev = true;
  stripe_size_kb = 0;
  copy_on_read = true;
  directio = true;
}

-- SPDK_JSONRPC_ERROR_INTERNAL_ERROR and SPDK_JSONRPC_ERROR_INVALID_PARAMS.
abbrev pub internal_error : ℤ
internal_error = neg 32603

abbrev pub invalid_params : ℤ
invalid_params = neg 32602

-- What a method sends.
pub data Response : Type 0 where
  error : ℤ → Response
  bool_true : Response
  named : FilePath → Response
  status : FilePath → SnapshotStatus → Response

-- The strings of a request.
pub data Field : Type 0 where
  name_field image_path_field snapshot_path_field base_bdev_field : Field

-- free_rpc_construct_ubi: the strings that it frees.
unfoldable pub free_rpc_construct_ubi : List Field
free_rpc_construct_ubi = name_field ∷ image_path_field ∷ base_bdev_field ∷ []

-- bdev_ubi_create_done
unfoldable pub create_done : FilePath → ℤ → Response
create_done name rc =
    if is_neg rc then error rc else if is_zero rc then named name else error invalid_params

abbrev pub string_of : Option FilePath → FilePath
string_of none = []
string_of (some s) = s

-- The options that a decoded request is turned into. A request that SPDK decodes has the strings that
-- rpc_construct_ubi_decoders requires: the name, the image's path and the base bdev.
unfoldable pub opts_of : RpcConstructUbi → Opts
opts_of req = record {
  name = string_of req.name;
  image_path = string_of req.image_path;
  snapshot_path = req.snapshot_path;
  base_bdev_name = string_of req.base_bdev_name;
  no_sync = req.no_sync;
  directio = req.directio;
  format_bdev = req.format_bdev;
}

-- rpc_bdev_ubi_create, with the events of the creation that it starts: whether the bdev is on the
-- module's list after them, and what was sent.
unfoldable pub rpc_bdev_ubi_create :
    Answers
    → (Option ℕ → Outcome ℕ)
    → (RpcConstructUbi → Option RpcConstructUbi)
    → List Event
    → Outcome (Bool × List Response)
rpc_bdev_ubi_create a get_id decode es = elim (decode defaults) [
  | none ↦ done (false, error internal_error ∷ [])
  | some req ↦ run_create a get_id (some (opts_of req)) es >>= λ s.
      done (s.listed, map (create_done (string_of req.name)) s.replies)
]

-- rpc_bdev_ubi_delete_cb
unfoldable pub delete_cb : ℤ → Response
delete_cb bdeverrno = if is_zero bdeverrno then bool_true else error bdeverrno

-- bdev_ubi_delete, of src/lib/bdev_ubi.c: the callback is called at once if SPDK refuses, and by
-- SPDK, with `later`, if not.
unfoldable pub bdev_ubi_delete : ℤ → ℤ → ℤ
bdev_ubi_delete rc later = if is_zero rc then later else rc

-- rpc_bdev_ubi_delete, to its end. `decoded` is whether the name is decoded.
unfoldable pub rpc_bdev_ubi_delete : Bool → ℤ → ℤ → Response
unfolding delete_cb bdev_ubi_delete
rpc_bdev_ubi_delete decoded rc later =
    if decoded then delete_cb (bdev_ubi_delete rc later) else error internal_error

-- rpc_bdev_ubi_snapshot_cb
unfoldable pub snapshot_cb : ℤ → Response
snapshot_cb bdeverrno = if is_zero bdeverrno then bool_true else error bdeverrno

-- The responses to what a snapshot said, newest first.
abbrev pub responses : List Effect → List Response
responses [] = []
responses (replied rc ∷ es) = snapshot_cb rc ∷ responses es
responses (e ∷ es) = responses es

-- rpc_bdev_ubi_snapshot: what is sent at once, and the snapshot that is started. The parameters
-- are the name and the path, or none if they are not decoded.
unfoldable pub rpc_bdev_ubi_snapshot :
    (FilePath → Found)
    → Option (FilePath × FilePath)
    → Outcome (List Response × Option Snapshot.State)
rpc_bdev_ubi_snapshot get_by_name none = done (error internal_error ∷ [], none)
rpc_bdev_ubi_snapshot get_by_name (some (name, path)) =
    Snapshot.snapshot (get_by_name name) path >>= λ r. done (responses r.0, r.1)

abbrev pub status_response : FilePath → Found → Outcome Response
status_response name missing = done (error (neg enoent))
status_response name foreign = fault
status_response name (ubi b) = done (status name b.snapshot_status)

-- rpc_bdev_ubi_snapshot_status
unfoldable pub rpc_bdev_ubi_snapshot_status :
    (FilePath → Found) → Option FilePath → Outcome Response
rpc_bdev_ubi_snapshot_status get_by_name none = done (error internal_error)
rpc_bdev_ubi_snapshot_status get_by_name (some name) = status_response name (get_by_name name)
