-- ===== src/Rpc/Config.antt =====
-- The configuration that ubi_write_config_json of src/lib/bdev_ubi.c saves, against the parameters that
-- the decoders of src/lib/bdev_ubi_rpc.c ask for.
use bdev_ubi.Common.{
  ℕ, ◌≡◌, refl, Bool, true, false, Option, none, some, ◌||◌, ◌&&◌, ◌==◌, List, [], ◌∷◌, map, ap,
}
use bdev_ubi.Common.Outcome.{Outcome, done, ◌>>=◌}
use bdev_ubi.Posix.{FilePath}
use bdev_ubi.Bdev.{UbiBdev}
use bdev_ubi.Bdev.Create.{Answers}
use bdev_ubi.Bdev.Create.Flow.{Event, run_create}
use bdev_ubi.Rpc.{
  RpcConstructUbi, defaults, Response, error, internal_error, rpc_bdev_ubi_create, create_done,
  string_of, opts_of,
}

-- The names of the parameters of bdev_ubi_create.
pub data Key : Type 0 where
  name_key image_path_key base_bdev_key format_bdev_key no_sync_key directio_key : Key
  snapshot_path_key stripe_size_kb_key copy_on_read_key : Key

abbrev number_of : Key → ℕ
number_of name_key = 0
number_of image_path_key = 1
number_of base_bdev_key = 2
number_of format_bdev_key = 3
number_of no_sync_key = 4
number_of directio_key = 5
number_of snapshot_path_key = 6
number_of stripe_size_kb_key = 7
number_of copy_on_read_key = 8

-- The type of a parameter's decoder: a string, a bool or a uint32.
pub data Kind : Type 0 where
  string_kind bool_kind uint32_kind : Kind

-- `struct spdk_json_object_decoder`
pub record Decoder : Type 0 where
  pub key : Key
  pub kind : Kind
  pub optional : Bool

unfoldable pub rpc_construct_ubi_decoders : List Decoder
rpc_construct_ubi_decoders =
    record { key = name_key; kind = string_kind; optional = false }
    ∷ record { key = image_path_key; kind = string_kind; optional = false }
    ∷ record { key = base_bdev_key; kind = string_kind; optional = false }
    ∷ record { key = format_bdev_key; kind = bool_kind; optional = true }
    ∷ record { key = no_sync_key; kind = bool_kind; optional = true }
    ∷ record { key = directio_key; kind = bool_kind; optional = true }
    ∷ record { key = snapshot_path_key; kind = string_kind; optional = true }
    ∷ record { key = stripe_size_kb_key; kind = uint32_kind; optional = true }
    ∷ record { key = copy_on_read_key; kind = bool_kind; optional = true }
    ∷ []

pub data Value : Type 0 where
  string_value : FilePath → Value
  bool_value : Bool → Value
  uint32_value : ℕ → Value

-- A member of a JSON object.
pub record Member : Type 0 where
  pub key : Key
  pub value : Value

-- A method of bdev_ubi_rpc.c.
pub data Method : Type 0 where
  bdev_ubi_create bdev_ubi_delete bdev_ubi_snapshot bdev_ubi_snapshot_status : Method

-- A saved call.
pub record Config : Type 0 where
  pub method : Method
  pub params : List Member

-- ubi_write_config_json
unfoldable pub write_config_json : UbiBdev → Config
write_config_json b = record {
  method = bdev_ubi_create;
  params =
      record { key = name_key; value = string_value b.name }
      ∷ record { key = image_path_key; value = string_value b.image_path }
      ∷ [];
}

abbrev is_given : Key → List Member → Bool
is_given k [] = false
is_given k (m ∷ ms) = (number_of m.key == number_of k) || is_given k ms

-- Every parameter that is not optional is given.
abbrev pub has_required : List Decoder → List Member → Bool
has_required [] ms = true
has_required (d ∷ ds) ms = (d.optional || is_given d.key ms) && has_required ds ms

-- spdk_json_decode_object fails where a parameter that is not optional is not given.
abbrev pub Requires : (List Member → RpcConstructUbi → Option RpcConstructUbi) → Type 0
Requires decode =
    (ms : List Member) (req : RpcConstructUbi)
    → has_required rpc_construct_ubi_decoders ms ≡ false
    → decode ms req ≡ none

lacks_base_bdev :
    (b : UbiBdev) → has_required rpc_construct_ubi_decoders (write_config_json b).params ≡ false
unfolding rpc_construct_ubi_decoders write_config_json
lacks_base_bdev b = refl

-- What rpc_bdev_ubi_create does with the result of the decoder.
abbrev after_decoding :
    Answers
    → (Option ℕ → Outcome ℕ)
    → List Event
    → Option RpcConstructUbi
    → Outcome (Bool × List Response)
after_decoding a get_id es decoded = elim decoded [
  | none ↦ done (false, error internal_error ∷ [])
  | some req ↦ run_create a get_id (some (opts_of req)) es >>= λ s.
      done (s.listed, map (create_done (string_of req.name)) s.replies)
]

refused :
    (a : Answers) (get_id : Option ℕ → Outcome ℕ)
    (decode : RpcConstructUbi → Option RpcConstructUbi) (es : List Event)
    → decode defaults ≡ none
    → rpc_bdev_ubi_create a get_id decode es ≡ done (false, error internal_error ∷ [])
unfolding rpc_bdev_ubi_create
refused a get_id decode es e = ap (after_decoding a get_id es) e

-- The configuration that is saved for a bdev, whichever it is, cannot be loaded: with a JSON decoder that
-- refuses requests without a required parameter, bdev_ubi_create with the saved parameters answers with an
-- internal error and makes no bdev, since base_bdev is required and not saved.
pub saved_config-refused :
    (decode : List Member → RpcConstructUbi → Option RpcConstructUbi)
    → Requires decode
    → (b : UbiBdev) (a : Answers) (get_id : Option ℕ → Outcome ℕ) (es : List Event)
    → ((write_config_json b).method ≡ bdev_ubi_create)
      × (rpc_bdev_ubi_create a get_id (decode (write_config_json b).params) es
          ≡ done (false, error internal_error ∷ []))
unfolding write_config_json
saved_config-refused decode requires b a get_id es = (
  refl,
  refused a get_id (decode (write_config_json b).params) es
      (requires (write_config_json b).params defaults (lacks_base_bdev b)),
)
