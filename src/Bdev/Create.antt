-- ===== src/Bdev/Create.antt =====
-- src/lib/bdev_ubi.c: bdev_ubi_create, a chain of asynchronous blobstore calls that ends in
-- ubi_finish_create. The state holds what the callbacks share, and the call in flight.
pub mod Flow
pub mod Once
pub mod Steps
pub mod Total
pub mod Plain
pub mod Finish
use bdev_ubi.Common.{
  ℕ, zero, suc, ◌+◌, ◌*◌, ◌/◌, Bool, true, false, Option, none, some, List, [], ◌∷◌, ltb, ◌==◌,
  if◌then◌else◌, ℤ, pos, neg, is_zero, enomem,
}
use bdev_ubi.Common.Outcome.{Outcome, done, fault, ◌>>=◌}
use bdev_ubi.Posix.{FilePath}
use bdev_ubi.Bdev.{UbiBdev, Closing, open_or_closed, close_blob}

-- `struct spdk_ubi_bdev_opts`
pub record Opts : Type 0 where
  pub name : FilePath
  pub image_path : FilePath
  pub snapshot_path : Option FilePath
  pub base_bdev_name : FilePath
  pub no_sync : Bool
  pub directio : Bool
  pub format_bdev : Bool

-- The blobstore call in flight, by its callback.
pub data Pending : Type 0 where
  idle bs_init bs_load iter_first create_blob create_snapshot open_blob : Pending

-- The state of a creation: the fields of `struct ubi_create_context`, whether the io device is
-- registered with SPDK, whether the bdev is, whether it is on the module's list, the closing call
-- in flight, what `done_fn` was called with, newest first, and how often the context was freed.
pub record State : Type 0 where
  pub ubi_bdev : Option UbiBdev
  pub registerd : Bool
  pub format_bdev : Bool
  pub pending : Pending
  pub io_device : Bool
  pub bdev_registered : Bool
  pub listed : Bool
  pub closing : Closing
  pub replies : List ℤ
  pub context_frees : ℕ

-- The synchronous answers of the allocator and of SPDK to one creation.
pub record Answers : Type 0 where
  pub allocated : Bool
  pub name_copied : Bool
  pub create_bs_dev : ℤ
  pub base_blocklen : ℕ
  pub base_blockcnt : ℕ
  pub num_io_units : ℕ
  pub io_unit_size : ℕ
  pub register_bdev : ℤ

abbrev pub start : State
start = record {
  ubi_bdev = none;
  registerd = false;
  format_bdev = false;
  pending = idle;
  io_device = false;
  bdev_registered = false;
  listed = false;
  closing = open_or_closed;
  replies = [];
  context_frees = 0;
}

-- strncpy into 1024 bytes, the last of which is then set to 0.
abbrev pub truncate : ℕ → FilePath → FilePath
truncate zero path = []
truncate (suc n) [] = []
truncate (suc n) (c ∷ cs) = c ∷ truncate n cs

abbrev pub optional_path : Option FilePath → FilePath
optional_path none = []
optional_path (some path) = truncate 1023 path

-- The end of ubi_finish_create: `done_fn`, and free of the context.
abbrev pub report : ℤ → State → State
report status s = record s { replies = status ∷ s.replies; context_frees = s.context_frees + 1 }

-- The failure part of ubi_finish_create on a bdev.
unfoldable pub undo : UbiBdev → State → State
undo b s = record s {
  io_device = if s.registerd then false else s.io_device;
  closing = close_blob b b.blob;
}

-- The bdev after calloc.
abbrev pub blank : UbiBdev
blank = record {
  name = [];
  blocklen = 0;
  blockcnt = 0;
  optimal_io_boundary = 0;
  image_path = [];
  snapshot_path = [];
  alignment_bytes = 0;
  no_sync = false;
  directio = false;
  blobstore = false;
  blobid = 0;
  blob = none;
}

-- The bdev after the copies of its options. `directio` is not among them.
unfoldable pub new_bdev : Opts → UbiBdev
new_bdev opts = record blank {
  name = opts.name;
  no_sync = opts.no_sync;
  image_path = truncate 1023 opts.image_path;
  snapshot_path = optional_path opts.snapshot_path;
}

module _ (a : Answers) where
  -- The success part of ubi_finish_create: the geometry, and the registration, whose failure is a
  -- failure of the whole. The division by the block length faults at 0.
  unfoldable pub register : UbiBdev → State → Outcome (State × ℤ)
  register b s =
      let b' = record b {
        blockcnt = a.num_io_units;
        blocklen = a.io_unit_size;
        optimal_io_boundary = 4 * 1024 / a.io_unit_size;
      } in
      if a.io_unit_size == 0
      then fault
      else if is_zero a.register_bdev
      then done (record s { ubi_bdev = some b'; bdev_registered = true; listed = true }, pos 0)
      else done (record s { ubi_bdev = some b' }, a.register_bdev)

  -- Both parts, on the bdev of the context. A NULL bdev is used only if the status is 0.
  unfoldable pub finish_with : Option UbiBdev → ℤ → State → Outcome State
  unfolding register undo
  finish_with none status s = if is_zero status then fault else done (report status s)
  finish_with (some b) status s =
      if is_zero status
      then (do
        (s', status') ← register b s
        done (report status' (if is_zero status' then s' else undo b s')))
      else done (report status (undo b s))

  -- ubi_finish_create
  unfoldable pub finish_create : ℤ → State → Outcome State
  unfolding finish_with
  finish_create status s = finish_with s.ubi_bdev status s

  abbrev pub set_pending : Pending → State → State
  set_pending p s = record s { pending = p }

  -- `spdk_blob_get_id`, which reads the blob behind the pointer: a parameter.
  module _ (get_id : Option ℕ → Outcome ℕ) where
    -- ubi_blob_open_complete, on the context's bdev. The id is read, for the log, before the
    -- error is looked at.
    unfoldable pub blob_open_complete : UbiBdev → Option ℕ → ℤ → State → Outcome State
    blob_open_complete b blob bserrno s = do
      id ← get_id blob
      if is_zero bserrno
          then finish_create (pos 0)
              (record s { ubi_bdev = some (record b { blob = blob; blobid = id }) })
          else finish_create bserrno s

  -- ubi_blob_snapshot_complete
  unfoldable pub blob_snapshot_complete : ℤ → State → Outcome State
  blob_snapshot_complete bserrno s =
      if is_zero bserrno then done (set_pending open_blob s) else finish_create bserrno s

  -- ubi_blob_create_complete
  unfoldable pub blob_create_complete : UbiBdev → ℕ → ℤ → State → Outcome State
  blob_create_complete b blobid bserrno s =
      if is_zero bserrno
      then done (
          set_pending create_snapshot (record s { ubi_bdev = some (record b { blobid = blobid }) }))
      else finish_create bserrno s

  -- ubi_bs_init_complete
  unfoldable pub bs_init_complete : UbiBdev → ℤ → State → Outcome State
  bs_init_complete b bserrno s =
      if is_zero bserrno
      then done (
          set_pending (if s.format_bdev then create_blob else iter_first)
            (record s { ubi_bdev = some (record b { blobstore = true }) }))
      else finish_create bserrno s

  -- bdev_ubi_create from the base device on.
  unfoldable pub with_base : Opts → UbiBdev → State → Outcome State
  with_base opts b s =
      if is_zero a.create_bs_dev
      then done (
          set_pending (if opts.format_bdev then bs_init else bs_load) (record s {
            ubi_bdev = some (record b {
              blocklen = a.base_blocklen;
              blockcnt = a.base_blockcnt;
              alignment_bytes = 4096;
            });
            registerd = true;
            io_device = true;
            format_bdev = opts.format_bdev;
          }))
      else finish_create a.create_bs_dev s

  -- bdev_ubi_create. With no options it reads `opts->name` through the NULL.
  unfoldable pub create : Option Opts → Outcome State
  unfolding new_bdev
  create none = fault
  create (some opts) =
      if a.allocated
      then if a.name_copied
        then with_base opts (new_bdev opts) (record start { ubi_bdev = some (new_bdev opts) })
        else finish_create (neg enomem) (record start { ubi_bdev = some blank })
      else finish_create (neg enomem) start
