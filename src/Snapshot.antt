-- ===== src/Snapshot.antt =====
-- src/lib/bdev_ubi_snapshot.c: taking a snapshot is a chain of asynchronous blobstore calls, each
-- with a callback of this file. The state holds what the callbacks read and write; the call in
-- flight is part of it. Callbacks are functions of the state; the children run them and prove.
pub mod Run
pub mod Once
pub mod Progress
pub mod Result
use bdev_ubi.Common.{
  ℕ, Bool, true, false, List, [], ◌∷◌, Option, none, some, if◌then◌else◌, ℤ, pos, is_zero, neg,
  enoent, ◌==◌, ◌%◌, ◌^◌,
}
use bdev_ubi.Common.Outcome.{Outcome, done, fault, ◌>>=◌}
use bdev_ubi.Posix.{FilePath}
use bdev_ubi.Delta
use bdev_ubi.Delta.{BsDevDelta, delta_write}

-- `snapshot_status` of a ubi_bdev.
pub record SnapshotStatus : Type 0 where
  pub in_progress : Bool
  pub result : ℤ
  pub copied_clusters : ℕ
  pub total_clusters : ℕ

-- The fields of a ubi_bdev that a snapshot uses.
pub record SnapshotBdev : Type 0 where
  pub blockcnt : ℕ
  pub blocklen : ℕ
  pub blobid : ℕ
  pub snapshot_status : SnapshotStatus

-- `struct snapshot_context`, without the callback and its argument. `ch` is whether a channel was
-- allocated.
pub record SnapshotContext : Type 0 where
  pub snapshot_blobid : ℕ
  pub clone_blobid : ℕ
  pub ch : Bool
  pub shallow_copy_bs_dev : Option BsDevDelta
  pub path : FilePath

-- The asynchronous call in flight, by its callback: the last one has the status callback beside it.
pub data Pending : Type 0 where
  idle : Pending
  create_snapshot : ℕ → Pending
  create_clone : ℕ → Pending
  open_clone : ℕ → Pending
  close_clone : Pending
  decouple_parent : ℕ → Pending
  shallow_copy : ℕ → Pending

-- What the code does that is seen outside: `cb_fn`, and the release of the context's parts.
pub data Effect : Type 0 where
  replied : ℤ → Effect
  destroyed_bs_dev freed_channel freed_path freed_context : Effect

-- `ctx` is none before the context is allocated and after it is freed. Effects are newest first.
pub record State : Type 0 where
  pub ubi_bdev : SnapshotBdev
  pub ctx : Option SnapshotContext
  pub pending : Pending
  pub effects : List Effect

-- The bdev that SPDK has under a name. A bdev of another module is no `struct ubi_bdev`.
pub data Found : Type 0 where
  missing foreign : Found
  ubi : SnapshotBdev → Found

-- The synchronous answers of the blobstore and of the allocator to one snapshot. `has_channel` and
-- `delta_allocated` are whether the channel and the delta device are given, or are NULL.
pub record Blobstore : Type 0 where
  pub total_data_cluster_count : ℕ
  pub cluster_size : ℕ
  pub set_read_only : ℤ
  pub has_channel : Bool
  pub delta_allocated : Bool
  pub start_shallow_copy : ℤ

abbrev pub emit : Effect → State → State
emit e s = record s { effects = e ∷ s.effects }

-- `ubi_bdev->snapshot_status.result = rc`
abbrev pub set_result : ℤ → State → State
set_result rc s = record s {
  ubi_bdev = record s.ubi_bdev {
    snapshot_status = record s.ubi_bdev.snapshot_status { result = rc };
  };
}

abbrev pub set_pending : Pending → State → State
set_pending p s = record s { pending = p }

abbrev pub set_ctx : SnapshotContext → State → State
set_ctx c s = record s { ctx = some c }

abbrev pub destroy_copy : Option BsDevDelta → State → State
destroy_copy none s = s
destroy_copy (some dev) s = emit destroyed_bs_dev s

-- cleanup_snapshot_context
unfoldable pub cleanup_snapshot_context : SnapshotContext → State → State
cleanup_snapshot_context c s =
    let t = destroy_copy c.shallow_copy_bs_dev s in
    let u = if c.ch then emit freed_channel t else t in
    record (emit freed_context (emit freed_path u)) { ctx = none }

-- The error path that the callbacks share: the result is kept, the caller told, the context freed.
unfoldable pub fail : SnapshotContext → ℤ → State → State
unfolding cleanup_snapshot_context
fail c rc s = cleanup_snapshot_context c (emit (replied rc) (set_result rc s))

-- ubi_shallow_copy_complete_cb
unfoldable pub shallow_copy_complete_cb : SnapshotContext → ℤ → State → State
unfolding cleanup_snapshot_context
shallow_copy_complete_cb c rc s =
    let t = cleanup_snapshot_context c (if is_zero rc then s else set_result rc s) in
    record t {
      ubi_bdev = record t.ubi_bdev {
        snapshot_status = record t.ubi_bdev.snapshot_status { in_progress = false };
      };
    }

-- ubi_shallow_copy_status_cb
unfoldable pub shallow_copy_status_cb : ℕ → State → State
shallow_copy_status_cb copied s = record s {
  ubi_bdev = record s.ubi_bdev {
    snapshot_status = record s.ubi_bdev.snapshot_status { copied_clusters = copied };
  };
}

module _ (bs : Blobstore) where
  -- The end of ubi_start_snapshot: the delta device, and the start of the copy. A copy that does
  -- not start has no completion. A device that is NULL is handed to SPDK, which uses it.
  unfoldable pub start_copy : SnapshotContext → Option BsDevDelta → State → Outcome State
  start_copy c none s = fault
  start_copy c (some dev) s = done (
      emit (replied bs.start_shallow_copy) (
        set_pending (if is_zero bs.start_shallow_copy then shallow_copy c.clone_blobid else idle)
          (set_ctx (record c { shallow_copy_bs_dev = some dev }) s)))

  -- ubi_start_snapshot
  unfoldable pub start_snapshot : SnapshotContext → ℤ → State → Outcome State
  unfolding start_copy fail
  start_snapshot c bserrno s =
      if is_zero bserrno
      then (do
        dev ←
            Delta.create bs.delta_allocated c.path s.ubi_bdev.blockcnt s.ubi_bdev.blocklen
              (bs.cluster_size % 2 ^ 32) delta_write
        start_copy c dev (record s {
          ubi_bdev = record s.ubi_bdev {
            snapshot_status = record s.ubi_bdev.snapshot_status {
              in_progress = true;
              total_clusters = bs.total_data_cluster_count;
            };
          };
        }))
      else done (fail c bserrno s)

  -- ubi_decouple_parent_cb
  unfoldable pub decouple_parent_cb : SnapshotContext → ℤ → State → Outcome State
  unfolding start_snapshot fail
  decouple_parent_cb c bserrno s =
      if is_zero bserrno then start_snapshot c (pos 0) s else done (fail c bserrno s)

  -- ubi_close_clone_cb. A channel that is NULL is handed to SPDK, which uses it.
  unfoldable pub close_clone_cb : SnapshotContext → ℤ → State → Outcome State
  unfolding fail
  close_clone_cb c bserrno s =
      if is_zero bserrno
      then if c.ch then done (set_pending (decouple_parent c.clone_blobid) s) else fault
      else done (fail c bserrno s)

  -- ubi_open_clone_cb
  unfoldable pub open_clone_cb : SnapshotContext → ℤ → State → State
  unfolding fail
  open_clone_cb c bserrno s =
      if is_zero bserrno
      then if is_zero bs.set_read_only then set_pending close_clone s else fail c bs.set_read_only s
      else fail c bserrno s

  -- ubi_clone_create_cb
  unfoldable pub clone_create_cb : SnapshotContext → ℕ → ℤ → State → State
  unfolding fail
  clone_create_cb c blobid bserrno s =
      if is_zero bserrno
      then set_pending (open_clone blobid) (set_ctx (record c { clone_blobid = blobid }) s)
      else fail c bserrno s

  -- The part of ubi_snapshot_create_cb behind its error path, by the path's first character.
  unfoldable pub snapshot_created : FilePath → SnapshotContext → ℕ → State → State
  unfolding cleanup_snapshot_context
  snapshot_created [] c blobid s = cleanup_snapshot_context c (emit (replied (pos 0)) s)
  snapshot_created (x ∷ xs) c blobid s =
      set_pending (create_clone blobid)
        (set_ctx (record c { snapshot_blobid = blobid; ch = bs.has_channel }) s)

  -- ubi_snapshot_create_cb
  unfoldable pub snapshot_create_cb : SnapshotContext → ℕ → ℤ → State → State
  unfolding snapshot_created fail
  snapshot_create_cb c blobid bserrno s =
      if is_zero bserrno then snapshot_created c.path c blobid s else fail c bserrno s

-- The context that bdev_ubi_snapshot allocates, and its first call. The allocations are taken to
-- succeed, since the code uses them with no test.
unfoldable pub started : SnapshotBdev → FilePath → State
started b path = record {
  ubi_bdev = b;
  ctx = some (record {
    snapshot_blobid = 0;
    clone_blobid = 0;
    ch = false;
    shallow_copy_bs_dev = none;
    path = path;
  });
  pending = create_snapshot b.blobid;
  effects = [];
}

-- bdev_ubi_snapshot: what it does at once, and the state of the snapshot that it starts. `found` is
-- the bdev that SPDK has under the name; the code takes any bdev for one of its own, and uses fields
-- that a bdev of another module does not have.
unfoldable pub snapshot : Found → FilePath → Outcome (List Effect × Option State)
unfolding started
snapshot missing path = done (replied (neg enoent) ∷ [], none)
snapshot foreign path = fault
snapshot (ubi b) path = done ([], some (started b path))
