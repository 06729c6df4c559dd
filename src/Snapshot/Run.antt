-- ===== src/Snapshot/Run.antt =====
-- The blobstore's side of src/lib/bdev_ubi_snapshot.c: it completes the call in flight by its
-- callback, with whatever result, and reports progress during the copy.
use bdev_ubi.Common.{ℕ, List, [], ◌∷◌, Option, none, some, ℤ}
use bdev_ubi.Common.Outcome.{Outcome, done, fault, ◌>>=◌}
use bdev_ubi.Posix.{FilePath}
use bdev_ubi.Snapshot.{
  SnapshotContext, Pending, idle, create_snapshot, create_clone, open_clone, close_clone,
  decouple_parent, shallow_copy, State, Blobstore, shallow_copy_complete_cb, shallow_copy_status_cb,
  decouple_parent_cb, close_clone_cb, open_clone_cb, clone_create_cb, snapshot_create_cb, snapshot,
  started, SnapshotBdev, ubi,
}

-- `completed blobid rc` ends the call in flight; a callback with no blob id ignores the number.
pub data Event : Type 0 where
  completed : ℕ → ℤ → Event
  copied : ℕ → Event

module _ (bs : Blobstore) where
  -- The callback of a call, on the context that it was given.
  unfoldable pub callback : Pending → SnapshotContext → ℕ → ℤ → State → Outcome State
  callback idle c id rc s = done s
  callback (create_snapshot b) c id rc s = done (snapshot_create_cb bs c id rc s)
  callback (create_clone b) c id rc s = done (clone_create_cb bs c id rc s)
  callback (open_clone b) c id rc s = done (open_clone_cb bs c rc s)
  callback close_clone c id rc s = close_clone_cb bs c rc s
  callback (decouple_parent b) c id rc s = decouple_parent_cb bs c rc s
  callback (shallow_copy b) c id rc s = done (shallow_copy_complete_cb c rc s)

  -- A callback that is handed a freed context is a use after free.
  unfoldable pub complete : Pending → Option SnapshotContext → ℕ → ℤ → State → Outcome State
  unfolding callback
  complete idle c id rc s = done s
  complete p none id rc s = fault
  complete p (some c) id rc s = callback p c id rc (record s { pending = idle })

  unfoldable pub report : Pending → ℕ → State → State
  report (shallow_copy b) n s = shallow_copy_status_cb n s
  report _ n s = s

  -- With no call in flight there is no event, and nothing happens.
  unfoldable pub deliver : State → Event → Outcome State
  unfolding complete report
  deliver s (completed id rc) = complete s.pending s.ctx id rc s
  deliver s (copied n) = done (report s.pending n s)

  unfoldable pub run : State → List Event → Outcome State
  run s [] = done s
  run s (e ∷ es) = do s' ← deliver s e; run s' es

  abbrev pub run_started : Option State → List Event → Outcome State
  run_started none es = fault
  run_started (some s) es = run s es

  -- bdev_ubi_snapshot on a bdev of the module, and the events that follow.
  unfoldable pub run_snapshot : SnapshotBdev → FilePath → List Event → Outcome State
  unfolding run snapshot started
  run_snapshot b path es = snapshot (ubi b) path >>= λ r. run_started r.1 es
