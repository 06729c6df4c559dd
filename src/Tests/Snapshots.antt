-- ===== src/Tests/Snapshots.antt =====
-- Snapshots of src/lib/bdev_ubi_snapshot.c at concrete events.
use bdev_ubi.Snapshot.Result.{Keeps, run_snapshot-Keeps}
use bdev_ubi.Rpc.{rpc_bdev_ubi_snapshot}
use bdev_ubi.Rpc.Once.{sent, SentOnce, rpc_bdev_ubi_snapshot-SentOnce}
use bdev_ubi.Common.{◌≡◌, some, none, refl, ◌∷◌, [], false, true, List, pos, neg, eio, arith}
use bdev_ubi.Common.Outcome.{done}
use bdev_ubi.Posix.{FilePath}
use bdev_ubi.Delta
use bdev_ubi.Snapshot.{
  SnapshotBdev, Blobstore, replied, freed_context, freed_path, freed_channel, destroyed_bs_dev,
  Effect, snapshot_create_cb, clone_create_cb, open_clone_cb, close_clone_cb, decouple_parent_cb,
  shallow_copy_complete_cb, shallow_copy_status_cb, State, ubi,
}
use bdev_ubi.Snapshot.Run.{Event, completed, copied, run_snapshot, deliver}
use bdev_ubi.Snapshot.Once.{Ensures, run_snapshot-Ensures}
use bdev_ubi.Snapshot.Progress.{Ends, run_snapshot-Ends}
use bdev_ubi.Common.Outcome.{Outcome, fault}

abbrev bdev : SnapshotBdev
bdev = record {
  blockcnt = 1024;
  blocklen = 512;
  blobid = 9;
  snapshot_status = record {
    in_progress = false;
    result = pos 0;
    copied_clusters = 0;
    total_clusters = 0;
  };
}

abbrev blobstore : Blobstore
blobstore = record {
  total_data_cluster_count = 4;
  cluster_size = 4096;
  set_read_only = pos 0;
  has_channel = true;
  delta_allocated = true;
  start_shallow_copy = pos 0;
}

abbrev path : FilePath
path = 115 ∷ []

-- The copy ends with an error, in the sixth completion.
abbrev events : List Event
events =
    completed 10 (pos 0)
    ∷ completed 11 (pos 0)
    ∷ completed 0 (pos 0)
    ∷ completed 0 (pos 0)
    ∷ completed 0 (pos 0)
    ∷ copied 2
    ∷ completed 0 (neg eio)
    ∷ []

abbrev effects_of : Outcome State → List Effect
effects_of fault = []
effects_of (done s) = s.effects

events_run :
    effects_of (run_snapshot blobstore bdev path events)
    ≡ freed_context ∷ freed_path ∷ freed_channel ∷ destroyed_bs_dev ∷ replied (pos 0) ∷ []
unfolding run_snapshot deliver snapshot_create_cb clone_create_cb open_clone_cb close_clone_cb
    decouple_parent_cb shallow_copy_complete_cb shallow_copy_status_cb Delta.create
events_run = refl

run_snapshot-Ensures_example : Ensures blobstore (run_snapshot blobstore bdev path events)
run_snapshot-Ensures_example =
    run_snapshot-Ensures blobstore bdev path events (λ e. absurd (omega (arith, e))) (omega arith)

run_snapshot-Ends_example : Ends blobstore (run_snapshot blobstore bdev path events)
run_snapshot-Ends_example =
    run_snapshot-Ends blobstore bdev path events (λ e. absurd (omega (arith, e))) (omega arith)
      (omega arith)

-- A bdev whose last snapshot failed.
abbrev failed_before : SnapshotBdev
failed_before = record bdev { snapshot_status = record bdev.snapshot_status { result = neg eio } }

abbrev successes : List Event
successes = completed 10 (pos 0) ∷ completed 11 (pos 0) ∷ completed 0 (pos 0) ∷ []

run_snapshot-Keeps_example : Keeps (neg eio) (run_snapshot blobstore failed_before path successes)
run_snapshot-Keeps_example =
    run_snapshot-Keeps blobstore failed_before path successes (λ e. absurd (omega (arith, e)))
      (omega arith) refl refl (refl, (refl, (refl, tt)))

rpc_bdev_ubi_snapshot-SentOnce_example :
    SentOnce (sent blobstore (rpc_bdev_ubi_snapshot (λ n. ubi bdev) (some ([], path))) events)
    × SentOnce (sent blobstore (rpc_bdev_ubi_snapshot (λ n. ubi bdev) none) events)
rpc_bdev_ubi_snapshot-SentOnce_example =
    rpc_bdev_ubi_snapshot-SentOnce blobstore (λ n. ubi bdev) [] path events refl
      (λ e. absurd (omega (arith, e))) (omega arith) (omega arith)
