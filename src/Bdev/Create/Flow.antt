-- ===== src/Bdev/Create/Flow.antt =====
-- The blobstore's side of a creation of src/lib/bdev_ubi.c: it completes the call in flight by its
-- callback, with whatever result.
use bdev_ubi.Common.{ℕ, List, [], ◌∷◌, Option, none, some, ℤ}
use bdev_ubi.Common.Outcome.{Outcome, done, fault, ◌>>=◌}
use bdev_ubi.Bdev.{UbiBdev}
use bdev_ubi.Bdev.Create.{
  Opts, Pending, idle, bs_init, bs_load, iter_first, create_blob, create_snapshot, open_blob, State,
  Answers, bs_init_complete, blob_create_complete, blob_snapshot_complete, blob_open_complete,
  create,
}

-- The completion of spdk_bs_init or spdk_bs_load, of spdk_bs_iter_first or spdk_bs_open_blob (with
-- the blob, or none for NULL), of spdk_bs_create_blob_ext, and of spdk_bs_create_snapshot.
pub data Event : Type 0 where
  ready : ℤ → Event
  opened : Option ℕ → ℤ → Event
  created : ℕ → ℤ → Event
  snapshotted : ℤ → Event

module _ (a : Answers) (get_id : Option ℕ → Outcome ℕ) where
  -- The callback for an event, if its call is the one in flight.
  unfoldable pub callback : Pending → Event → UbiBdev → State → State → Outcome State
  callback bs_init (ready rc) b before s = bs_init_complete a b rc s
  callback bs_load (ready rc) b before s = bs_init_complete a b rc s
  callback iter_first (opened blob rc) b before s = blob_open_complete a get_id b blob rc s
  callback open_blob (opened blob rc) b before s = blob_open_complete a get_id b blob rc s
  callback create_blob (created id rc) b before s = blob_create_complete a b id rc s
  callback create_snapshot (snapshotted rc) b before s = blob_snapshot_complete a rc s
  callback _ _ b before s = done before

  -- A callback reads the bdev of the context.
  unfoldable pub deliver_to : Option UbiBdev → State → Event → Outcome State
  unfolding callback
  deliver_to none s e = fault
  deliver_to (some b) s e = callback s.pending e b s (record s { pending = idle })

  -- With no call in flight there is no event, and nothing happens.
  unfoldable pub deliver : State → Event → Outcome State
  unfolding deliver_to
  deliver s e = elim s.pending [ idle ↦ done s | _ ↦ deliver_to s.ubi_bdev s e ]

  unfoldable pub run : State → List Event → Outcome State
  run s [] = done s
  run s (e ∷ es) = do s' ← deliver s e; run s' es

  -- bdev_ubi_create, and the events that follow.
  unfoldable pub run_create : Option Opts → List Event → Outcome State
  unfolding run
  run_create opts es = do s ← create a opts; run s es
