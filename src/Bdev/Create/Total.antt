-- ===== src/Bdev/Create/Total.antt =====
-- A creation of src/lib/bdev_ubi.c from its first call to any later moment.
use bdev_ubi.Common.{ℕ, ◌≡◌, ◌≢◌, true, false, List, [], ◌∷◌, Option, none, some, ℤ, pos, arith}
use bdev_ubi.Common.Outcome.{Outcome, done, fault, ◌>>=◌}
use bdev_ubi.Bdev.{close_blob}
use bdev_ubi.Bdev.Create.{
  Opts, State, Answers, finish_create, bs_init_complete, blob_open_complete, create, new_bdev,
  with_base,
}
use bdev_ubi.Bdev.Create.Flow.{Event, ready, opened, created, snapshotted, deliver, run, run_create}
use bdev_ubi.Bdev.Create.Once.{Inv, Ensures, HasBlobs}
use bdev_ubi.Bdev.Create.Steps.{deliver-Inv}

create-Inv : (a : Answers) (opts : Opts) → Ensures (create a (some opts))
unfolding create finish_create with_base new_bdev close_blob
create-Inv a opts = ground arith

bind-Ensures :
    (o : Outcome State) (f : State → Outcome State)
    → Ensures o
    → ((s : State) → Inv s → Ensures (f s))
    → Ensures (o >>= f)
bind-Ensures fault f h k = h
bind-Ensures (done s) f h k = k s h

HasBlobs-cons : (e : Event) (es : List Event) → HasBlobs (e ∷ es) → HasBlobs (e ∷ []) × HasBlobs es
HasBlobs-cons (opened none rc) es h = absurd h
HasBlobs-cons (opened (some id) rc) es h = (tt, h)
HasBlobs-cons (ready rc) es h = (tt, h)
HasBlobs-cons (created id rc) es h = (tt, h)
HasBlobs-cons (snapshotted rc) es h = (tt, h)

module _ (a : Answers) (get_id : Option ℕ → Outcome ℕ) where
  run-Inv :
      (es : List Event) (s : State)
      → a.io_unit_size ≢ 0
      → ((id : ℕ) → get_id (some id) ≡ done id)
      → HasBlobs es
      → Inv s
      → Ensures (run a get_id s es)
  unfolding run
  run-Inv [] s z k b h = h
  run-Inv (e ∷ es) s z k b h =
      let parts = HasBlobs-cons e es b in
      bind-Ensures (deliver a get_id s e) (λ t. run a get_id t es)
        (deliver-Inv a get_id z k s e parts.0 h) (λ t i. run-Inv es t z k parts.1 i)

  -- If SPDK's io units are not empty, the id of an open blob can be read, and no blob is NULL where a
  -- callback gets one, then under any events and answers the creation does nothing undefined, and:
  -- while a call is in flight the caller was not told and the context is kept, and the io device is
  -- registered, the bdev not; with no call in flight the caller was told once, the context was freed
  -- once, and if the status is 0 the bdev is registered and on the list and its io device is kept,
  -- and if not neither is registered and the closing of the bdev, if there is one, was started.
  pub run_create-Ensures :
      (opts : Opts) (es : List Event)
      → a.io_unit_size ≢ 0
      → ((id : ℕ) → get_id (some id) ≡ done id)
      → HasBlobs es
      → Ensures (run_create a get_id (some opts) es)
  unfolding run_create
  run_create-Ensures opts es z k b =
      bind-Ensures (create a (some opts)) (λ s. run a get_id s es) (create-Inv a opts)
        (λ s h. run-Inv es s z k b h)

  -- If a bdev is created without formatting, its blobstore is loaded and its first blob cannot be
  -- opened, so that SPDK hands the callback a NULL blob and an error, and the id of a NULL blob cannot
  -- be read, then the creation is undefined, whatever the error.
  pub load-null_faults :
      (opts : Opts) (rc : ℤ) (es : List Event)
      → a.allocated ≡ true
      → a.name_copied ≡ true
      → a.create_bs_dev ≡ pos 0
      → opts.format_bdev ≡ false
      → get_id none ≡ fault
      → run_create a get_id (some opts) (ready (pos 0) ∷ opened none rc ∷ es) ≡ fault
  unfolding run_create create with_base bs_init_complete blob_open_complete deliver
  load-null_faults opts rc es al nm bs f g = rw (al, nm, bs, f, g)
