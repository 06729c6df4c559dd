-- ===== src/Bdev/Create/Plain.antt =====
-- The flag `directio` and the paths of the bdev during a creation of src/lib/bdev_ubi.c.
use bdev_ubi.Common.{
  ℕ, zero, suc, ◌≤◌, ◌<◌, ◌≡◌, refl, false, List, [], ◌∷◌, Option, none, some, ℤ, pos, is_zero,
  arith, Bool-cases, inl, inr,
}
use bdev_ubi.Common.Outcome.{Outcome, done, fault, ◌>>=◌}
use bdev_ubi.Posix.{FilePath, path_length}
use bdev_ubi.Bdev.{UbiBdev}
use bdev_ubi.Bdev.Create.{
  Opts, Pending, idle, bs_init, bs_load, iter_first, create_blob, create_snapshot, open_blob, State,
  Answers, finish_create, bs_init_complete, blob_create_complete, blob_snapshot_complete,
  blob_open_complete, create, with_base, truncate, optional_path, new_bdev,
}
use bdev_ubi.Bdev.Create.Flow.{Event, ready, opened, created, snapshotted, deliver, run, run_create}

-- `directio` is off, and both paths fit their fields with the terminating NUL.
abbrev pub IsPlain : UbiBdev → Type 0
IsPlain b =
    (b.directio ≡ false) × (path_length b.image_path < 1024) × (path_length b.snapshot_path < 1024)

path_length-truncate : (n : ℕ) (path : FilePath) → path_length (truncate n path) ≤ n
path_length-truncate zero path = omega arith
path_length-truncate (suc n) [] = omega arith
path_length-truncate (suc n) (c ∷ cs) = omega (arith, path_length-truncate n cs)

path_length-optional : (path : Option FilePath) → path_length (optional_path path) ≤ 1023
path_length-optional none = omega arith
path_length-optional (some path) = path_length-truncate 1023 path

new_bdev-IsPlain : (opts : Opts) → IsPlain (new_bdev opts)
unfolding new_bdev
new_bdev-IsPlain opts = (
  refl,
  omega (arith, path_length-truncate 1023 opts.image_path),
  omega (arith, path_length-optional opts.snapshot_path),
)

abbrev pub Plain : Option UbiBdev → Type 0
Plain none = Unit {0}
Plain (some b) = IsPlain b

abbrev pub AllPlain : Outcome State → Type 0
AllPlain fault = Unit {0}
AllPlain (done s) = Plain s.ubi_bdev

finish-AllPlain :
    (a : Answers) (status : ℤ) (s : State) → Plain s.ubi_bdev → AllPlain (finish_create a status s)
unfolding finish_create
finish-AllPlain a status s h = with_bdev s.ubi_bdev s h
  where
    with_bdev :
        (c : Option UbiBdev) (s : State)
        → Plain c
        → AllPlain (finish_create a status (record s { ubi_bdev = c }))
    with_bdev none s h = ground arith
    with_bdev (some b) s h = ground arith

create-AllPlain : (a : Answers) (opts : Option Opts) → AllPlain (create a opts)
unfolding create with_base finish_create
create-AllPlain a none = tt
create-AllPlain a (some opts) = ground (arith, new_bdev-IsPlain opts)

bind-AllPlain :
    {A : Type 0} (o : Outcome A) (f : A → Outcome State)
    → ((x : A) → o ≡ done x → AllPlain (f x))
    → AllPlain (o >>= f)
bind-AllPlain fault f k = tt
bind-AllPlain (done x) f k = k x refl

module _ (a : Answers) (get_id : Option ℕ → Outcome ℕ) where
  fired : State → UbiBdev → State
  fired s b = record s { ubi_bdev = some b; pending = idle }

  init-AllPlain :
      (s : State) (b : UbiBdev) (rc : ℤ)
      → IsPlain b
      → AllPlain (bs_init_complete a b rc (record s { ubi_bdev = some b }))
  unfolding bs_init_complete
  init-AllPlain s b rc h = elim (Bool-cases (is_zero rc)) [
    | inl good ↦ rw good h
    | inr bad ↦ rw bad (finish-AllPlain a rc (record s { ubi_bdev = some b }) h)
  ]

  blob-AllPlain :
      (s : State) (b : UbiBdev) (id : ℕ) (rc : ℤ)
      → IsPlain b
      → AllPlain (blob_create_complete a b id rc (record s { ubi_bdev = some b }))
  unfolding blob_create_complete
  blob-AllPlain s b id rc h = elim (Bool-cases (is_zero rc)) [
    | inl good ↦ rw good h
    | inr bad ↦ rw bad (finish-AllPlain a rc (record s { ubi_bdev = some b }) h)
  ]

  snapshot-AllPlain :
      (s : State) (rc : ℤ) → Plain s.ubi_bdev → AllPlain (blob_snapshot_complete a rc s)
  unfolding blob_snapshot_complete
  snapshot-AllPlain s rc h = elim (Bool-cases (is_zero rc)) [
    | inl good ↦ rw good h
    | inr bad ↦ rw bad (finish-AllPlain a rc s h)
  ]

  open-AllPlain :
      (s : State) (b : UbiBdev) (blob : Option ℕ) (rc : ℤ)
      → IsPlain b
      → AllPlain (blob_open_complete a get_id b blob rc (record s { ubi_bdev = some b }))
  unfolding blob_open_complete
  open-AllPlain s b blob rc h = bind-AllPlain (get_id blob) _ (λ id e.
      elim (Bool-cases (is_zero rc)) [
        | inl good ↦ rw good (
            finish-AllPlain a (pos 0)
              (record s { ubi_bdev = some (record b { blob = blob; blobid = id }) }) h)
        | inr bad ↦ rw bad (finish-AllPlain a rc (record s { ubi_bdev = some b }) h)
      ])

  in_flight : Pending → Option UbiBdev → State → State
  in_flight p c s = record s { pending = p; ubi_bdev = c }

  by_pending :
      (p : Pending) (c : Option UbiBdev) (s : State) (e : Event)
      → Plain c
      → AllPlain (deliver a get_id (in_flight p c s) e)
  unfolding deliver in_flight fired
  by_pending idle c s e h = h
  by_pending bs_init none s e h = tt
  by_pending bs_init (some b) s (ready rc) h = init-AllPlain (fired s b) b rc h
  by_pending bs_init (some b) s (opened blob rc) h = h
  by_pending bs_init (some b) s (created id rc) h = h
  by_pending bs_init (some b) s (snapshotted rc) h = h
  by_pending bs_load none s e h = tt
  by_pending bs_load (some b) s (ready rc) h = init-AllPlain (fired s b) b rc h
  by_pending bs_load (some b) s (opened blob rc) h = h
  by_pending bs_load (some b) s (created id rc) h = h
  by_pending bs_load (some b) s (snapshotted rc) h = h
  by_pending iter_first none s e h = tt
  by_pending iter_first (some b) s (ready rc) h = h
  by_pending iter_first (some b) s (opened blob rc) h = open-AllPlain (fired s b) b blob rc h
  by_pending iter_first (some b) s (created id rc) h = h
  by_pending iter_first (some b) s (snapshotted rc) h = h
  by_pending create_blob none s e h = tt
  by_pending create_blob (some b) s (ready rc) h = h
  by_pending create_blob (some b) s (opened blob rc) h = h
  by_pending create_blob (some b) s (created id rc) h = blob-AllPlain (fired s b) b id rc h
  by_pending create_blob (some b) s (snapshotted rc) h = h
  by_pending create_snapshot none s e h = tt
  by_pending create_snapshot (some b) s (ready rc) h = h
  by_pending create_snapshot (some b) s (opened blob rc) h = h
  by_pending create_snapshot (some b) s (created id rc) h = h
  by_pending create_snapshot (some b) s (snapshotted rc) h = snapshot-AllPlain (fired s b) rc h
  by_pending open_blob none s e h = tt
  by_pending open_blob (some b) s (ready rc) h = h
  by_pending open_blob (some b) s (opened blob rc) h = open-AllPlain (fired s b) b blob rc h
  by_pending open_blob (some b) s (created id rc) h = h
  by_pending open_blob (some b) s (snapshotted rc) h = h

  deliver-AllPlain : (s : State) (e : Event) → Plain s.ubi_bdev → AllPlain (deliver a get_id s e)
  unfolding in_flight
  deliver-AllPlain s e h = by_pending s.pending s.ubi_bdev s e h

  run-AllPlain : (es : List Event) (s : State) → Plain s.ubi_bdev → AllPlain (run a get_id s es)
  unfolding run
  run-AllPlain [] s h = h
  run-AllPlain (e ∷ es) s h =
      bind-AllPlain (deliver a get_id s e) (λ t. run a get_id t es)
        (λ t d. run-AllPlain es t (rw d at (deliver-AllPlain s e h)))

  pub run_create-AllPlain :
      (opts : Option Opts) (es : List Event) → AllPlain (run_create a get_id opts es)
  unfolding run_create
  run_create-AllPlain opts es =
      bind-AllPlain (create a opts) (λ s. run a get_id s es)
        (λ s e. run-AllPlain es s (rw e at (create-AllPlain a opts)))
