-- ===== src/Bdev/Create/Finish.antt =====
-- A creation of src/lib/bdev_ubi.c whose calls are completed, one after the other.
use bdev_ubi.Common.{
  ℕ, ◌≡◌, ◌≢◌, ◌⊎◌, refl, Bool, true, false, List, [], ◌∷◌, Option, some, ℤ, arith, inl, inr,
}
use bdev_ubi.Common.Outcome.{Outcome, done, fault, ◌>>=◌}
use bdev_ubi.Bdev.Create.{
  Opts, Pending, idle, bs_init, create_blob, create_snapshot, open_blob, State, Answers, create,
  with_base, finish_create, bs_init_complete, blob_create_complete, blob_snapshot_complete,
  blob_open_complete,
}
use bdev_ubi.Bdev.Create.Flow.{Event, ready, opened, created, snapshotted, deliver, run, run_create}
use bdev_ubi.Bdev.Create.Once.{Phase, Ensures, IsFinished}
use bdev_ubi.Bdev.Create.Total.{run_create-Ensures}

-- The completions of the calls of a creation, in order, with their results: four if the base bdev
-- is formatted, two if not.
abbrev pub completions : Bool → ℤ → ℕ → ℤ → ℤ → ℕ → ℤ → List Event
completions true rc id rc' rc'' blob rc''' =
    ready rc ∷ created id rc' ∷ snapshotted rc'' ∷ opened (some blob) rc''' ∷ []
completions false rc id rc' rc'' blob rc''' = ready rc ∷ opened (some blob) rc''' ∷ []

abbrev pub Finished : Outcome State → Type 0
Finished fault = ⊥
Finished (done s) = (s.pending ≡ idle) × IsFinished s

-- No call is in flight, if the run is defined.
abbrev AtRest : Outcome State → Type 0
AtRest fault = Unit {0}
AtRest (done s) = s.pending ≡ idle

-- At most this call is in flight in a creation that formats.
abbrev IsAwaiting : Pending → State → Type 0
IsAwaiting p s =
    ((s.pending ≡ idle) ⊎ (s.pending ≡ p)) × ((s.format_bdev ≡ true) ⊎ (s.pending ≡ idle))

abbrev Awaits : Pending → Outcome State → Type 0
Awaits p fault = Unit {0}
Awaits p (done s) = IsAwaiting p s

bind-Awaits :
    (p q : Pending) (o : Outcome State) (f : State → Outcome State)
    → Awaits p o
    → ((s : State) → IsAwaiting p s → Awaits q (f s))
    → Awaits q (o >>= f)
bind-Awaits p q fault f h k = tt
bind-Awaits p q (done s) f h k = k s h

module _ (a : Answers) (get_id : Option ℕ → Outcome ℕ) where
  load-AtRest :
      (opts : Opts) (rc : ℤ) (blob : ℕ) (rc' : ℤ)
      → opts.format_bdev ≡ false
      → AtRest (run_create a get_id (some opts) (ready rc ∷ opened (some blob) rc' ∷ []))
  unfolding run_create deliver create with_base finish_create bs_init_complete blob_open_complete
  load-AtRest opts rc blob rc' f = ground arith

  create-Awaits : (opts : Opts) → opts.format_bdev ≡ true → Awaits bs_init (create a (some opts))
  unfolding create with_base finish_create
  create-Awaits opts f = ground arith

  ready-Awaits :
      (s : State) (rc : ℤ)
      → IsAwaiting bs_init s
      → Awaits create_blob (deliver a get_id s (ready rc))
  unfolding deliver bs_init_complete finish_create
  ready-Awaits s rc h = ground arith

  created-Awaits :
      (s : State) (id : ℕ) (rc : ℤ)
      → IsAwaiting create_blob s
      → Awaits create_snapshot (deliver a get_id s (created id rc))
  unfolding deliver blob_create_complete finish_create
  created-Awaits s id rc h = ground arith

  snapshotted-Awaits :
      (s : State) (rc : ℤ)
      → IsAwaiting create_snapshot s
      → Awaits open_blob (deliver a get_id s (snapshotted rc))
  unfolding deliver blob_snapshot_complete finish_create
  snapshotted-Awaits s rc h = ground arith

  opened-Awaits :
      (s : State) (blob : ℕ) (rc : ℤ)
      → IsAwaiting open_blob s
      → Awaits idle (deliver a get_id s (opened (some blob) rc))
  unfolding deliver blob_open_complete finish_create
  opened-Awaits s blob rc h = ground arith

  format-AtRest :
      (opts : Opts) (rc : ℤ) (id : ℕ) (rc' rc'' : ℤ) (blob : ℕ) (rc''' : ℤ)
      → opts.format_bdev ≡ true
      → Awaits idle (
          run_create a get_id
            (some opts)
            (ready rc ∷ created id rc' ∷ snapshotted rc'' ∷ opened (some blob) rc''' ∷ []))
  unfolding run_create run
  format-AtRest opts rc id rc' rc'' blob rc''' f =
      bind-Awaits bs_init idle (create a (some opts)) _ (create-Awaits opts f) (λ s h.
        bind-Awaits create_blob idle (deliver a get_id s (ready rc)) _ (ready-Awaits s rc h) (λ t i.
          bind-Awaits create_snapshot idle (deliver a get_id t (created id rc')) _
            (created-Awaits t id rc' i)
            (λ u j.
              bind-Awaits open_blob idle (deliver a get_id u (snapshotted rc'')) _
                (snapshotted-Awaits u rc'' j)
                (λ v k.
                  bind-Awaits idle idle (deliver a get_id v (opened (some blob) rc''')) _
                    (opened-Awaits v blob rc''' k) (λ w l. l)))))

  idle-AtRest : (o : Outcome State) → Awaits idle o → AtRest o
  idle-AtRest fault h = tt
  idle-AtRest (done s) h = elim h.0 [ inl e ↦ e | inr e ↦ e ]

  both : (o : Outcome State) → Ensures o → AtRest o → Finished o
  both fault e r = e
  both (done s) e r = (r, at_rest s.pending s r e)
    where
      at_rest : (p : Pending) (s : State) → p ≡ idle → Phase p s → IsFinished s
      at_rest p s r e = rw r at e

  -- If SPDK's io units are not empty, the id of an open blob can be read, and the callback of an opening
  -- is handed a blob that is not NULL, whatever its status, then a creation is at its end once its calls
  -- are completed, four if it formats the base bdev and two if not, whatever their results and whatever
  -- the other answers of SPDK: no call is in flight, the caller was told once, the
  -- context was freed once, and the bdev is registered and listed exactly if the status is 0.
  pub run_create-Finished :
      (opts : Opts) (rc : ℤ) (id : ℕ) (rc' rc'' : ℤ) (blob : ℕ) (rc''' : ℤ)
      → a.io_unit_size ≢ 0
      → ((id : ℕ) → get_id (some id) ≡ done id)
      → Finished
          (run_create a get_id (some opts) (completions opts.format_bdev rc id rc' rc'' blob rc'''))
  run_create-Finished opts rc id rc' rc'' blob rc''' z k = by_format opts.format_bdev refl
    where
      by_format :
          (f : Bool)
          → opts.format_bdev ≡ f
          → Finished (run_create a get_id (some opts) (completions f rc id rc' rc'' blob rc'''))
      by_format true e =
          let es = ready rc ∷ created id rc' ∷ snapshotted rc'' ∷ opened (some blob) rc''' ∷ [] in
          both (run_create a get_id (some opts) es) (run_create-Ensures a get_id opts es z k tt)
            (idle-AtRest _ (format-AtRest opts rc id rc' rc'' blob rc''' e))
      by_format false e =
          let es = ready rc ∷ opened (some blob) rc''' ∷ [] in
          both (run_create a get_id (some opts) es) (run_create-Ensures a get_id opts es z k tt)
            (load-AtRest opts rc blob rc''' e)
