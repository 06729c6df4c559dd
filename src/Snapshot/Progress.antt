-- ===== src/Snapshot/Progress.antt =====
-- A snapshot of src/lib/bdev_ubi_snapshot.c and its end: how many completions it takes.
use bdev_ubi.Common.{
  ℕ, suc, ◌+◌, ◌-◌, ◌≤◌, ◌<◌, ◌≡◌, ◌≢◌, refl, List, [], ◌∷◌, Option, none, some, ℤ, arith, ◌&&◌,
  false,
}
use bdev_ubi.Common.Outcome.{Outcome, done, fault, ◌>>=◌}
use bdev_ubi.Posix.{FilePath, path_length}
use bdev_ubi.Snapshot.{
  SnapshotBdev, SnapshotContext, Pending, idle, create_snapshot, create_clone, open_clone,
  close_clone, decouple_parent, shallow_copy, Effect, State, Blobstore, started,
  shallow_copy_complete_cb, shallow_copy_status_cb, decouple_parent_cb, close_clone_cb,
  open_clone_cb, clone_create_cb, snapshot_create_cb,
}
use bdev_ubi.Snapshot.Run.{Event, completed, copied, deliver, run, run_snapshot}
use bdev_ubi.Snapshot.Once.{Phase, Inv, Ensures, step-Inv, started-Inv}

-- How many calls are still to complete at most.
abbrev pub remaining : Pending → ℕ
remaining idle = 0
remaining (shallow_copy b) = 1
remaining (decouple_parent b) = 2
remaining close_clone = 3
remaining (open_clone b) = 4
remaining (create_clone b) = 5
remaining (create_snapshot b) = 6

abbrev pub completions : List Event → ℕ
completions [] = 0
completions (completed id rc ∷ es) = suc (completions es)
completions (copied n ∷ es) = completions es

module _ (bs : Blobstore) where
  at : Pending → Option SnapshotContext → SnapshotBdev → List Effect → State
  at p c b es = record { ubi_bdev = b; ctx = c; pending = p; effects = es }

  -- The state after the events, with no call in flight. Only a channel or a delta device that could
  -- not be allocated leaves it undefined.
  abbrev pub Ends : Outcome State → Type 0
  Ends fault = (bs.has_channel && bs.delta_allocated) ≡ false
  Ends (done s) = (s.pending ≡ idle) × Phase bs idle s

  abbrev Within : ℕ → Outcome State → Type 0
  Within n fault = Unit {0}
  Within n (done s) = remaining s.pending ≤ n

  complete-Within :
      (p : Pending) (c : Option SnapshotContext) (b : SnapshotBdev) (es : List Effect) (id : ℕ)
      (rc : ℤ)
      → Within (remaining p - 1) (deliver bs (at p c b es) (completed id rc))
  unfolding deliver at
  complete-Within idle c b es id rc = omega arith
  complete-Within (create_snapshot i) none b es id rc = tt
  complete-Within (create_snapshot i) (some c) b es id rc =
      unfold snapshot_create_cb in ground arith
  complete-Within (create_clone i) none b es id rc = tt
  complete-Within (create_clone i) (some c) b es id rc = unfold clone_create_cb in ground arith
  complete-Within (open_clone i) none b es id rc = tt
  complete-Within (open_clone i) (some c) b es id rc = unfold open_clone_cb in ground arith
  complete-Within close_clone none b es id rc = tt
  complete-Within close_clone (some c) b es id rc = unfold close_clone_cb in ground arith
  complete-Within (decouple_parent i) none b es id rc = tt
  complete-Within (decouple_parent i) (some c) b es id rc =
      unfold decouple_parent_cb in ground arith
  complete-Within (shallow_copy i) none b es id rc = tt
  complete-Within (shallow_copy i) (some c) b es id rc =
      unfold shallow_copy_complete_cb in ground arith

  copied-Within :
      (p : Pending) (c : Option SnapshotContext) (b : SnapshotBdev) (es : List Effect) (n : ℕ)
      → Within (remaining p) (deliver bs (at p c b es) (copied n))
  unfolding deliver at
  copied-Within idle c b es n = omega arith
  copied-Within (create_snapshot i) c b es n = omega arith
  copied-Within (create_clone i) c b es n = omega arith
  copied-Within (open_clone i) c b es n = omega arith
  copied-Within close_clone c b es n = omega arith
  copied-Within (decouple_parent i) c b es n = omega arith
  copied-Within (shallow_copy i) c b es n = unfold shallow_copy_status_cb in omega arith

  -- An event takes a completion off what remains.
  step-Within :
      (s : State) (e : Event) (m : ℕ)
      → remaining s.pending ≤ completions (e ∷ []) + m
      → Within m (deliver bs s e)
  unfolding at
  step-Within s (completed id rc) m h =
      weaken (deliver bs s (completed id rc))
        (complete-Within s.pending s.ctx s.ubi_bdev s.effects id rc)
    where
      weaken : (o : Outcome State) → Within (remaining s.pending - 1) o → Within m o
      weaken fault w = tt
      weaken (done t) w = omega arith
  step-Within s (copied n) m h =
      weaken (deliver bs s (copied n)) (copied-Within s.pending s.ctx s.ubi_bdev s.effects n)
    where
      weaken : (o : Outcome State) → Within (remaining s.pending) o → Within m o
      weaken fault w = tt
      weaken (done t) w = omega arith

  at_rest :
      (p : Pending) (s : State) → remaining p ≤ 0 → Phase bs p s → (p ≡ idle) × Phase bs idle s
  at_rest idle s h f = (refl, f)
  at_rest (create_snapshot i) s h f = absurd (omega arith)
  at_rest (create_clone i) s h f = absurd (omega arith)
  at_rest (open_clone i) s h f = absurd (omega arith)
  at_rest close_clone s h f = absurd (omega arith)
  at_rest (decouple_parent i) s h f = absurd (omega arith)
  at_rest (shallow_copy i) s h f = absurd (omega arith)

  bind-Ends :
      (m : ℕ) (o : Outcome State) (f : State → Outcome State)
      → Ensures bs o
      → Within m o
      → ((s : State) → Inv bs s → remaining s.pending ≤ m → Ends (f s))
      → Ends (o >>= f)
  bind-Ends m fault f i w k = i
  bind-Ends m (done s) f i w k = k s i w

  split :
      (e : Event) (es : List Event) → completions (e ∷ es) ≡ completions (e ∷ []) + completions es
  split (completed id rc) es = omega arith
  split (copied n) es = omega arith

  run-Ends :
      (es : List Event) (s : State)
      → Inv bs s
      → remaining s.pending ≤ completions es
      → Ends (run bs s es)
  unfolding run
  run-Ends [] s i h = at_rest s.pending s h i.phase
  run-Ends (e ∷ es) s i h =
      bind-Ends (completions es) (deliver bs s e) (λ t. run bs t es) (step-Inv bs s e i)
        (step-Within s e (completions es) (omega (arith, split e es))) (λ t j w. run-Ends es t j w)

  -- If the bdev's block length is not 0 and the path has less than 1024 characters, then after any
  -- events with at least six completions, whatever their results, no call is in flight, the caller
  -- was told exactly once, and the context was freed exactly once unless the copy could not be
  -- started. This can be undefined only if the channel or the delta device could not be allocated.
  pub run_snapshot-Ends :
      (b : SnapshotBdev) (path : FilePath) (es : List Event)
      → b.blocklen ≢ 0
      → path_length path < 1024
      → 6 ≤ completions es
      → Ends (run_snapshot bs b path es)
  unfolding run_snapshot
  run_snapshot-Ends b path es z h n =
      run-Ends es (started b path) (started-Inv bs b path z h) (unfold started in n)
