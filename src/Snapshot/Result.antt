-- ===== src/Snapshot/Result.antt =====
-- The `result` that src/lib/bdev_ubi_snapshot.c keeps for bdev_ubi_snapshot_status.
use mathlib.Core.Bool.{true≢false}
use bdev_ubi.Common.{
  ℕ, ◌<◌, ◌≡◌, ◌≢◌, refl, List, [], ◌∷◌, Option, none, some, ℤ, is_zero, true, arith, ◌&&◌, sym,
  ◌∙◌,
}
use bdev_ubi.Common.Outcome.{Outcome, done, fault, ◌>>=◌}
use bdev_ubi.Posix.{FilePath, path_length}
use bdev_ubi.Snapshot.{
  SnapshotBdev, SnapshotContext, Pending, idle, create_snapshot, create_clone, open_clone,
  close_clone, decouple_parent, shallow_copy, Effect, State, Blobstore, started,
  shallow_copy_complete_cb, shallow_copy_status_cb, decouple_parent_cb, close_clone_cb,
  open_clone_cb, clone_create_cb, snapshot_create_cb,
}
use bdev_ubi.Snapshot.Once.{Ensures, run_snapshot-Ensures}
use bdev_ubi.Snapshot.Run.{Event, completed, copied, deliver, run, run_snapshot}

-- Every completion of a schedule succeeds.
abbrev pub AllSucceed : List Event → Type 0
AllSucceed [] = Unit {0}
AllSucceed (completed id rc ∷ es) = (is_zero rc ≡ true) × AllSucceed es
AllSucceed (copied n ∷ es) = AllSucceed es

-- The result in the state, if the run is defined.
abbrev pub HasResult : ℤ → Outcome State → Type 0
HasResult r fault = Unit {0}
HasResult r (done s) = s.ubi_bdev.snapshot_status.result ≡ r

module _ (bs : Blobstore) (ro : is_zero bs.set_read_only ≡ true) where
  at : Pending → Option SnapshotContext → SnapshotBdev → List Effect → State
  at p c b es = record { ubi_bdev = b; ctx = c; pending = p; effects = es }

  complete-HasResult :
      (p : Pending) (c : Option SnapshotContext) (b : SnapshotBdev) (es : List Effect) (id : ℕ)
      (rc : ℤ)
      → is_zero rc ≡ true
      → HasResult b.snapshot_status.result (deliver bs (at p c b es) (completed id rc))
  unfolding deliver at
  complete-HasResult idle c b es id rc z = refl
  complete-HasResult (create_snapshot i) none b es id rc z = tt
  complete-HasResult (create_snapshot i) (some c) b es id rc z =
      unfold snapshot_create_cb in ground arith
  complete-HasResult (create_clone i) none b es id rc z = tt
  complete-HasResult (create_clone i) (some c) b es id rc z = unfold clone_create_cb in ground arith
  complete-HasResult (open_clone i) none b es id rc z = tt
  complete-HasResult (open_clone i) (some c) b es id rc z = unfold open_clone_cb in ground arith
  complete-HasResult close_clone none b es id rc z = tt
  complete-HasResult close_clone (some c) b es id rc z = unfold close_clone_cb in ground arith
  complete-HasResult (decouple_parent i) none b es id rc z = tt
  complete-HasResult (decouple_parent i) (some c) b es id rc z =
      unfold decouple_parent_cb in ground arith
  complete-HasResult (shallow_copy i) none b es id rc z = tt
  complete-HasResult (shallow_copy i) (some c) b es id rc z =
      unfold shallow_copy_complete_cb in ground arith

  copied-HasResult :
      (p : Pending) (c : Option SnapshotContext) (b : SnapshotBdev) (es : List Effect) (n : ℕ)
      → HasResult b.snapshot_status.result (deliver bs (at p c b es) (copied n))
  unfolding deliver at
  copied-HasResult (shallow_copy i) c b es n = unfold shallow_copy_status_cb in refl
  copied-HasResult idle c b es n = refl
  copied-HasResult (create_snapshot i) c b es n = refl
  copied-HasResult (create_clone i) c b es n = refl
  copied-HasResult (open_clone i) c b es n = refl
  copied-HasResult close_clone c b es n = refl
  copied-HasResult (decouple_parent i) c b es n = refl

  bind-HasResult :
      (r : ℤ) (o : Outcome State) (f : State → Outcome State)
      → HasResult r o
      → ((s : State) → s.ubi_bdev.snapshot_status.result ≡ r → HasResult r (f s))
      → HasResult r (o >>= f)
  bind-HasResult r fault f h k = tt
  bind-HasResult r (done s) f h k = k s h

  run-HasResult :
      (r : ℤ) (es : List Event) (s : State)
      → AllSucceed es
      → s.ubi_bdev.snapshot_status.result ≡ r
      → HasResult r (run bs s es)
  unfolding run at
  run-HasResult r [] s a h = h
  run-HasResult r (completed id rc ∷ es) s a h =
      bind-HasResult r (deliver bs s (completed id rc)) (λ t. run bs t es)
        (rw (← h) (complete-HasResult s.pending s.ctx s.ubi_bdev s.effects id rc a.0))
        (λ t k. run-HasResult r es t a.1 k)
  run-HasResult r (copied n ∷ es) s a h =
      bind-HasResult r (deliver bs s (copied n)) (λ t. run bs t es)
        (rw (← h) (copied-HasResult s.pending s.ctx s.ubi_bdev s.effects n))
        (λ t k. run-HasResult r es t a k)

-- The run is defined, and the result is in its state.
abbrev pub Keeps : ℤ → Outcome State → Type 0
Keeps r fault = ⊥
Keeps r (done s) = s.ubi_bdev.snapshot_status.result ≡ r

both :
    (bs : Blobstore) (r : ℤ) (o : Outcome State)
    → (bs.has_channel && bs.delta_allocated) ≡ true
    → Ensures bs o
    → HasResult r o
    → Keeps r o
both bs r fault a e h = true≢false (sym a ∙ e)
both bs r (done s) a e h = h

-- If the bdev's block length is not 0, the path has less than 1024 characters, the channel and the
-- delta device can be allocated, the clone can be made read-only and every completion succeeds, then the snapshot is never undefined, and `result` is at
-- every moment what it was before: after a failed snapshot, the status of a later one that succeeds
-- still has the error.
pub run_snapshot-Keeps :
    (bs : Blobstore) (b : SnapshotBdev) (path : FilePath) (es : List Event)
    → b.blocklen ≢ 0
    → path_length path < 1024
    → (bs.has_channel && bs.delta_allocated) ≡ true
    → is_zero bs.set_read_only ≡ true
    → AllSucceed es
    → Keeps b.snapshot_status.result (run_snapshot bs b path es)
unfolding run_snapshot
run_snapshot-Keeps bs b path es z fits given ro a =
    let r = b.snapshot_status.result in
    both bs r (run_snapshot bs b path es) given (run_snapshot-Ensures bs b path es z fits)
      (run-HasResult bs ro r es (started b path) a (unfold started in refl))
