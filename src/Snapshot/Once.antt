-- ===== src/Snapshot/Once.antt =====
-- What holds of a snapshot of src/lib/bdev_ubi_snapshot.c at every moment, whatever the blobstore
-- answers: how often the caller is told, and how often the context is freed.
use bdev_ubi.Common.{
  ℕ, suc, ◌<◌, ◌≡◌, ◌≢◌, refl, ◌⊎◌, inl, inr, Bool, true, false, List, [], ◌∷◌, Option, none, some,
  ℤ, is_zero, arith, ◌==◌, lt→ltb, ◌%◌, ◌/◌, ◌^◌, Bool-cases, ◌&&◌, if◌then◌else◌,
}
use bdev_ubi.Common.Outcome.{Outcome, done, fault, ◌>>=◌}
use bdev_ubi.Posix.{FilePath, path_length}
use bdev_ubi.Delta
use bdev_ubi.Delta.{BsDevDelta, delta_write}
use bdev_ubi.Snapshot.{
  SnapshotBdev, SnapshotContext, Pending, idle, create_snapshot, create_clone, open_clone,
  close_clone, decouple_parent, shallow_copy, Effect, replied, destroyed_bs_dev, freed_channel,
  freed_path, freed_context, State, Blobstore, started, shallow_copy_complete_cb,
  shallow_copy_status_cb, decouple_parent_cb, close_clone_cb, open_clone_cb, clone_create_cb,
  snapshot_create_cb,
}
use bdev_ubi.Snapshot.Run.{Event, completed, copied, deliver, run, run_snapshot}

-- How often the caller was told.
abbrev pub replies : List Effect → ℕ
replies [] = 0
replies (replied rc ∷ es) = suc (replies es)
replies (destroyed_bs_dev ∷ es) = replies es
replies (freed_channel ∷ es) = replies es
replies (freed_path ∷ es) = replies es
replies (freed_context ∷ es) = replies es

-- How often the context was freed.
abbrev pub frees : List Effect → ℕ
frees [] = 0
frees (freed_context ∷ es) = suc (frees es)
frees (replied rc ∷ es) = frees es
frees (destroyed_bs_dev ∷ es) = frees es
frees (freed_channel ∷ es) = frees es
frees (freed_path ∷ es) = frees es

-- The context that a call in flight works on: it is there, and its path fits a delta device.
abbrev pub Holds : Option SnapshotContext → Type 0
Holds none = ⊥
Holds (some c) = path_length c.path < 1024

-- The channel of the context is the one that the allocator gave.
abbrev pub HasChannel : Bool → Option SnapshotContext → Type 0
HasChannel given none = ⊥
HasChannel given (some c) = c.ch ≡ given

ne→false : (n : ℕ) → n ≢ 0 → (n == 0) ≡ false
ne→false n h = ground arith

module _ (bs : Blobstore) where
  -- Before the copy nothing was said and nothing freed; during it the caller has its answer; and
  -- at rest either all is freed, or the copy did not start and the context is left.
  abbrev pub Phase : Pending → State → Type 0
  Phase idle s =
      (replies s.effects ≡ 1)
      × (((s.ctx ≡ none) × (frees s.effects ≡ 1))
          ⊎ ((frees s.effects ≡ 0)
              × (is_zero bs.start_shallow_copy ≡ false)
              × (s.ubi_bdev.snapshot_status.in_progress ≡ true)))
  Phase (shallow_copy b) s =
      (replies s.effects ≡ 1)
      × (frees s.effects ≡ 0)
      × Holds s.ctx
      × (s.ubi_bdev.snapshot_status.in_progress ≡ true)
  Phase (create_snapshot b) s = (replies s.effects ≡ 0) × (frees s.effects ≡ 0) × Holds s.ctx
  Phase _ s =
      (replies s.effects ≡ 0)
      × (frees s.effects ≡ 0)
      × Holds s.ctx
      × HasChannel bs.has_channel s.ctx

  pub record Inv (s : State) : Type 0 where
    pub phase : Phase s.pending s
    pub blocks : s.ubi_bdev.blocklen ≢ 0

  abbrev pub Ensures : Outcome State → Type 0
  Ensures fault = (bs.has_channel && bs.delta_allocated) ≡ false
  Ensures (done s) = Inv s

  -- A state, taken apart, with the call in flight and the context as patterns.
  at : Pending → Option SnapshotContext → SnapshotBdev → List Effect → State
  at p c b es = record { ubi_bdev = b; ctx = c; pending = p; effects = es }

  -- The delta device, for a path that fits and blocks that are not empty.
  delta_of : SnapshotContext → SnapshotBdev → BsDevDelta
  delta_of c b = record {
    blockcnt = b.blockcnt;
    blocklen = b.blocklen;
    filename = c.path;
    direction = delta_write;
    directio = false;
    cluster_size = (bs.cluster_size % 2 ^ 32) / b.blocklen;
  }

  delta_made :
      (allocated : Bool) (c : SnapshotContext) (b : SnapshotBdev)
      → path_length c.path < 1024
      → b.blocklen ≢ 0
      → Delta.create allocated c.path b.blockcnt b.blocklen (bs.cluster_size % 2 ^ 32) delta_write
        ≡ done (if allocated then some (delta_of c b) else none)
  unfolding delta_of Delta.create
  delta_made false c b h z = refl
  delta_made true c b h z = rw (ne→false b.blocklen z, lt→ltb (path_length c.path) 1024 h) refl

  decouple-Inv :
      (i : ℕ) (c : SnapshotContext) (b : SnapshotBdev) (es : List Effect) (rc : ℤ)
      → Inv (at (decouple_parent i) (some c) b es)
      → Ensures (decouple_parent_cb bs c rc (at idle (some c) b es))
  unfolding at decouple_parent_cb
  decouple-Inv i c b es rc h = elim (Bool-cases (is_zero rc)) [
    | inl z ↦ rw (z, delta_made bs.delta_allocated c b h.phase.2 h.blocks) (ground arith)
    | inr e ↦ rw e (ground arith)
  ]

  deliver-Inv :
      (p : Pending) (c : Option SnapshotContext) (b : SnapshotBdev) (es : List Effect) (e : Event)
      → Inv (at p c b es)
      → Ensures (deliver bs (at p c b es) e)
  unfolding deliver at
  deliver-Inv idle c b es (completed id rc) h = h
  deliver-Inv idle c b es (copied n) h = h
  deliver-Inv (create_snapshot i) c b es (copied n) h = h
  deliver-Inv (create_clone i) c b es (copied n) h = h
  deliver-Inv (open_clone i) c b es (copied n) h = h
  deliver-Inv close_clone c b es (copied n) h = h
  deliver-Inv (decouple_parent i) c b es (copied n) h = h
  deliver-Inv (shallow_copy i) c b es (copied n) h = unfold shallow_copy_status_cb in ground arith
  deliver-Inv (create_snapshot i) none b es (completed id rc) h = absurd h.phase.2
  deliver-Inv (create_snapshot i) (some c) b es (completed id rc) h =
      unfold snapshot_create_cb in ground arith
  deliver-Inv (create_clone i) none b es (completed id rc) h = absurd h.phase.2
  deliver-Inv (create_clone i) (some c) b es (completed id rc) h =
      unfold clone_create_cb in ground arith
  deliver-Inv (open_clone i) none b es (completed id rc) h = absurd h.phase.2
  deliver-Inv (open_clone i) (some c) b es (completed id rc) h =
      unfold open_clone_cb in ground arith
  deliver-Inv close_clone none b es (completed id rc) h = absurd h.phase.2
  deliver-Inv close_clone (some c) b es (completed id rc) h = unfold close_clone_cb in ground arith
  deliver-Inv (decouple_parent i) none b es (completed id rc) h = absurd h.phase.2
  deliver-Inv (decouple_parent i) (some c) b es (completed id rc) h = decouple-Inv i c b es rc h
  deliver-Inv (shallow_copy i) none b es (completed id rc) h = absurd h.phase.2
  deliver-Inv (shallow_copy i) (some c) b es (completed id rc) h =
      unfold shallow_copy_complete_cb in ground arith

  pub bind-Ensures :
      (o : Outcome State) (f : State → Outcome State)
      → Ensures o
      → ((s : State) → Inv s → Ensures (f s))
      → Ensures (o >>= f)
  bind-Ensures fault f h k = h
  bind-Ensures (done s) f h k = k s h

  -- Whatever event comes, the state after it is good again, and no callback is handed a context
  -- that was freed; unless something that could not be allocated is used.
  pub step-Inv : (s : State) (e : Event) → Inv s → Ensures (deliver bs s e)
  unfolding at
  step-Inv s e h = deliver-Inv s.pending s.ctx s.ubi_bdev s.effects e h

  run-Inv : (es : List Event) (s : State) → Inv s → Ensures (run bs s es)
  unfolding run
  run-Inv [] s h = h
  run-Inv (e ∷ es) s h =
      bind-Ensures (deliver bs s e) (λ s'. run bs s' es) (step-Inv s e h)
        (λ s' h'. run-Inv es s' h')

  pub started-Inv :
      (b : SnapshotBdev) (path : FilePath)
      → b.blocklen ≢ 0
      → path_length path < 1024
      → Inv (started b path)
  unfolding started
  started-Inv b path z h = record { phase = (refl, refl, h); blocks = z }

  -- If the bdev's block length is not 0 and the path has less than 1024 characters, then under any
  -- events and answers of the blobstore no callback is undefined or is handed a freed context, unless
  -- the channel or the delta device could not be allocated; and: before the copy starts the caller was
  -- not told and the context not freed; during the copy the caller was told once, and `in_progress` is
  -- set; and with no call in flight the caller was told once, and either the context was freed, once,
  -- or the copy could not be started, the context was not freed, and `in_progress` is still set.
  pub run_snapshot-Ensures :
      (b : SnapshotBdev) (path : FilePath) (es : List Event)
      → b.blocklen ≢ 0
      → path_length path < 1024
      → Ensures (run_snapshot bs b path es)
  unfolding run_snapshot
  run_snapshot-Ensures b path es z h = run-Inv es (started b path) (started-Inv b path z h)
