-- ===== src/Bdev/Create/Steps.antt =====
-- The callbacks of a creation of src/lib/bdev_ubi.c, and the invariant of Bdev/Create/Once.antt.
use bdev_ubi.Common.{
  ℕ, ◌≡◌, ◌≢◌, refl, true, false, [], ◌∷◌, Option, none, some, ℤ, pos, is_zero, Bool-cases, inl,
  inr,
}
use bdev_ubi.Common.Outcome.{Outcome, done}
use bdev_ubi.Bdev.{UbiBdev}
use bdev_ubi.Bdev.Create.{
  Pending, idle, bs_init, bs_load, iter_first, create_blob, create_snapshot, open_blob, State,
  Answers, finish_create, bs_init_complete, blob_create_complete, blob_snapshot_complete,
  blob_open_complete,
}
use bdev_ubi.Bdev.Create.Flow.{Event, ready, opened, created, snapshotted, deliver}
use bdev_ubi.Bdev.Create.Once.{IsLive, Phase, Inv, Ensures, HasBlobs, finish-Inv, IsLive-move}

module _ (a : Answers) (get_id : Option ℕ → Outcome ℕ) (z : a.io_unit_size ≢ 0)
    (known : (id : ℕ) → get_id (some id) ≡ done id) where
  -- The state in which a callback runs.
  fired : State → UbiBdev → State
  fired s b = record s { ubi_bdev = some b; pending = idle }

  fail-Inv :
      (s : State) (b : UbiBdev) (rc : ℤ) → IsLive s → Ensures (finish_create a rc (fired s b))
  unfolding fired
  fail-Inv s b rc h =
      finish-Inv a b rc (fired s b) z refl refl (IsLive-move s b s.format_bdev idle h)

  bs_init-Inv :
      (s : State) (b : UbiBdev) (rc : ℤ) → IsLive s → Ensures (bs_init_complete a b rc (fired s b))
  unfolding bs_init_complete fired
  bs_init-Inv s b rc h = elim (Bool-cases (is_zero rc)) [
    | inl good ↦ rw good (elim (Bool-cases s.format_bdev) [
      | inl f ↦ rw f (IsLive-move s (record b { blobstore = true }) true create_blob h)
      | inr f ↦ rw f (IsLive-move s (record b { blobstore = true }) false iter_first h)
    ])
    | inr bad ↦ rw bad (fail-Inv s b rc h)
  ]

  blob_create-Inv :
      (s : State) (b : UbiBdev) (id : ℕ) (rc : ℤ)
      → IsLive s
      → Ensures (blob_create_complete a b id rc (fired s b))
  unfolding blob_create_complete fired
  blob_create-Inv s b id rc h = elim (Bool-cases (is_zero rc)) [
    | inl good ↦ rw good (IsLive-move s (record b { blobid = id }) s.format_bdev create_snapshot h)
    | inr bad ↦ rw bad (fail-Inv s b rc h)
  ]

  blob_snapshot-Inv :
      (s : State) (b : UbiBdev) (rc : ℤ)
      → IsLive s
      → Ensures (blob_snapshot_complete a rc (fired s b))
  unfolding blob_snapshot_complete fired
  blob_snapshot-Inv s b rc h = elim (Bool-cases (is_zero rc)) [
    | inl good ↦ rw good (IsLive-move s b s.format_bdev open_blob h)
    | inr bad ↦ rw bad (fail-Inv s b rc h)
  ]

  blob_open-Inv :
      (s : State) (b : UbiBdev) (id : ℕ) (rc : ℤ)
      → IsLive s
      → Ensures (blob_open_complete a get_id b (some id) rc (fired s b))
  unfolding blob_open_complete fired
  blob_open-Inv s b id rc h = elim (Bool-cases (is_zero rc)) [
    | inl good ↦
        rw (known id, good) (fail-Inv s (record b { blob = some id; blobid = id }) (pos 0) h)
    | inr bad ↦ rw (known id, bad) (fail-Inv s b rc h)
  ]

  in_flight : Pending → Option UbiBdev → State → State
  in_flight p c s = record s { pending = p; ubi_bdev = c }

  by_pending :
      (p : Pending) (c : Option UbiBdev) (s : State) (e : Event)
      → HasBlobs (e ∷ [])
      → Phase p (in_flight p c s)
      → Ensures (deliver a get_id (in_flight p c s) e)
  unfolding deliver in_flight fired
  by_pending idle c s e hb h = h
  by_pending bs_init none s e hb h = absurd h.held
  by_pending bs_init (some b) s (ready rc) hb h = bs_init-Inv (in_flight bs_init (some b) s) b rc h
  by_pending bs_init (some b) s (opened none rc) hb h = absurd hb
  by_pending bs_init (some b) s (opened (some id) rc) hb h = h
  by_pending bs_init (some b) s (created id rc) hb h = h
  by_pending bs_init (some b) s (snapshotted rc) hb h = h
  by_pending bs_load none s e hb h = absurd h.held
  by_pending bs_load (some b) s (ready rc) hb h = bs_init-Inv (in_flight bs_load (some b) s) b rc h
  by_pending bs_load (some b) s (opened none rc) hb h = absurd hb
  by_pending bs_load (some b) s (opened (some id) rc) hb h = h
  by_pending bs_load (some b) s (created id rc) hb h = h
  by_pending bs_load (some b) s (snapshotted rc) hb h = h
  by_pending iter_first none s e hb h = absurd h.held
  by_pending iter_first (some b) s (ready rc) hb h = h
  by_pending iter_first (some b) s (opened none rc) hb h = absurd hb
  by_pending iter_first (some b) s (opened (some id) rc) hb h =
      blob_open-Inv (in_flight iter_first (some b) s) b id rc h
  by_pending iter_first (some b) s (created id rc) hb h = h
  by_pending iter_first (some b) s (snapshotted rc) hb h = h
  by_pending create_blob none s e hb h = absurd h.held
  by_pending create_blob (some b) s (ready rc) hb h = h
  by_pending create_blob (some b) s (opened none rc) hb h = absurd hb
  by_pending create_blob (some b) s (opened (some id) rc) hb h = h
  by_pending create_blob (some b) s (created id rc) hb h =
      blob_create-Inv (in_flight create_blob (some b) s) b id rc h
  by_pending create_blob (some b) s (snapshotted rc) hb h = h
  by_pending create_snapshot none s e hb h = absurd h.held
  by_pending create_snapshot (some b) s (ready rc) hb h = h
  by_pending create_snapshot (some b) s (opened none rc) hb h = absurd hb
  by_pending create_snapshot (some b) s (opened (some id) rc) hb h = h
  by_pending create_snapshot (some b) s (created id rc) hb h = h
  by_pending create_snapshot (some b) s (snapshotted rc) hb h =
      blob_snapshot-Inv (in_flight create_snapshot (some b) s) b rc h
  by_pending open_blob none s e hb h = absurd h.held
  by_pending open_blob (some b) s (ready rc) hb h = h
  by_pending open_blob (some b) s (opened none rc) hb h = absurd hb
  by_pending open_blob (some b) s (opened (some id) rc) hb h =
      blob_open-Inv (in_flight open_blob (some b) s) b id rc h
  by_pending open_blob (some b) s (created id rc) hb h = h
  by_pending open_blob (some b) s (snapshotted rc) hb h = h

  pub deliver-Inv :
      (s : State) (e : Event) → HasBlobs (e ∷ []) → Inv s → Ensures (deliver a get_id s e)
  unfolding in_flight
  deliver-Inv s e hb h = by_pending s.pending s.ubi_bdev s e hb h
