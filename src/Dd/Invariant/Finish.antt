-- ===== src/Dd/Invariant/Finish.antt =====
-- The end of a copy of src/app/spdk_dd.c: nothing is left to take, and nothing is in flight.
use bdev_ubi.Common.{
  ℕ, ◌<◌, ◌≡◌, refl, ap, ◌⊎◌, inl, inr, false, true, ◌==◌, ==_iff, Bool-cases, arith, pos, ℤ, List,
  [], ◌∷◌,
}
use bdev_ubi.Dd.{Opts, Job}
use bdev_ubi.Dd.Copy.{exit, show_progress, finish}
use bdev_ubi.Dd.Invariant.{Plan, Core, Covered}

pub finish_done :
    (s : Job)
    → s.error ≡ pos 0
    → (s.outstanding == 0) ≡ true
    → finish s ≡ exit (pos 0) (show_progress s)
unfolding finish exit show_progress
finish_done s calm z = rw (z, calm) refl

pub finish_busy : (s : Job) → (s.outstanding == 0) ≡ false → finish s ≡ s
unfolding finish
finish_busy s z = rw z refl

module _ (ceil_div : ℕ → ℕ → ℕ) (o : Opts) (p : Plan) where
  -- The core does not see what was told.
  told-Core :
      (s : Job) (rc : ℤ) → Core ceil_div o p s → Core ceil_div o p (exit rc (show_progress s))
  unfolding exit show_progress
  told-Core s rc c = record {
    sized = c.sized;
    blocks = c.blocks;
    from_file = c.from_file;
    calm = c.calm;
    running = c.running;
    low = c.low;
    high = c.high;
    aligned = c.aligned;
    counted = c.counted;
    units = c.units;
    covered = c.covered;
    untaken = c.untaken;
    ahead = c.ahead;
    behind = c.behind;
  }

  -- The caller was not told, and something is in flight; or all is done, and it was told 0, once.
  abbrev pub Phase : Job → Type 0
  Phase s =
      ((s.exits ≡ []) × (0 < s.outstanding))
      ⊎ ((s.exits ≡ pos 0 ∷ [])
          × (s.outstanding ≡ 0)
          × ((j : ℕ) → j < p.size → Covered ceil_div o p s j))

  pub record Inv (s : Job) : Type 0 where
    pub core : Core ceil_div o p s
    pub phase : Phase s

  told-Phase :
      (s : Job)
      → s.exits ≡ []
      → s.outstanding ≡ 0
      → ((j : ℕ) → j < p.size → Covered ceil_div o p s j)
      → Phase (exit (pos 0) (show_progress s))
  unfolding exit show_progress
  told-Phase s x z end = inr (ap (λ (q : List ℤ). pos 0 ∷ q) x, z, end)

  -- With nothing left to take, the job is at its end once nothing is in flight.
  pub finish-Inv :
      (s : Job)
      → Core ceil_div o p s
      → s.exits ≡ []
      → ((j : ℕ) → j < p.size → Covered ceil_div o p s j)
      → Inv (finish s)
  finish-Inv s c x end = elim (Bool-cases (s.outstanding == 0)) [
    | inl z ↦ rw (finish_done s c.calm z) (record {
      core = told-Core s (pos 0) c;
      phase = told-Phase s x ((==_iff s.outstanding 0).0 z) end;
    })
    | inr z ↦ rw (finish_busy s z) (record { core = c; phase = inl (x, ground arith) })
  ]

  -- The status poller keeps the invariant.
  pub tick-Inv : (s : Job) → Inv s → Inv (show_progress s)
  unfolding show_progress
  tick-Inv s inv = record {
    core =
        let c = inv.core in
        record {
          sized = c.sized;
          blocks = c.blocks;
          from_file = c.from_file;
          calm = c.calm;
          running = c.running;
          low = c.low;
          high = c.high;
          aligned = c.aligned;
          counted = c.counted;
          units = c.units;
          covered = c.covered;
          untaken = c.untaken;
          ahead = c.ahead;
          behind = c.behind;
        };
    phase = inv.phase;
  }
