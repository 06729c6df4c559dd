-- ===== src/Dd/Invariant/Moves.antt =====
-- The two ways in which a copy of src/app/spdk_dd.c moves: a unit gets a submission, perhaps with new
-- bytes, or the bytes of a unit arrive at the output.
use bdev_ubi.Common.{
  ℕ, ◌+◌, ◌%◌, ◌-◌, ◌≤◌, ◌<◌, ◌≡◌, refl, ◌⊎◌, inl, inr, Option, none, some, ◌==◌, ==_iff,
  Bool-cases, arith,
}
use bdev_ubi.Posix.{overwrite}
use bdev_ubi.Dd.{Opts, Submission, Io, Job, update, read_region_start}
use bdev_ubi.Dd.Invariant.{Plan, Region, IsUnit, Owns, Covered, Core, whole_of, target_of}
use bdev_ubi.Dd.Invariant.Total.{busy, sum-update}

module _ (ceil_div : ℕ → ℕ → ℕ) (o : Opts) (p : Plan) where
  -- More bytes may be taken.
  Region-mono :
      (at at' : ℕ) (io : Io) → at ≤ at' → Region ceil_div o p at io → Region ceil_div o p at' io
  Region-mono at at' io h r = (r.0, omega (arith, r.1), r.2, r.3, r.4)

  pub IsUnit-mono :
      (at at' : ℕ) (io : Io) (f : Option Submission)
      → at ≤ at'
      → IsUnit ceil_div o p at io f
      → IsUnit ceil_div o p at' io f
  IsUnit-mono at at' io none h u = tt
  IsUnit-mono at at' io (some sub) h u = (Region-mono at at' io h u.0, u.1)

  -- The job after unit `i` was given a submission.
  abbrev pub moved : Job → ℕ → Io → ℕ → ℕ → ℕ → Job
  moved s i io outstanding at bytes = record s {
    ios = update s.ios i io;
    outstanding = outstanding;
    input = record s.input { pos = at };
    incremental_bytes = bytes;
  }

  moved-Covered :
      (s : Job) (i : ℕ) (io : Io) (out at bytes j : ℕ)
      → i < p.n
      → (Owns ceil_div o p (s.ios i) j → Owns ceil_div o p io j)
      → Covered ceil_div o p s j
      → Covered ceil_div o p (moved s i io out at bytes) j
  moved-Covered s i io out at bytes j hi keep (inl e) = inl e
  moved-Covered s i io out at bytes j hi keep (inr (k, hk, own)) = elim (Bool-cases (k == i)) [
    | inl e ↦ let q = (==_iff k i).0 e in inr (i, hi, rw ((==_iff i i).1 refl) (keep (rw q at own)))
    | inr e ↦ inr (k, hk, rw e own)
  ]

  own_new :
      (s : Job) (i : ℕ) (io : Io) (out at bytes j : ℕ)
      → i < p.n
      → Owns ceil_div o p io j
      → Covered ceil_div o p (moved s i io out at bytes) j
  own_new s i io out at bytes j hi own = inr (i, hi, rw ((==_iff i i).1 refl) own)

  pub moved-Core :
      (s : Job) (i : ℕ) (io : Io) (out at bytes : ℕ)
      → Core ceil_div o p s
      → i < p.n
      → busy io ≡ 1
      → s.input.pos ≤ at
      → at ≤ read_region_start o + p.size
      → ((at - read_region_start o) % p.block ≡ 0) ⊎ (at ≡ read_region_start o + p.size)
      → out + busy (s.ios i) ≡ s.outstanding + 1
      → IsUnit ceil_div o p at io io.flight
      → ((j : ℕ) → Owns ceil_div o p (s.ios i) j → Owns ceil_div o p io j)
      → ((j : ℕ)
          → read_region_start o + j < at
          → (read_region_start o + j < s.input.pos) ⊎ Owns ceil_div o p io j)
      → Core ceil_div o p (moved s i io out at bytes)
  moved-Core s i io out at bytes c hi b le lim al cnt u keep cover = record {
    sized = c.sized;
    blocks = c.blocks;
    from_file = c.from_file;
    calm = c.calm;
    running = c.running;
    low = omega (arith, c.low);
    high = lim;
    aligned = al;
    counted = omega (arith, c.counted, sum-update busy p.n s.ios i io hi);
    units = λ k hk. elim (Bool-cases (k == i)) [
      | inl e ↦ rw e u
      | inr e ↦ rw e (IsUnit-mono s.input.pos at (s.ios k) (s.ios k).flight le (c.units k hk))
    ];
    covered = λ j hj. elim (cover j hj) [
      | inl old ↦ moved-Covered s i io out at bytes j hi (keep j) (c.covered j old)
      | inr own ↦ own_new s i io out at bytes j hi own
    ];
    untaken = λ j h l. c.untaken j (omega (arith, h)) l;
    ahead = c.ahead;
    behind = c.behind;
  }

  -- The job after the write of unit `i` was done.
  abbrev pub written : Job → ℕ → Job
  written s i = record s {
    disk =
        overwrite s.disk (target_of ceil_div o p (s.ios i)) (s.ios i).buf
          (whole_of ceil_div o p (s.ios i));
    ios = update s.ios i (record (s.ios i) { flight = none });
    outstanding = s.outstanding - 1;
  }
