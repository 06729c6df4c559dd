-- ===== src/Dd/Invariant/Writes.antt =====
-- A write of src/app/spdk_dd.c that is done puts the bytes of its unit where the copy wants them, and
-- leaves the rest of the output as it is.
use native.Mathlib.Nat.{lt_of_mul-lt-mul_right, mul-le-mul_right, div-add-mod'}
use bdev_ubi.Common.{
  ℕ, suc, ◌+◌, ◌-◌, ◌*◌, ◌/◌, ◌%◌, ◌≤◌, ◌<◌, ◌≡◌, ap, ◌∙◌, ◌⊎◌, inl, inr, none, ◌==◌, ==_iff,
  Bool-cases, arith,
}
use bdev_ubi.Posix.{Memory, overwrite}
use bdev_ubi.Dd.{Opts, Io, Job, read_region_start, write_region_start}
use bdev_ubi.Dd.Invariant.{
  Plan, IsPlan, Region, Covered, Core, Tail, Filled, whole_of, target_of, data_Arrived,
  kept_Arrived,
}
use bdev_ubi.Dd.Invariant.Total.{busy, sum-update}
use bdev_ubi.Dd.Invariant.Moves.{written}

put_inside :
    (old : Memory) (at : ℕ) (buf : Memory) (k a : ℕ)
    → at ≤ a
    → a < at + k
    → overwrite old at buf k a ≡ buf (a - at)
unfolding overwrite
put_inside old at buf k a h l = ground arith

pub put_at_start : (old buf : Memory) (k a : ℕ) → a < k → overwrite old 0 buf k a ≡ buf a
put_at_start old buf k a l =
    put_inside old 0 buf k a (omega arith) (omega arith) ∙ ap buf (omega arith)

pub put_outside :
    (old : Memory) (at : ℕ) (buf : Memory) (k a : ℕ)
    → (a < at) ⊎ (at + k ≤ a)
    → overwrite old at buf k a ≡ old a
unfolding overwrite
put_outside old at buf k a h = ground arith

place : (a at k : ℕ) → ((at ≤ a) × (a < at + k)) ⊎ ((a < at) ⊎ (at + k ≤ a))
place a at k = ground arith

-- Whole blocks round to themselves.
few : (c q b : ℕ) → c * b < q * b + b → c * b ≤ q * b
few c q b h =
    let l : c < suc q = lt_of_mul-lt-mul_right b (omega arith) in mul-le-mul_right b (omega arith)

pub whole_exact : (d x b : ℕ) → x % b ≡ 0 → d * b < x + b → d * b ≤ x
whole_exact d x b z h = let e = div-add-mod' x b in omega (arith, few d (x / b) b (omega arith))

module _ (ceil_div : ℕ → ℕ → ℕ) (o : Opts) (p : Plan) (plan : IsPlan ceil_div o p) where
  -- Only a last, partial block reaches behind the unit's bytes.
  pub whole_lem :
      (at : ℕ) (io : Io)
      → Region ceil_div o p at io
      → (io.length ≤ whole_of ceil_div o p io)
        × ((whole_of ceil_div o p io ≤ io.length)
            ⊎ (io.offset + io.length ≡ read_region_start o + p.size))
  whole_lem at io r =
      let round = plan.rounding io.length p.block plan.some_block in
      (
        round.0,
        elim r.3 [
          | inl z ↦ inl (whole_exact (ceil_div io.length p.block) io.length p.block z round.1)
          | inr e ↦ inr e
        ],
      )

  module _ (s : Job) (i : ℕ) (c : Core ceil_div o p s) (hi : i < p.n)
      (r : Region ceil_div o p s.input.pos (s.ios i)) (tail : Tail ceil_div o p (s.ios i))
      (filled : Filled ceil_div o p (s.ios i)) where
    -- A byte of the copy is the input's, or as before, and then the unit does not have it.
    written_byte :
        (j : ℕ)
        → j < p.size
        → ((written ceil_div o p s i).disk (write_region_start o + j)
            ≡ p.input (read_region_start o + j))
          ⊎ (((written ceil_div o p s i).disk (write_region_start o + j)
                ≡ s.disk (write_region_start o + j))
              × ((read_region_start o + j < (s.ios i).offset)
                  ⊎ ((s.ios i).offset + (s.ios i).length ≤ read_region_start o + j)))
    written_byte j hj =
        let io = s.ios i in
        let at = target_of ceil_div o p io in
        let k = whole_of ceil_div o p io in
        let w = whole_lem s.input.pos io r in
        elim (place (write_region_start o + j) at k) [
          | inl h ↦
              let x = write_region_start o + j - at in
              let short : x < io.length = elim w.1 [
                | inl e ↦ omega (arith, r.0)
                | inr e ↦ omega (arith, r.0)
              ] in
              inl (
                put_inside s.disk at io.buf k (write_region_start o + j) h.0 h.1
                ∙ (filled x short ∙ ap p.input (omega (arith, r.0))))
          | inr h ↦ inr (
            put_outside s.disk at io.buf k (write_region_start o + j) h,
            elim h [ inl l ↦ inl (omega (arith, r.0)) | inr l ↦ inr (omega (arith, r.0, w.0)) ],
          )
        ]

    -- No write reaches a byte that was not taken.
    written_untaken :
        (j : ℕ)
        → s.input.pos ≤ read_region_start o + j
        → j < p.size
        → (written ceil_div o p s i).disk (write_region_start o + j)
          ≡ p.before (write_region_start o + j)
    written_untaken j h l =
        let io = s.ios i in
        let w = whole_lem s.input.pos io r in
        put_outside s.disk (target_of ceil_div o p io) io.buf (whole_of ceil_div o p io)
          (write_region_start o + j)
          (inr (elim w.1 [ inl e ↦ omega (arith, r.0, r.1) | inr e ↦ absurd (omega (arith, r.1)) ]))
        ∙ c.untaken j h l

    written_ahead :
        (x : ℕ) → x < write_region_start o → (written ceil_div o p s i).disk x ≡ p.before x
    written_ahead x h =
        let io = s.ios i in
        put_outside s.disk (target_of ceil_div o p io) io.buf (whole_of ceil_div o p io) x
          (inl (omega arith))
        ∙ c.ahead x h

    written_behind :
        (x : ℕ) → write_region_start o + p.size ≤ x → (written ceil_div o p s i).disk x ≡ p.before x
    written_behind x h =
        let io = s.ios i in
        let at = target_of ceil_div o p io in
        let k = whole_of ceil_div o p io in
        elim (place x at k) [
          | inl q ↦
              put_inside s.disk at io.buf k x q.0 q.1
              ∙ (tail (x - at) (omega (arith, r.0, r.1, c.high)) (omega arith)
                  ∙ ap p.before (omega arith))
          | inr q ↦ put_outside s.disk at io.buf k x q ∙ c.behind x h
        ]

    written-Covered :
        (j : ℕ)
        → read_region_start o + j < s.input.pos
        → Covered ceil_div o p (written ceil_div o p s i) j
    written-Covered j hj = elim (written_byte j (omega (arith, c.high))) [
      | inl e ↦ inl (data_Arrived ceil_div o p o.sparse (written ceil_div o p s i).disk j e)
      | inr (e, off) ↦ elim (c.covered j hj) [
        | inl old ↦
            inl (kept_Arrived ceil_div o p o.sparse s.disk (written ceil_div o p s i).disk j e old)
        | inr (k, hk, own) ↦ elim (Bool-cases (k == i)) [
          | inl q ↦
              let own' = rw ((==_iff k i).0 q) at own in
              absurd (elim off [ inl l ↦ omega (arith, own'.1) | inr l ↦ omega (arith, own'.2) ])
          | inr q ↦ inr (k, hk, rw q own)
        ]
      ]
    ]

    pub written-Core : busy (s.ios i) ≡ 1 → Core ceil_div o p (written ceil_div o p s i)
    written-Core b = record {
      sized = c.sized;
      blocks = c.blocks;
      from_file = c.from_file;
      calm = c.calm;
      running = c.running;
      low = c.low;
      high = c.high;
      aligned = c.aligned;
      counted =
          omega
            (arith, c.counted, sum-update busy p.n s.ios i (record (s.ios i) { flight = none }) hi);
      units = λ k hk. elim (Bool-cases (k == i)) [ inl e ↦ rw e tt | inr e ↦ rw e (c.units k hk) ];
      covered = written-Covered;
      untaken = written_untaken;
      ahead = written_ahead;
      behind = written_behind;
    }
