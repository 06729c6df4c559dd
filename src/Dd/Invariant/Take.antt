-- ===== src/Dd/Invariant/Take.antt =====
-- A unit of src/app/spdk_dd.c that is free takes the next bytes, or the copy is at its end.
use Prim.Native.Nat.{min}
use bdev_ubi.Common.{
  ℕ, ◌+◌, ◌-◌, ◌%◌, ◌≤◌, ◌<◌, ◌≡◌, ◌≢◌, refl, sym, ◌∙◌, ◌⊎◌, inl, inr, false, none, some, ◌==◌,
  ==_iff, arith, pos, subst,
}
use bdev_ubi.Dd.{
  Opts, dd_populate, read_output, Io, Job, update, read_region_start, Answers, add64, sub64,
}
use bdev_ubi.Dd.Copy.{target_read, launch, fill, finish, target_populate_buffer}
use bdev_ubi.Dd.Invariant.{Plan, IsPlan, Core, whole_of, target_of}
use bdev_ubi.Dd.Invariant.Total.{zero_or}
use bdev_ubi.Dd.Invariant.Moves.{moved}
use bdev_ubi.Dd.Invariant.Steps.{same, update_twice, submit_lem, reading, offset_lem, blocks_lem}

pub ne→false : (n : ℕ) → n ≢ 0 → (n == 0) ≡ false
ne→false n h = ground arith

pub shorter : (m k x : ℕ) → x ≡ min m k → (x ≡ m) ⊎ (x ≡ k)
shorter m k x e = omega arith

-- The unit with the next bytes.
unfoldable pub taken : Job → ℕ → ℕ → Io
taken s i length = record (s.ios i) { offset = s.input.pos; length = length }

-- The unit with no bytes, at the end.
unfoldable pub rested : Job → ℕ → Job
unfolding taken
rested s i = record s { ios = update s.ios i (taken s i 0) }

module _ (ceil_div : ℕ → ℕ → ℕ) (o : Opts) (p : Plan) where
  unfoldable pub populating : Io → Io
  populating io = record io {
    type = dd_populate;
    flight = some (record {
      operation = read_output;
      offset = target_of ceil_div o p io;
      length = whole_of ceil_div o p io;
    });
  }

  module _ (plan : IsPlan ceil_div o p) (a : Answers) (ok : a.submit_rc ≡ pos 0) where
    module _ (s : Job) (i : ℕ) (c : Core ceil_div o p s) (hi : i < p.n)
        (free : (s.ios i).flight ≡ none) where
      left_lem :
          sub64 s.copy_size (sub64 s.input.pos (read_region_start o))
          ≡ p.size - (s.input.pos - read_region_start o)
      left_lem = omega (arith, c.sized, c.low, c.high, plan.input_fits)

      next_lem :
          (length : ℕ)
          → length ≤ p.size - (s.input.pos - read_region_start o)
          → add64 s.input.pos length ≡ s.input.pos + length
      next_lem length h = omega (arith, c.low, c.high, plan.input_fits)

      read_case :
          (length : ℕ)
          → length ≡ min (s.ios i).length (p.size - (s.input.pos - read_region_start o))
          → length ≢ 0
          → length % p.block ≡ 0
          → target_populate_buffer ceil_div o a i s
            ≡ moved ceil_div o p s i
                (reading ceil_div o p plan a ok (taken s i length) (s.ios i).buf)
                (s.outstanding + 1)
                (s.input.pos + length)
                s.incremental_bytes
      unfolding target_populate_buffer fill target_read launch taken
      read_case length e z m =
          rw
            (
              left_lem,
              ← e,
              c.calm,
              c.running,
              same i,
              c.blocks,
              ne→false length z,
              (==_iff (length % p.block) 0).1 m,
              submit_lem ceil_div o p plan a ok,
              update_twice,
              next_lem length (omega arith),
            )
            refl

      populate_case :
          (length : ℕ)
          → length ≡ min (s.ios i).length (p.size - (s.input.pos - read_region_start o))
          → length ≢ 0
          → length % p.block ≢ 0
          → target_populate_buffer ceil_div o a i s
            ≡ moved ceil_div o p s i
                (populating (taken s i length))
                (s.outstanding + 1)
                (s.input.pos + length)
                s.incremental_bytes
      unfolding target_populate_buffer fill launch taken populating
      populate_case length e z m =
          rw
            (
              left_lem,
              ← e,
              c.calm,
              c.running,
              same i,
              c.blocks,
              ne→false length z,
              ne→false (length % p.block) m,
              submit_lem ceil_div o p plan a ok,
              update_twice,
              next_lem length (omega arith),
              offset_lem ceil_div o p plan a ok s.input.pos s.input.pos c.high c.low (omega arith),
              blocks_lem ceil_div o p plan a ok length (omega arith),
            )
            refl

      rest_case :
          0 ≡ min (s.ios i).length (p.size - (s.input.pos - read_region_start o))
          → target_populate_buffer ceil_div o a i s ≡ finish (rested s i)
      unfolding target_populate_buffer rested taken
      rest_case e = rw (left_lem, ← e, c.calm, c.running) refl

      -- The unit reads its bytes, or populates its buffer first, or there are none left.
      pub take_cases :
          (P : Job → Type 0)
          → ((length : ℕ)
              → length ≡ min (s.ios i).length (p.size - (s.input.pos - read_region_start o))
              → length ≢ 0
              → length % p.block ≡ 0
              → P (
                  moved ceil_div o p s i
                    (reading ceil_div o p plan a ok (taken s i length) (s.ios i).buf)
                    (s.outstanding + 1)
                    (s.input.pos + length)
                    s.incremental_bytes))
          → ((length : ℕ)
              → length ≡ min (s.ios i).length (p.size - (s.input.pos - read_region_start o))
              → length ≢ 0
              → length % p.block ≢ 0
              → P (
                  moved ceil_div o p s i
                    (populating (taken s i length))
                    (s.outstanding + 1)
                    (s.input.pos + length)
                    s.incremental_bytes))
          → (0 ≡ min (s.ios i).length (p.size - (s.input.pos - read_region_start o))
              → P (finish (rested s i)))
          → P (target_populate_buffer ceil_div o a i s)
      take_cases P reads populates rests = by_length _ refl
        where
          by_length :
              (length : ℕ)
              → length ≡ min (s.ios i).length (p.size - (s.input.pos - read_region_start o))
              → P (target_populate_buffer ceil_div o a i s)
          by_length length e = elim (zero_or length) [
            | inl z ↦ subst P (sym (rest_case (sym z ∙ e))) (rests (sym z ∙ e))
            | inr z ↦ elim (zero_or (length % p.block)) [
              | inl m ↦ subst P (sym (read_case length e z m)) (reads length e z m)
              | inr m ↦ subst P (sym (populate_case length e z m)) (populates length e z m)
            ]
          ]
