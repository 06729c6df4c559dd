-- ===== src/Dd/Invariant/Taken.antt =====
-- A free unit of src/app/spdk_dd.c that takes bytes keeps the invariant.
use Prim.Native.Nat.{min}
use native.Mathlib.Nat.{dvd-add, dvd_of_mod-eq-zero, mod-eq-zero_of_dvd}
use bdev_ubi.Common.{
  ℕ, ◌+◌, ◌-◌, ◌%◌, ◌≤◌, ◌<◌, ◌≡◌, ◌≢◌, refl, ap, ◌∙◌, ◌⊎◌, inl, inr, false, none, ◌==◌, ==_iff,
  Bool-cases, arith, pos, [],
}
use bdev_ubi.Dd.{Opts, Io, Job, read_region_start, Answers}
use bdev_ubi.Dd.Copy.{finish, target_populate_buffer}
use bdev_ubi.Dd.Invariant.{Plan, IsPlan, Region, IsUnit, Core}
use bdev_ubi.Dd.Invariant.Total.{busy, busy_flight, sum-update}
use bdev_ubi.Dd.Invariant.Moves.{moved, moved-Core}
use bdev_ubi.Dd.Invariant.Writes.{whole_exact}
use bdev_ubi.Dd.Invariant.Finish.{Inv, finish-Inv, finish_busy}
use bdev_ubi.Dd.Invariant.Take.{taken, rested, populating, take_cases, shorter, ne→false}
use bdev_ubi.Dd.Invariant.Steps.{reading}

add_blocks : (x y b : ℕ) → x % b ≡ 0 → y % b ≡ 0 → (x + y) % b ≡ 0
add_blocks x y b e f =
    mod-eq-zero_of_dvd b (dvd-add b (dvd_of_mod-eq-zero b e) (dvd_of_mod-eq-zero b f))

module _ (ceil_div : ℕ → ℕ → ℕ) (o : Opts) (p : Plan) where
  module _ (plan : IsPlan ceil_div o p) (a : Answers) (ok : a.submit_rc ≡ pos 0) where
    module _ (s : Job) (i : ℕ) (c : Core ceil_div o p s) (hi : i < p.n)
        (free : (s.ios i).flight ≡ none) where
      rested-Core : Core ceil_div o p (rested s i)
      unfolding rested taken
      rested-Core = record {
        sized = c.sized;
        blocks = c.blocks;
        from_file = c.from_file;
        calm = c.calm;
        running = c.running;
        low = c.low;
        high = c.high;
        aligned = c.aligned;
        counted =
            omega
              (arith, c.counted, sum-update busy p.n s.ios i (taken s i 0) hi, ap busy_flight free);
        units = λ k hk. elim (Bool-cases (k == i)) [
          | inl e ↦ rw (e, free) tt
          | inr e ↦ rw e (c.units k hk)
        ];
        covered = λ j hj. elim (c.covered j hj) [
          | inl e ↦ inl e
          | inr (k, hk, own) ↦ elim (Bool-cases (k == i)) [
            | inl e ↦
                let b = ap busy_flight free in
                let own' = rw ((==_iff k i).0 e) at own in absurd (omega (arith, own'.0, b))
            | inr e ↦ inr (k, hk, rw e own)
          ]
        ];
        untaken = c.untaken;
        ahead = c.ahead;
        behind = c.behind;
      }

      module _ (length : ℕ)
          (e : length ≡ min (s.ios i).length (p.size - (s.input.pos - read_region_start o)))
          (z : length ≢ 0)
          (whole : ((s.ios i).length % p.block ≡ 0)
            ⊎ (read_region_start o + p.size ≤ s.input.pos + (s.ios i).length)) where
        taken_end : (length % p.block ≡ 0) ⊎ (s.input.pos + length ≡ read_region_start o + p.size)
        taken_end =
            elim (shorter (s.ios i).length (p.size - (s.input.pos - read_region_start o)) length
              e) [
                | inl q ↦ elim whole [
                  | inl m ↦ inl (rw q m)
                  | inr f ↦ inr (omega (arith, q, e, f, c.low, c.high))
                ]
                | inr q ↦ inr (omega (arith, c.low, c.high))
              ]

        at_block : (s.input.pos - read_region_start o) % p.block ≡ 0
        at_block = elim c.aligned [ inl m ↦ m | inr f ↦ absurd (z (omega (arith, e, f))) ]

        taken_aligned :
            ((s.input.pos + length - read_region_start o) % p.block ≡ 0)
            ⊎ (s.input.pos + length ≡ read_region_start o + p.size)
        taken_aligned = elim taken_end [
          | inl m ↦ inl (
              ap (λ (x : ℕ). x % p.block) (omega (arith, c.low))
              ∙ add_blocks (s.input.pos - read_region_start o) length p.block at_block m)
          | inr f ↦ inr f
        ]

        taken-Region : Region ceil_div o p (s.input.pos + length) (taken s i length)
        unfolding taken
        taken-Region = (c.low, omega arith, omega arith, taken_end, at_block)

        taken_covers :
            (j : ℕ)
            → read_region_start o + j < s.input.pos + length
            → (read_region_start o + j < s.input.pos)
              ⊎ ((s.input.pos ≤ read_region_start o + j)
                  × (read_region_start o + j < s.input.pos + length))
        taken_covers j h = ground arith

        -- Any submission for the new bytes keeps the invariant.
        taken-Core :
            (io : Io)
            → busy io ≡ 1
            → io.offset ≡ s.input.pos
            → io.length ≡ length
            → IsUnit ceil_div o p (s.input.pos + length) io io.flight
            → Core ceil_div o p (
                moved ceil_div o p s i io
                  (s.outstanding + 1)
                  (s.input.pos + length)
                  s.incremental_bytes)
        taken-Core io b f l u =
            moved-Core ceil_div o p s i io (s.outstanding + 1) (s.input.pos + length)
              s.incremental_bytes c hi b (omega arith) (omega (arith, c.low, c.high)) taken_aligned
              (omega (arith, ap busy_flight free)) u
              (λ j own. absurd (omega (arith, own.0, ap busy_flight free)))
              (λ j h. elim (taken_covers j h) [
                | inl q ↦ inl q
                | inr q ↦ inr (b, omega (arith, f, q.0), omega (arith, f, l, q.1))
              ])

        read-Core :
            length % p.block ≡ 0
            → Core ceil_div o p (
                moved ceil_div o p s i
                  (reading ceil_div o p plan a ok (taken s i length) (s.ios i).buf)
                  (s.outstanding + 1)
                  (s.input.pos + length)
                  s.incremental_bytes)
        unfolding taken
        read-Core m =
            taken-Core (reading ceil_div o p plan a ok (taken s i length) (s.ios i).buf) refl refl
              refl
              (
                taken-Region,
                (
                  refl,
                  λ x q w. absurd (
                      omega (
                        arith,
                        whole_exact (ceil_div length p.block) length p.block m
                            (plan.rounding length p.block plan.some_block).1,
                      )),
                ),
              )

        populate-Core : Core ceil_div o p (
            moved ceil_div o p s i
              (populating ceil_div o p (taken s i length))
              (s.outstanding + 1)
              (s.input.pos + length)
              s.incremental_bytes)
        unfolding taken populating
        populate-Core =
            taken-Core (populating ceil_div o p (taken s i length)) refl refl refl
              (taken-Region, refl)

      rested_same : ((rested s i).exits ≡ s.exits) × ((rested s i).input.pos ≡ s.input.pos)
      unfolding rested
      rested_same = (refl, refl)

      rested-Inv :
          s.exits ≡ []
          → s.input.pos ≡ read_region_start o + p.size
          → Inv ceil_div o p (finish (rested s i))
      rested-Inv x end =
          finish-Inv ceil_div o p (rested s i) rested-Core (rested_same.0 ∙ x)
            (λ j h. rested-Core.covered j (omega (arith, rested_same.1, end, h)))

      rested_others :
          s.exits ≡ []
          → 0 < s.outstanding
          → ((finish (rested s i)).exits ≡ [])
            × ((k : ℕ) → (k == i) ≡ false → (finish (rested s i)).ios k ≡ s.ios k)
      unfolding rested
      rested_others x b =
          rw (finish_busy (rested s i) (ne→false s.outstanding (omega (arith, b))))
            (x, λ k q. rw q refl)

      -- A free unit that may take bytes: afterwards the invariant holds, whatever was left.
      pub take-Inv :
          s.exits ≡ []
          → 0 < (s.ios i).length
          → ((s.ios i).length % p.block ≡ 0)
            ⊎ (read_region_start o + p.size ≤ s.input.pos + (s.ios i).length)
          → Inv ceil_div o p (target_populate_buffer ceil_div o a i s)
      take-Inv x l whole =
          take_cases ceil_div o p plan a ok s i c hi free (Inv ceil_div o p)
            (λ length e z m. record {
              core = read-Core length e z whole m;
              phase = inl (x, omega arith);
            })
            (λ length e z m. record {
              core = populate-Core length e z whole;
              phase = inl (x, omega arith);
            })
            (λ e. rested-Inv x (omega (arith, c.low, c.high)))

      -- Another unit is as before, and nobody is told while something is in flight or left to copy.
      pub take_others :
          s.exits ≡ []
          → 0 < (s.ios i).length
          → (0 < s.outstanding) ⊎ (s.input.pos < read_region_start o + p.size)
          → (((target_populate_buffer ceil_div o a i s).exits ≡ [])
              × ((k : ℕ)
                  → (k == i) ≡ false
                  → (target_populate_buffer ceil_div o a i s).ios k ≡ s.ios k))
      take_others x l more =
          take_cases ceil_div o p plan a ok s i c hi free
            (λ t. (t.exits ≡ []) × ((k : ℕ) → (k == i) ≡ false → t.ios k ≡ s.ios k))
            (λ length e z m. (x, λ k q. rw q refl)) (λ length e z m. (x, λ k q. rw q refl))
            (λ e.
              rested_others x (elim more [ inl b ↦ b | inr lt ↦ absurd (omega (arith, c.low)) ]))
