-- ===== src/Dd/Progress.antt =====
-- src/app/spdk_dd.c: the line that dd_show_progress prints.
use Prim.Native.Nat.{max}
use native.Mathlib.Nat.{div-div-eq-div-mul, div-one, pow-suc}
use bdev_ubi.Common.{
  ℕ, zero, suc, ◌+◌, ◌*◌, ◌/◌, ◌^◌, ◌≤◌, ◌<◌, ◌≡◌, refl, ap, ◌∙◌, sym, ◌⊎◌, inl, inr, Bool, true,
  ltb, if◌then◌else◌, arith, Bool-cases, subst,
}
use bdev_ubi.Dd.{Job, add64, mul64}

-- The loop that looks for a unit, of which at most `left` steps are left: the size in the unit, the unit
-- and its index in `unit_str`.
unfoldable pub unit_loop : ℕ → ℕ → ℕ → ℕ → ℕ × ℕ
unit_loop zero tmp unit i = (unit, i)
unit_loop (suc left) tmp unit i =
    let rest = unit_loop left (tmp / 1024) (unit * 1024) (i + 1) in
    if ltb 10240 tmp then rest else (unit, i)

-- The index stops at 4, for T.
unfoldable pub unit_of : ℕ → ℕ × ℕ
unfolding unit_loop
unit_of size = unit_loop 4 size 1 0

-- What is printed: the two sizes with the index of their unit, and the speed, with that of its own.
pub record Line : Type 0 where
  pub copied : ℕ
  pub total : ℕ
  pub size_unit : ℕ
  pub average : Bool
  pub speed : ℕ
  pub speed_unit : ℕ

-- dd_show_progress: the line. `elapsed` is how many milliseconds ago the copy started.
unfoldable pub progress_line : Bool → ℕ → Job → Line
unfolding unit_of
progress_line finish elapsed s =
    let total = add64 s.total_bytes s.incremental_bytes in
    let size = if finish then total else s.incremental_bytes in
    let milliseconds = if finish then max 1 elapsed else 1000 in
    let speed = mul64 size 1000 / milliseconds in
    let u = unit_of size in
    let v = unit_of speed in
    record {
      copied = total / u.0;
      total = s.copy_size / u.0;
      size_unit = u.1;
      average = finish;
      speed = speed / v.0;
      speed_unit = v.1;
    }

-- A unit and its index fit a size: the unit is that power of 1024, the size has at most five digits in it
-- unless it is the last unit, and it would not in the unit before.
abbrev pub Fits : ℕ → ℕ × ℕ → Type 0
Fits size u =
    (u.0 ≡ 1024 ^ u.1)
    × (u.1 ≤ 4)
    × ((size / u.0 ≤ 10240) ⊎ (u.1 ≡ 4))
    × ((j : ℕ) → j < u.1 → 10240 < size / 1024 ^ j)

before_or : (j i : ℕ) → j ≤ i → (j < i) ⊎ (j ≡ i)
before_or j i h = omega (arith, h)

module _ (size : ℕ) where
  next_unit : (unit i : ℕ) → unit ≡ 1024 ^ i → unit * 1024 ≡ 1024 ^ (i + 1)
  next_unit unit i u =
      ap (λ (x : ℕ). x * 1024) u ∙ sym (pow-suc 1024 i) ∙ ap (λ (x : ℕ). 1024 ^ x) (omega arith)

  next_bound :
      (unit i : ℕ)
      → unit ≡ 1024 ^ i
      → ((j : ℕ) → j < i → 10240 < size / 1024 ^ j)
      → ltb 10240 (size / unit) ≡ true
      → (j : ℕ) → j < i + 1
      → 10240 < size / 1024 ^ j
  next_bound unit i u b l j h = elim (before_or j i (omega (arith, h))) [
    | inl q ↦ b j q
    | inr q ↦
        let at : 10240 < size / unit = ground (arith, l) in
        subst (λ (x : ℕ). 10240 < size / x) (u ∙ ap (λ (x : ℕ). 1024 ^ x) (sym q)) at
  ]

  -- The loop is at a unit that the size does not fit before.
  loop-Fits :
      (left unit i : ℕ)
      → left + i ≡ 4
      → unit ≡ 1024 ^ i
      → ((j : ℕ) → j < i → 10240 < size / 1024 ^ j)
      → Fits size (unit_loop left (size / unit) unit i)
  unfolding unit_loop
  loop-Fits zero unit i e u b = (u, omega (arith, e), inr (omega (arith, e)), b)
  loop-Fits (suc left) unit i e u b = elim (Bool-cases (ltb 10240 (size / unit))) [
    | inl l ↦ rw l (
        subst (λ (t : ℕ). Fits size (unit_loop left t (unit * 1024) (i + 1)))
          (sym (div-div-eq-div-mul size unit 1024))
          (loop-Fits left (unit * 1024) (i + 1) (omega (arith, e)) (next_unit unit i u)
            (next_bound unit i u b l)))
    | inr l ↦ rw l (u, omega (arith, e), inl (ground (arith, l)), b)
  ]

  pub unit_of-Fits : Fits size (unit_of size)
  unfolding unit_of
  unit_of-Fits =
      subst (λ (t : ℕ). Fits size (unit_loop 4 t 1 0)) (div-one size)
        (loop-Fits 4 1 0 refl refl (λ j h. absurd (omega (arith, h))))
