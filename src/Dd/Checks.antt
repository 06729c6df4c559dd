-- ===== src/Dd/Checks.antt =====
-- The checks of main in src/app/spdk_dd.c.
use mathlib.Core.Bool.{true≢false}
use bdev_ubi.Common.{
  ℕ, suc, ◌≡◌, refl, sym, ◌∙◌, Bool, true, false, not, ◌&&◌, ◌||◌, if◌then◌else◌, ℤ, pos, negsuc,
  zero, is_neg, einval, subst,
}
use bdev_ubi.Dd.Setup.{Settings, check_settings, is_positive, is_set}

-- The options make sense: one input, one output, a unit of at least a byte, no negative count, and
-- flags for files only.
pub record IsValid (g : Settings) : Type 0 where
  pub one_input : g.input_file ≡ not g.input_bdev
  pub one_output : g.output_file ≡ not g.output_bdev
  pub some_unit : (n : ℕ) × (g.io_unit_size ≡ pos (suc n))
  pub some_count : (n : ℕ) × (g.io_unit_count ≡ pos n)
  pub output_flags : is_set g.output_file_flags ≡ true → g.output_file ≡ true
  pub input_flags : is_set g.input_file_flags ≡ true → g.input_file ≡ true

or_false : (b c : Bool) → (b || c) ≡ false → (b ≡ false) × (c ≡ false)
or_false true c e = absurd (true≢false e)
or_false false c e = (refl, e)

-- Not both, and not neither.
one_of : (b c : Bool) → (b && c) ≡ false → (not b && not c) ≡ false → b ≡ not c
one_of true true e f = absurd (true≢false e)
one_of true false e f = refl
one_of false true e f = refl
one_of false false e f = absurd (true≢false f)

needs : (b c : Bool) → (not b && c) ≡ false → c ≡ true → b ≡ true
needs true c e h = refl
needs false c e h = absurd (true≢false (sym h ∙ e))

positive_lem : (n : ℤ) → not (is_positive n) ≡ false → (m : ℕ) × (n ≡ pos (suc m))
positive_lem (pos zero) e = absurd (true≢false e)
positive_lem (pos (suc m)) e = (m, refl)
positive_lem (negsuc k) e = absurd (true≢false e)

pub natural_lem : (n : ℤ) → is_neg n ≡ false → (m : ℕ) × (n ≡ pos m)
natural_lem (pos m) e = (m, refl)
natural_lem (negsuc k) e = absurd (true≢false e)

abbrev IsZeroCode : ℤ → Type 0
IsZeroCode (pos zero) = Unit {0}
IsZeroCode (pos (suc n)) = ⊥
IsZeroCode (negsuc k) = ⊥

-- The one condition under which main refuses.
passed : (b : Bool) → (if b then pos einval else pos 0) ≡ pos 0 → b ≡ false
passed true e = absurd (subst IsZeroCode (sym e) tt)
passed false e = refl

-- If main's checks pass, the options have one input and one output, each a file or a bdev, a unit size
-- above 0, a count that is not negative, and flags only where there is a file.
pub check_settings-IsValid : (g : Settings) → check_settings g ≡ pos 0 → IsValid g
unfolding check_settings
check_settings-IsValid g e =
    let a = or_false _ _ (passed _ e) in
    let b = or_false _ _ a.1 in
    let c = or_false _ _ b.1 in
    let d = or_false _ _ c.1 in
    let u = or_false _ _ d.1 in
    let v = or_false _ _ u.1 in
    let w = or_false _ _ v.1 in
    record {
      one_input = one_of g.input_file g.input_bdev a.0 c.0;
      one_output = one_of g.output_file g.output_bdev b.0 d.0;
      some_unit = positive_lem g.io_unit_size u.0;
      some_count = natural_lem g.io_unit_count v.0;
      output_flags = needs g.output_file (is_set g.output_file_flags) w.0;
      input_flags = needs g.input_file (is_set g.input_file_flags) w.1;
    }
