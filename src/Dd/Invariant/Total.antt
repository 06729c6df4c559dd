-- ===== src/Dd/Invariant/Total.antt =====
-- Sums over the units of src/app/spdk_dd.c: how many have something in flight, and the completions
-- that are still to come for them.
use bdev_ubi.Common.{
  ℕ, zero, suc, ◌+◌, ◌<◌, ◌≤◌, ◌≡◌, ◌≢◌, refl, Option, none, some, ◌==◌, arith, ◌⊎◌, inl, inr,
  Bool-cases, ==_iff,
}
use bdev_ubi.Dd.{Io, update, Submission, SubmitType, dd_populate, dd_read, dd_write}

abbrev pub busy_flight : Option Submission → ℕ
busy_flight none = 0
busy_flight (some sub) = 1

abbrev pub busy : Io → ℕ
busy io = busy_flight io.flight

abbrev pub to_come : SubmitType → ℕ
to_come dd_populate = 3
to_come dd_read = 2
to_come dd_write = 1

abbrev pub weight_flight : Option Submission → SubmitType → ℕ
weight_flight none k = 0
weight_flight (some sub) k = to_come k

-- The completions that a unit's bytes still need.
abbrev pub weight : Io → ℕ
weight io = weight_flight io.flight io.type

unfoldable pub sum : (Io → ℕ) → ℕ → (ℕ → Io) → ℕ
sum f zero ios = 0
sum f (suc n) ios = sum f n ios + f (ios n)

-- How many of the first `n` units have something in flight.
abbrev pub total : ℕ → (ℕ → Io) → ℕ
total = sum busy

-- A unit at `n` or later does not count.
sum_above :
    (f : Io → ℕ) (n : ℕ) (ios : ℕ → Io) (i : ℕ) (io : Io)
    → n ≤ i
    → sum f n (update ios i io) ≡ sum f n ios
unfolding sum
sum_above f zero ios i io h = refl
sum_above f (suc n) ios i io h = ground (arith, sum_above f n ios i io)

pub sum-update :
    (f : Io → ℕ) (n : ℕ) (ios : ℕ → Io) (i : ℕ) (io : Io)
    → i < n
    → sum f n (update ios i io) + f (ios i) ≡ sum f n ios + f io
unfolding sum
sum-update f zero ios i io h = absurd (omega arith)
sum-update f (suc n) ios i io h = elim (Bool-cases (n == i)) [
  | inl e ↦ let q = (==_iff n i).0 e in rw (e, q) (omega (arith, sum_above f i ios i io))
  | inr e ↦ rw e (omega (arith, sum-update f n ios i io (ground arith)))
]

pub le-sum : (f : Io → ℕ) (n : ℕ) (ios : ℕ → Io) (i : ℕ) → i < n → f (ios i) ≤ sum f n ios
unfolding sum
le-sum f zero ios i h = absurd (omega arith)
le-sum f (suc n) ios i h = elim (Bool-cases (n == i)) [
  | inl e ↦ let q = (==_iff n i).0 e in rw q (omega arith)
  | inr e ↦ omega (arith, le-sum f n ios i (ground arith))
]

pub sum_free :
    (f : Io → ℕ) (n : ℕ) (ios : ℕ → Io) → ((i : ℕ) → i < n → f (ios i) ≡ 0) → sum f n ios ≡ 0
unfolding sum
sum_free f zero ios free = refl
sum_free f (suc n) ios free =
    omega (arith, sum_free f n ios (λ i h. free i (omega arith)), free n (omega arith))

pub zero_or : (n : ℕ) → (n ≡ 0) ⊎ (n ≢ 0)
zero_or n = ground arith

-- Where the sum is not 0, some unit's value is not.
pub find_positive :
    (f : Io → ℕ) (n : ℕ) (ios : ℕ → Io) → 0 < sum f n ios → (i : ℕ) × (i < n) × (0 < f (ios i))
unfolding sum
find_positive f zero ios h = absurd (omega arith)
find_positive f (suc n) ios h = elim (zero_or (f (ios n))) [
  | inl z ↦ let q = find_positive f n ios (omega arith) in (q.0, omega (arith, q.1), q.2)
  | inr z ↦ (n, omega arith, omega arith)
]
