-- ===== src/Dd/Closed.antt =====
-- What src/app/spdk_dd.c opens and closes: dd_exit is the one that closes, and the copy itself changes
-- nothing that it looks at.
pub mod Steps
pub mod Events
pub mod Opened
pub mod Prepared
pub mod Paired
use mathlib.Core.List.{cons-ne-nil}
use bdev_ubi.Common.{
  ℕ, ◌+◌, ◌≡◌, refl, ap, ◌∙◌, sym, Bool, true, false, if◌then◌else◌, List, [], ◌∷◌, ℤ, pos, negsuc,
  ◌*◌, ◌==◌, ==_iff,
}
use bdev_ubi.Dd.{
  TargetType, Target, Job, Call, Side, on_input, on_output, file_opened, file_closed, desc_opened,
  desc_closed, channel_got, channel_put, file, bdev,
}
use bdev_ubi.Dd.Copy.{exit, close_target, close_targets, cleanup_bdev}

abbrev same_side : Side → Side → ℕ
same_side on_input on_input = 1
same_side on_output on_output = 1
same_side _ _ = 0

-- Whether two numbers are the same descriptor. close(2) of a negative number does nothing.
abbrev pub same_fd : ℤ → ℤ → ℕ
same_fd (pos n) (pos m) = if n == m then 1 else 0
same_fd _ _ = 0

pub same_fd_refl : (fd : ℤ) → (n : ℕ) × (fd ≡ pos n) → same_fd fd fd ≡ 1
same_fd_refl fd (n, e) = rw (e, (==_iff n n).1 refl) refl

-- Whether a call opens, or closes, the descriptor `fd` of a side's file, or the side's bdev; or gets, or
-- puts, its channel.
abbrev pub opens : Side → ℤ → Call → ℕ
opens side fd (file_opened k x) = same_side side k * same_fd fd x
opens side fd (desc_opened k) = same_side side k
opens side fd _ = 0

abbrev pub closes : Side → ℤ → Call → ℕ
closes side fd (file_closed k x) = same_side side k * same_fd fd x
closes side fd (desc_closed k) = same_side side k
closes side fd _ = 0

abbrev pub gets : Side → Call → ℕ
gets side (channel_got k) = same_side side k
gets side _ = 0

abbrev pub puts : Side → Call → ℕ
puts side (channel_put k) = same_side side k
puts side _ = 0

abbrev pub count : (Call → ℕ) → List Call → ℕ
count f [] = 0
count f (c ∷ calls) = f c + count f calls

-- The side, with the descriptor `fd` if it is a file, was opened `n` times and closed `c` times, and its
-- channel got `m` times and put back `p` times.
abbrev pub Counts : Side → ℤ → ℕ → ℕ → ℕ → ℕ → List Call → Type 0
Counts side fd n c m p calls =
    (count (opens side fd) calls ≡ n)
    × (count (closes side fd) calls ≡ c)
    × (count (gets side) calls ≡ m)
    × (count (puts side) calls ≡ p)

-- Nothing of the side was given back.
abbrev pub Opened : Side → ℤ → ℕ → ℕ → List Call → Type 0
Opened side fd n m calls = Counts side fd n 0 m 0 calls

-- Nothing was opened for the side.
abbrev pub NoneOpened : Side → List Call → Type 0
NoneOpened side calls = (fd : ℤ) → Opened side fd 0 0 calls

-- The side's target is the one thing that was opened for it.
abbrev pub IsOpened : TargetType → Side → Target → List Call → Type 0
IsOpened file side t calls = ((n : ℕ) × (t.fd ≡ pos n)) × Opened side t.fd 1 0 calls
IsOpened bdev side t calls =
    (t.is_open ≡ true) × (t.has_channel ≡ true) × Opened side t.fd 1 1 calls

-- What dd_exit looks at in a target.
pub record Held : Type 0 where
  pub type : TargetType
  pub fd : ℤ
  pub has_channel : Bool
  pub is_open : Bool

abbrev tail_of : List ℤ → List ℤ
tail_of [] = []
tail_of (x ∷ xs) = xs

abbrev pub held : Target → Held
held t = record { type = t.type; fd = t.fd; has_channel = t.has_channel; is_open = t.is_open }

-- What dd_exit looks at and changes in a job.
pub record Seen : Type 0 where
  pub input : Held
  pub output : Held
  pub exits : List ℤ
  pub calls : List Call

abbrev pub seen : Job → Seen
seen t = record { input = held t.input; output = held t.output; exits = t.exits; calls = t.calls }

module _ (s : Job) where
  -- The calls of one dd_exit for the targets of `s`, after `calls`.
  pub closed : List Call → List Call
  closed calls = close_targets (record s { calls = calls })

  -- The calls of dd_exit, once for each of its codes.
  pub data Closings : List ℤ → List Call → Type 0 where
    as_before : Closings s.exits s.calls
    once_more :
        {codes : List ℤ} {calls : List Call} (rc : ℤ)
        → Closings codes calls
        → Closings (rc ∷ codes) (closed calls)

  -- From `s` to `t` only dd_exit closed anything.
  pub record Tracks (t : Job) : Type 0 where
    pub input_held : held t.input ≡ held s.input
    pub output_held : held t.output ≡ held s.output
    pub closings : Closings t.exits t.calls

  -- A job whose other fields changed.
  pub still : {t u : Job} → Tracks t → seen u ≡ seen t → Tracks u
  still h e = record {
    input_held = ap (λ (x : Seen). x.input) e ∙ h.input_held;
    output_held = ap (λ (x : Seen). x.output) e ∙ h.output_held;
    closings = rw (ap (λ (x : Seen). x.exits) e, ap (λ (x : Seen). x.calls) e) h.closings;
  }

  closed_lem :
      (t : Job)
      → held t.input ≡ held s.input
      → held t.output ≡ held s.output
      → close_targets t ≡ closed t.calls
  unfolding closed close_targets close_target cleanup_bdev
  closed_lem t e f =
      rw
        (
          ap (λ (h : Held). h.type) e,
          ap (λ (h : Held). h.fd) e,
          ap (λ (h : Held). h.has_channel) e,
          ap (λ (h : Held). h.is_open) e,
          ap (λ (h : Held). h.type) f,
          ap (λ (h : Held). h.fd) f,
          ap (λ (h : Held). h.has_channel) f,
          ap (λ (h : Held). h.is_open) f,
        )
        refl

  pub exit-Tracks : (rc : ℤ) (t : Job) → Tracks t → Tracks (exit rc t)
  unfolding exit
  exit-Tracks rc t h = record {
    input_held = h.input_held;
    output_held = h.output_held;
    closings = rw (closed_lem t h.input_held h.output_held) (once_more rc h.closings);
  }

  pub if-Tracks :
      (b : Bool) (x y : Job)
      → (b ≡ true → Tracks x)
      → (b ≡ false → Tracks y)
      → Tracks (if b then x else y)
  if-Tracks true x y h k = h refl
  if-Tracks false x y h k = k refl

  pub none_closed :
      {codes : List ℤ} {calls : List Call} → Closings codes calls → codes ≡ [] → calls ≡ s.calls
  none_closed as_before e = refl
  none_closed (once_more rc c) e = absurd (cons-ne-nil _ _ e)

  pub once_closed :
      {codes : List ℤ} {calls : List Call} (rc : ℤ)
      → s.exits ≡ []
      → Closings codes calls
      → codes ≡ rc ∷ []
      → calls ≡ closed s.calls
  once_closed rc u as_before e = absurd (cons-ne-nil _ _ (sym e ∙ u))
  once_closed rc u (once_more rc' c) e = ap closed (none_closed c (ap tail_of e))
