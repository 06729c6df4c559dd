-- ===== src/Dd/Accepted/Attempts.antt =====
-- The steps of dd_run of src/app/spdk_dd.c that may return before the copy starts.
use bdev_ubi.Common.{
  ℕ, ◌≡◌, refl, inl, inr, Bool, true, false, none, ◌==◌, Bool-cases, if◌then◌else◌, ℤ, pos,
}
use bdev_ubi.Posix.{Memory}
use bdev_ubi.Dd.{Opts}
use bdev_ubi.Dd.Flags.{disk_after}
use bdev_ubi.Dd.Setup.{
  Setup, Attempt, returned, goes_on, undefined, ◌>>=◌, ◌>>◌, refuse, limit_by_count,
}

-- What holds of an attempt that goes on.
abbrev pub Holds : {A : Type 0} → (A → Type 0) → Attempt A → Type 0
Holds P (returned s) = Unit {0}
Holds P (goes_on a) = P a
Holds P undefined = Unit {0}

pub bind_lem :
    {A B : Type 0} (P : A → Type 0) (Q : B → Type 0) (m : Attempt A) (f : A → Attempt B)
    → Holds P m
    → ((a : A) → P a → Holds Q (f a))
    → Holds Q (m >>= f)
bind_lem P Q (returned s) f h k = tt
bind_lem P Q (goes_on a) f h k = k a h
bind_lem P Q undefined f h k = tt

pub mono_lem :
    {A : Type 0} (P Q : A → Type 0) (m : Attempt A) → Holds P m → ((a : A) → P a → Q a) → Holds Q m
mono_lem P Q (returned s) h k = tt
mono_lem P Q (goes_on a) h k = k a h
mono_lem P Q undefined h k = tt

pub refuse_lem :
    (P : Setup → Type 0) (wrong : Bool) (rc : ℤ) (t : Setup)
    → (wrong ≡ false → P t)
    → Holds P (refuse wrong rc t)
refuse_lem P true rc t h = tt
refuse_lem P false rc t h = h refl

pub guard_lem :
    {B : Type 0} (Q : B → Type 0) (wrong : Bool) (rc : ℤ) (t : Setup) (m : Attempt B)
    → (wrong ≡ false → Holds Q m)
    → Holds Q (refuse wrong rc t >> m)
guard_lem Q true rc t m h = tt
guard_lem Q false rc t m h = h refl

pub if_lem :
    {A : Type 0} (P : A → Type 0) (b : Bool) (x y : Attempt A)
    → Holds P x
    → Holds P y
    → Holds P (if b then x else y)
if_lem P true x y h k = h
if_lem P false x y h k = k

pub case_lem :
    {A : Type 0} (P : A → Type 0) (b : Bool) (x y : Attempt A)
    → (b ≡ true → Holds P x)
    → (b ≡ false → Holds P y)
    → Holds P (if b then x else y)
case_lem P true x y h k = h refl
case_lem P false x y h k = k refl

-- The options that the copy reads, all but the queue depth, are as they were.
abbrev pub SameOpts : Opts → Opts → Type 0
SameOpts o o' =
    (o'.input_offset ≡ o.input_offset)
    × (o'.output_offset ≡ o.output_offset)
    × (o'.io_unit_size ≡ o.io_unit_size)
    × (o'.io_unit_count ≡ o.io_unit_count)
    × (o'.sparse ≡ o.sparse)

pub count_lem : (o o' : Opts) → SameOpts o o' → SameOpts o (limit_by_count o')
count_lem o o' h = elim (Bool-cases (o'.io_unit_count == 0)) [ inl e ↦ rw e h | inr e ↦ rw e h ]

-- No I/O was started, and no call failed so far.
pub record IsQuiet (o : Opts) (disk : Memory) (t : Setup) : Type 0 where
  pub same_opts : SameOpts o t.opts
  pub calm : t.job.error ≡ pos 0
  pub running : t.job.interrupt ≡ false
  pub idle : t.job.outstanding ≡ 0
  pub free : (i : ℕ) → (t.job.ios i).flight ≡ none
  pub untouched : (x : ℕ) → t.job.disk x ≡ disk_after t.opened disk x
