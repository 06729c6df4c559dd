-- ===== src/Dd/Closed/Opened.antt =====
-- What dd_open_file and dd_open_bdev of src/app/spdk_dd.c open.
use mathlib.Core.List.{cons-ne-nil}
use bdev_ubi.Common.{
  ℕ, ◌≡◌, refl, true, false, not, Option, none, some, List, [], ◌∷◌, is_neg, arith, ◌==◌, ◌&&◌,
}
use bdev_ubi.Posix.{Memory, FilePath}
use bdev_ubi.Dd.{
  TargetType, file, bdev, Target, Job, Call, Side, on_input, on_output, file_opened, desc_opened,
  channel_got,
}
use bdev_ubi.Dd.Copy.{exit}
use bdev_ubi.Dd.Flags.{OpenFlag, parse_flags}
use bdev_ubi.Dd.Setup.{Settings, Device, Setup}
use bdev_ubi.Dd.Prepare.{
  first_setup, overflows, open_file, open_bdev, flags_or_exit, read_input_flags, read_output_flags,
  bdev_target,
}
use bdev_ubi.Dd.Checks.{natural_lem}
use bdev_ubi.Dd.Accepted.Attempts.{Holds, if_lem, case_lem}
use bdev_ubi.Dd.Closed.{opens, closes, gets, puts, NoneOpened, IsOpened, same_fd_refl}

-- Nothing was opened.
abbrev pub Unopened : Job → Type 0
Unopened s = s.exits ≡ [] → NoneOpened on_input s.calls × NoneOpened on_output s.calls

-- The input was opened, and not the output.
abbrev pub Half : Job → Target → Type 0
Half s t = s.exits ≡ [] → IsOpened t.type on_input t s.calls × NoneOpened on_output s.calls

abbrev pub Both : Job → Target → Target → Type 0
Both s t u = s.exits ≡ [] → IsOpened t.type on_input t s.calls × IsOpened u.type on_output u s.calls

-- A call for the output is none for the input.
more-IsOpened :
    (k : TargetType) (t : Target) (c : Call) (calls : List Call)
    → opens on_input t.fd c ≡ 0
    → closes on_input t.fd c ≡ 0
    → gets on_input c ≡ 0
    → puts on_input c ≡ 0
    → IsOpened k on_input t calls
    → IsOpened k on_input t (c ∷ calls)
more-IsOpened file t c calls e f g p (n, h) = (
  n,
  (omega (arith, e, h.0), omega (arith, f, h.1), omega (arith, g, h.2), omega (arith, p, h.3)),
)
more-IsOpened bdev t c calls e f g p (o, x, h) = (
  o,
  x,
  (omega (arith, e, h.0), omega (arith, f, h.1), omega (arith, g, h.2), omega (arith, p, h.3)),
)

pub unopened_lem : (g : Settings) (disk : Memory) → Unopened (first_setup g disk).job
unopened_lem g disk e = (λ fd. (refl, refl, refl, refl), λ fd. (refl, refl, refl, refl))

-- After a call of dd_exit there is nothing to show.
told_lem :
    (P : Job → Type 0) (r : Option (List OpenFlag)) (t : Setup)
    → (t.job.exits ≡ [] → P t.job)
    → (flags_or_exit r t).0.job.exits ≡ []
    → P (flags_or_exit r t).0.job
unfolding flags_or_exit exit
told_lem P none t h e = absurd (cons-ne-nil _ _ e)
told_lem P (some flags) t h e = h e

pub input_flags_lem :
    (P : Job → Type 0) (f : Option FilePath) (t : Setup)
    → (t.job.exits ≡ [] → P t.job)
    → (read_input_flags f t).0.job.exits ≡ []
    → P (read_input_flags f t).0.job
unfolding read_input_flags
input_flags_lem P none t h = h
input_flags_lem P (some s) t h = told_lem P (parse_flags s).0 _ h

pub output_flags_lem :
    (P : Job → Type 0) (f : Option FilePath) (t : Setup)
    → (t.job.exits ≡ [] → P t.job)
    → (read_output_flags f t).0.job.exits ≡ []
    → P (read_output_flags f t).0.job
unfolding read_output_flags
output_flags_lem P none t h = h
output_flags_lem P (some s) t h = told_lem P (parse_flags s).0 _ h

abbrev pub HalfOf : Setup × Target → Type 0
HalfOf r = Half r.0.job r.1

pub input_file_lem :
    (d : Device) (flags : List OpenFlag) (t : Setup)
    → Unopened t.job
    → Holds HalfOf (open_file true d flags t)
unfolding open_file
input_file_lem d flags t h =
    case_lem HalfOf (is_neg d.open_rc) _ _ (λ e. tt)
      (λ e. if_lem HalfOf (d.file_size == 0 && overflows t.opts) _ _ tt (λ x.
        let o = (h x).0 d.open_rc in
        let own = same_fd_refl d.open_rc (natural_lem d.open_rc e) in
        (
          (
            natural_lem d.open_rc e,
            (omega (arith, o.0, own), omega (arith, o.1), omega (arith, o.2), omega (arith, o.3)),
          ),
          λ fd.
              let q = (h x).1 fd in
              (omega (arith, q.0), omega (arith, q.1), omega (arith, q.2), omega (arith, q.3)),
        )))

pub input_bdev_lem :
    (skip : ℕ) (d : Device) (t : Setup)
    → Unopened t.job
    → Holds HalfOf (open_bdev on_input skip d t)
unfolding open_bdev
input_bdev_lem skip d t h = if_lem HalfOf (is_neg d.open_rc) _ _ tt (
    if_lem HalfOf (not d.has_channel) _ _ tt (λ x.
      let o = (h x).0 (bdev_target d).fd in
      (
        (
          refl,
          refl,
          (omega (arith, o.0), omega (arith, o.1), omega (arith, o.2), omega (arith, o.3)),
        ),
        λ fd.
            let q = (h x).1 fd in
            (omega (arith, q.0), omega (arith, q.1), omega (arith, q.2), omega (arith, q.3)),
      )))

pub placed-IsOpened :
    (k : TargetType) (side : Side) (t : Target) (x : ℕ) (calls : List Call)
    → IsOpened k side t calls
    → IsOpened k side (record t { pos = x }) calls
placed-IsOpened file side t x calls h = h
placed-IsOpened bdev side t x calls h = h

abbrev pub HasInput : Setup → Type 0
HasInput t = Half t.job t.job.input

abbrev pub HasBoth : Setup → Type 0
HasBoth t = Both t.job t.job.input t.job.output

abbrev pub BothOf : Setup × Target → Type 0
BothOf r = Both r.0.job r.0.job.input r.1

pub output_file_lem :
    (d : Device) (flags : List OpenFlag) (t : Setup)
    → HasInput t
    → Holds BothOf (open_file false d flags t)
unfolding open_file
output_file_lem d flags t h =
    case_lem BothOf (is_neg d.open_rc) _ _ (λ e. tt)
      (λ e. if_lem BothOf (d.file_size == 0 && overflows t.opts) _ _ tt (λ x.
        let q = (h x).1 d.open_rc in
        let own = same_fd_refl d.open_rc (natural_lem d.open_rc e) in
        (
          more-IsOpened t.job.input.type t.job.input (file_opened on_output d.open_rc) t.job.calls
              (omega arith) refl refl refl (h x).0,
          (
            natural_lem d.open_rc e,
            (omega (arith, q.0, own), omega (arith, q.1), omega (arith, q.2), omega (arith, q.3)),
          ),
        )))

pub output_bdev_lem :
    (skip : ℕ) (d : Device) (t : Setup) → HasInput t → Holds BothOf (open_bdev on_output skip d t)
unfolding open_bdev
output_bdev_lem skip d t h = if_lem BothOf (is_neg d.open_rc) _ _ tt (
    if_lem BothOf (not d.has_channel) _ _ tt (λ x.
      let q = (h x).1 (bdev_target d).fd in
      (
        more-IsOpened t.job.input.type t.job.input (channel_got on_output)
            (desc_opened on_output ∷ t.job.calls) refl refl refl refl
            (more-IsOpened t.job.input.type t.job.input (desc_opened on_output) t.job.calls refl
              refl refl refl (h x).0),
        (
          refl,
          refl,
          (omega (arith, q.0), omega (arith, q.1), omega (arith, q.2), omega (arith, q.3)),
        ),
      )))
