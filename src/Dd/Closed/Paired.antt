-- ===== src/Dd/Closed/Paired.antt =====
-- Every target that dd_run of src/app/spdk_dd.c opened is closed, once.
use bdev_ubi.Common.{
  ℕ, ◌+◌, ◌≡◌, refl, ap, ◌∙◌, List, [], ◌∷◌, ℤ, pos, arith, subst, true, ◌||◌, if◌then◌else◌, sym,
  ◌*◌,
}
use bdev_ubi.Posix.{Memory}
use bdev_ubi.Dd.{
  TargetType, file, bdev, Target, Job, Call, Side, on_input, on_output, Answers,
  status_poller_unregistered, io_poller_unregistered,
}
use bdev_ubi.Dd.Copy.{close_target, close_targets, cleanup_bdev, is_file}
use bdev_ubi.Dd.Seek.{seek_units}
use bdev_ubi.Dd.Events.{Event}
use bdev_ubi.Dd.Hangs.{run_events}
use bdev_ubi.Dd.Setup.{Settings, Device, Setup, goes_on, check_settings}
use bdev_ubi.Dd.Prepare.{Host, prepare, first_setup}
use bdev_ubi.Dd.Checks.{check_settings-IsValid}
use bdev_ubi.Dd.Accepted.Attempts.{Holds}
use bdev_ubi.Dd.Closed.{
  opens, closes, gets, puts, count, IsOpened, Counts, closed, Closings, Tracks, as_before,
  once_more, same_fd_refl,
}
use bdev_ubi.Dd.Closed.Steps.{units-Tracks}
use bdev_ubi.Dd.Closed.Events.{run-Tracks}
use bdev_ubi.Dd.Closed.Opened.{HasBoth}
use bdev_ubi.Dd.Closed.Prepared.{prepare_opened}

-- After `n` calls of dd_exit, for a target that was opened once.
abbrev IsClosed : ℕ → TargetType → Side → Target → List Call → Type 0
IsClosed n file side t calls = ((m : ℕ) × (t.fd ≡ pos m)) × Counts side t.fd 1 n 0 0 calls
IsClosed n bdev side t calls =
    (t.is_open ≡ true) × (t.has_channel ≡ true) × Counts side t.fd 1 n 1 n calls

not-IsClosed :
    (k : TargetType) (side : Side) (t : Target) (calls : List Call)
    → IsOpened k side t calls
    → IsClosed 0 k side t calls
not-IsClosed file side t calls h = h
not-IsClosed bdev side t calls h = h

-- dd_exit on targets of these types.
abbrev all_closed : TargetType → TargetType → Target → Target → List Call → List Call
all_closed k l t u calls =
    let both = close_target on_output u l (close_target on_input t k calls) in
    status_poller_unregistered
    ∷ (if is_file k || is_file l then io_poller_unregistered ∷ both else both)

-- One call of dd_exit closes each target once.
input-IsClosed :
    (n : ℕ) (k l : TargetType) (t u : Target) (calls : List Call)
    → IsClosed n k on_input t calls
    → IsClosed n l on_output u calls
    → IsClosed (1 + n) k on_input t (all_closed k l t u calls)
unfolding close_target cleanup_bdev
input-IsClosed n file file t u calls ((im, ie), ih) ((om, oe), oh) = (
  (im, ie),
  (
    omega (arith, ih.0),
    omega (arith, ih.1, same_fd_refl t.fd (im, ie)),
    omega (arith, ih.2),
    omega (arith, ih.3),
  ),
)
input-IsClosed n file bdev t u calls ((im, ie), ih) (oo, oc, oh) = (
  (im, ie),
  rw (oo, oc)
      (
        omega (arith, ih.0),
        omega (arith, ih.1, same_fd_refl t.fd (im, ie)),
        omega (arith, ih.2),
        omega (arith, ih.3),
      ),
)
input-IsClosed n bdev file t u calls (io, ic, ih) ((om, oe), oh) = (
  io,
  ic,
  rw (io, ic) (omega (arith, ih.0), omega (arith, ih.1), omega (arith, ih.2), omega (arith, ih.3)),
)
input-IsClosed n bdev bdev t u calls (io, ic, ih) (oo, oc, oh) = (
  io,
  ic,
  rw (io, ic, oo, oc)
      (omega (arith, ih.0), omega (arith, ih.1), omega (arith, ih.2), omega (arith, ih.3)),
)

output-IsClosed :
    (n : ℕ) (k l : TargetType) (t u : Target) (calls : List Call)
    → IsClosed n k on_input t calls
    → IsClosed n l on_output u calls
    → IsClosed (1 + n) l on_output u (all_closed k l t u calls)
unfolding close_target cleanup_bdev
output-IsClosed n file file t u calls ((im, ie), ih) ((om, oe), oh) = (
  (om, oe),
  (
    omega (arith, oh.0),
    omega (arith, oh.1, same_fd_refl u.fd (om, oe)),
    omega (arith, oh.2),
    omega (arith, oh.3),
  ),
)
output-IsClosed n file bdev t u calls ((im, ie), ih) (oo, oc, oh) = (
  oo,
  oc,
  rw (oo, oc) (omega (arith, oh.0), omega (arith, oh.1), omega (arith, oh.2), omega (arith, oh.3)),
)
output-IsClosed n bdev file t u calls (io, ic, ih) ((om, oe), oh) = (
  (om, oe),
  rw (io, ic)
      (
        omega (arith, oh.0),
        omega (arith, oh.1, same_fd_refl u.fd (om, oe)),
        omega (arith, oh.2),
        omega (arith, oh.3),
      ),
)
output-IsClosed n bdev bdev t u calls (io, ic, ih) (oo, oc, oh) = (
  oo,
  oc,
  rw (io, ic, oo, oc)
      (omega (arith, oh.0), omega (arith, oh.1), omega (arith, oh.2), omega (arith, oh.3)),
)

-- How often dd_exit was called.
abbrev pub calls_of : List ℤ → ℕ
calls_of [] = 0
calls_of (rc ∷ codes) = 1 + calls_of codes

-- Both targets, after `n` calls of dd_exit.
abbrev AreClosed : ℕ → Job → List Call → Type 0
AreClosed n s calls =
    IsClosed n s.input.type on_input s.input calls
    × IsClosed n s.output.type on_output s.output calls

closings_lem :
    (s : Job) {codes : List ℤ} {calls : List Call}
    → AreClosed (calls_of s.exits) s s.calls
    → Closings s codes calls
    → AreClosed (calls_of codes) s calls
unfolding closed close_targets
closings_lem s h as_before = h
closings_lem s h (once_more {codes} {calls} rc c) =
    let q = closings_lem s h c in
    let n = calls_of codes in
    (
      input-IsClosed n s.input.type s.output.type s.input s.output calls q.0 q.1,
      output-IsClosed n s.input.type s.output.type s.input s.output calls q.0 q.1,
    )

-- After `n` calls of dd_exit: the side's descriptor was opened once and closed `n` times, and so was its
-- channel, if it has one.
abbrev pub IsClosedTimes : ℕ → Side → ℤ → List Call → Type 0
IsClosedTimes n side fd calls =
    (count (opens side fd) calls ≡ 1)
    × (count (closes side fd) calls ≡ n)
    × (count (puts side) calls ≡ n * count (gets side) calls)

times_lem :
    (n : ℕ) (k : TargetType) (side : Side) (t : Target) (calls : List Call)
    → IsClosed n k side t calls
    → IsClosedTimes n side t.fd calls
times_lem n file side t calls (m, h) = (h.0, h.1, h.3 ∙ sym (ap (λ x. n * x) h.2 ∙ omega arith))
times_lem n bdev side t calls (o, c, h) = (h.0, h.1, h.3 ∙ sym (ap (λ x. n * x) h.2 ∙ omega arith))

-- For options that main lets through, when dd_run got to its last loop without a call of dd_exit: whatever
-- the system answers after that, and in whatever order things complete, fail or are interrupted, both
-- targets were opened once, and each call of dd_exit closes each of them once, a file by the descriptor that
-- open(2) gave for it, and puts back its channel, if it is a bdev. So nothing is closed while the copy runs, and a copy that calls dd_exit once closes all that
-- it opened, once.
pub run_closes :
    (g : Settings) (disk : Memory) (d e : Device) (h : Host) (t : Setup)
    → check_settings g ≡ pos 0
    → prepare g d e h (first_setup g disk) ≡ goes_on t
    → t.job.exits ≡ []
    → (ceil_div : ℕ → ℕ → ℕ) (input : Memory) (a : ℕ → Answers) (es : List (Event × Answers))
    → let u =
        run_events ceil_div t.opts input es
          (seek_units ceil_div t.opts a t.opts.queue_depth t.job) in
      IsClosedTimes (calls_of u.exits) on_input t.job.input.fd u.calls
      × IsClosedTimes (calls_of u.exits) on_output t.job.output.fd u.calls
run_closes g disk d e h t checked accepted x ceil_div input a es =
    let opened : HasBoth t =
      subst (Holds HasBoth) accepted
        (prepare_opened g (check_settings-IsValid g checked) disk d e h) in
    let u =
      run_events ceil_div t.opts input es (seek_units ceil_div t.opts a t.opts.queue_depth t.job) in
    let start : Tracks t.job t.job = record {
      input_held = refl;
      output_held = refl;
      closings = as_before;
    } in
    let tracks =
      run-Tracks t.job ceil_div t.opts input es _
        (units-Tracks t.job ceil_div t.opts a t.opts.queue_depth t.job start) in
    let begun : AreClosed (calls_of t.job.exits) t.job t.job.calls =
      subst (λ (xs : List ℤ). AreClosed (calls_of xs) t.job t.job.calls) (sym x)
        (
          not-IsClosed t.job.input.type on_input t.job.input t.job.calls (opened x).0,
          not-IsClosed t.job.output.type on_output t.job.output t.job.calls (opened x).1,
        ) in
    let done = closings_lem t.job begun tracks.closings in
    (
      times_lem (calls_of u.exits) t.job.input.type on_input t.job.input u.calls done.0,
      times_lem (calls_of u.exits) t.job.output.type on_output t.job.output u.calls done.1,
    )
