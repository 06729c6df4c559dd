-- ===== src/Dd/Whole.antt =====
-- dd_run of src/app/spdk_dd.c as a whole: what it accepts, it copies.
use bdev_ubi.Common.{
  ℕ, ◌+◌, ◌^◌, ◌≤◌, ◌<◌, ◌≡◌, refl, sym, ap, ◌∙◌, true, Option, some, [], pos, arith, subst,
}
use bdev_ubi.Posix.{Memory}
use bdev_ubi.Dd.{
  Operation, read_input, SubmitType, dd_populate, dd_read, dd_write, Submission, Io, Job,
  read_region_start, file,
}
use bdev_ubi.Dd.Flags.{disk_after}
use bdev_ubi.Dd.Setup.{Settings, Device, Setup, goes_on}
use bdev_ubi.Dd.Prepare.{first_setup, Host, prepare}
use bdev_ubi.Dd.Accepted.Attempts.{Holds}
use bdev_ubi.Dd.Accepted.Units.{IsAccepted, prepare_lem}
use bdev_ubi.Dd.Invariant.{Plan, IsPlan, Stage, IsUnit}
use bdev_ubi.Dd.Invariant.Finish.{Inv}
use bdev_ubi.Dd.Invariant.Start.{IsReady}
use bdev_ubi.Dd.Run.{Reaches, Reaches-Inv}

-- The copy that a setup stands for: the units that the queue depth left, the size that dd_run computed.
abbrev pub plan_of : Setup → Memory → Memory → Plan
plan_of t input disk = record {
  n = t.opts.queue_depth;
  size = t.job.copy_size;
  block = t.job.output.block_size;
  input = input;
  before = disk_after t.opened disk;
}

abbrev IsRead : Operation → Type 0
IsRead read_input = Unit {0}
IsRead _ = ⊥

module _ (g : Settings) (disk : Memory) (d e : Device) (h : Host) (t : Setup)
    (accepted : prepare g d e h (first_setup g disk) ≡ goes_on t) where
  pub accepted_lem : IsAccepted g disk t.opts t.job t.opened
  accepted_lem =
      subst (Holds (λ (u : Setup). IsAccepted g disk u.opts u.job u.opened)) accepted
        (prepare_lem g disk d e h)

  module _ (untold : t.job.exits ≡ []) (from_file : t.opts.sparse ≡ true → t.job.input.type ≡ file)
      (input : Memory) where
    pub ready_lem : IsReady t.opts (plan_of t input disk) t.job
    ready_lem = record {
      sized = refl;
      blocks = refl;
      calm = accepted_lem.calm;
      running = accepted_lem.running;
      from_file = from_file;
      at_start = accepted_lem.at_start;
      idle = accepted_lem.idle;
      untold = untold;
      fresh = accepted_lem.fresh;
      untouched = accepted_lem.untouched;
    }

    module _ (ceil_div : ℕ → ℕ → ℕ) (plan : IsPlan ceil_div t.opts (plan_of t input disk)) where
      Stage-read_input :
          (k : SubmitType) (io : Io) (sub : Submission)
          → Stage ceil_div t.opts (plan_of t input disk) k io sub
          → sub.operation ≡ read_input
          → sub ≡ record { operation = read_input; offset = io.offset; length = io.length }
      Stage-read_input dd_populate io sub q r =
          absurd (subst IsRead (sym r ∙ ap (λ (x : Submission). x.operation) q) tt)
      Stage-read_input dd_read io sub q r = q.0
      Stage-read_input dd_write io sub q r =
          absurd (subst IsRead (sym r ∙ ap (λ (x : Submission). x.operation) q.0) tt)

      read_lem :
          (u : Job) (i : ℕ) (sub : Submission)
          → Inv ceil_div t.opts (plan_of t input disk) u
          → i < t.opts.queue_depth
          → (u.ios i).flight ≡ some sub
          → sub.operation ≡ read_input
          → sub.offset + sub.length ≤ read_region_start t.opts + t.job.copy_size
      read_lem u i sub inv hi e r =
          let x =
            subst
              (λ (f : Option Submission).
                IsUnit ceil_div t.opts (plan_of t input disk) u.input.pos (u.ios i) f)
              e (inv.core.units i hi) in
          let q = Stage-read_input (u.ios i).type (u.ios i) sub x.1 r in
          omega (
            arith,
            ap (λ (y : Submission). y.offset) q,
            ap (λ (y : Submission). y.length) q,
            x.0.1,
            inv.core.high,
          )

      -- Under the conditions of `run_copied`, for an input bdev whose size fits uint64_t: at every
      -- point of the copy a read of the input that is in flight lies within the bdev: the checks
      -- of --skip and --count are enough for it.
      pub run_reads_inside :
          g.input_bdev ≡ true
          → t.job.input.total_size < 2 ^ 64
          → {k : ℕ} {u : Job} → Reaches ceil_div t.opts (plan_of t input disk) t.job k u
          → (i : ℕ) (sub : Submission) → i < t.opts.queue_depth
          → (u.ios i).flight ≡ some sub
          → sub.operation ≡ read_input
          → sub.offset + sub.length ≤ t.job.input.total_size
      run_reads_inside b total {k} {u} r i sub hi f q =
          let inv = Reaches-Inv ceil_div t.opts (plan_of t input disk) plan t.job ready_lem r in
          let inside =
            accepted_lem.in_input b (omega (arith, accepted_lem.at_start, plan.input_fits)) total in
          omega (arith, read_lem u i sub inv hi f q, inside, accepted_lem.at_start)
