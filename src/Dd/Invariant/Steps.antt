-- ===== src/Dd/Invariant/Steps.antt =====
-- The completions of src/app/spdk_dd.c keep the invariant of a copy.
use mathlib.Core.Path.{fun_ext}
use bdev_ubi.Common.{
  ℕ, ◌+◌, ◌-◌, ◌*◌, ◌≤◌, ◌<◌, ◌≡◌, refl, ap, inl, inr, true, none, some, ◌==◌, ==_iff, Bool-cases,
  arith, pos,
}
use bdev_ubi.Posix.{Memory, overwrite}
use bdev_ubi.Dd.{
  Opts, SubmitType, dd_populate, dd_read, dd_write, read_output, read_input, write_output,
  Submission, Io, Job, update, read_region_start, write_region_start, Answers, add64, TargetType,
  file, bdev,
}
use bdev_ubi.Dd.Copy.{submit_code, target_read, target_write, launch, write_offset, whole_blocks}
use bdev_ubi.Dd.Events.{deliver, polled, complete_poll, advance, transfer, land}
use bdev_ubi.Dd.Invariant.{Plan, IsPlan, Region, Core, whole_of, target_of}
use bdev_ubi.Dd.Invariant.Moves.{moved}

pub same : (i : ℕ) → (i == i) ≡ true
same i = (==_iff i i).1 refl

pub update_twice : (ios : ℕ → Io) (i : ℕ) (x y : Io) → update (update ios i x) i y ≡ update ios i y
update_twice ios i x y =
    fun_ext (λ j. elim (Bool-cases (j == i)) [ inl e ↦ rw e refl | inr e ↦ rw e refl ])

-- A unit whose completion arrived, with its buffer.
abbrev pub arrived : Job → ℕ → Memory → Job
arrived s i buf = record s { ios = update s.ios i (record (s.ios i) { buf = buf; flight = none }) }

module _ (ceil_div : ℕ → ℕ → ℕ) (o : Opts) (p : Plan) (plan : IsPlan ceil_div o p) (a : Answers)
    (ok : a.submit_rc ≡ pos 0) where
  pub submit_lem : (t : TargetType) → submit_code o t a.submit_rc ≡ pos 0
  submit_lem file = simp (plan.uring)
  submit_lem bdev = ok

  -- The unit that is written, and the one that is read, with their submissions.
  abbrev pub writing : Io → Memory → Io
  writing io buf = record io {
    type = dd_write;
    buf = buf;
    flight = some (record {
      operation = write_output;
      offset = target_of ceil_div o p io;
      length = whole_of ceil_div o p io;
    });
  }

  abbrev pub reading : Io → Memory → Io
  reading io buf = record io {
    type = dd_read;
    buf = buf;
    flight = some (record { operation = read_input; offset = io.offset; length = io.length });
  }

  -- The arithmetic of uint64_t does not wrap for a unit of the copy.
  pub offset_lem :
      (at x : ℕ)
      → at ≤ read_region_start o + p.size
      → read_region_start o ≤ x
      → x ≤ at
      → write_offset ceil_div o a x ≡ write_region_start o + (x - read_region_start o)
  offset_lem at x h l m = omega (arith, plan.input_fits, plan.output_fits)

  pub blocks_lem :
      (length : ℕ)
      → length ≤ p.size
      → whole_blocks ceil_div o a length p.block ≡ ceil_div length p.block * p.block
  blocks_lem length h =
      omega (arith, plan.rounding length p.block plan.some_block, plan.output_fits)

  module _ (s : Job) (i : ℕ) (c : Core ceil_div o p s) (hi : i < p.n) (sub : Submission)
      (e : (s.ios i).flight ≡ some sub) (r : Region ceil_div o p s.input.pos (s.ios i)) where
    pub deliver_lem :
        (n : ℕ)
        → deliver ceil_div o p.input a (polled i (pos n)) s
          ≡ complete_poll ceil_div o p.input a i
              (transfer p.input i sub.operation sub.offset n (land i s))
    unfolding deliver
    deliver_lem n = simp (e, plan.uring)

    pub read_input_lem :
        (n : ℕ)
        → sub.operation ≡ read_input
        → transfer p.input i sub.operation sub.offset n (land i s)
          ≡ arrived s i (overwrite (s.ios i).buf 0 (λ x. p.input (sub.offset + x)) n)
    read_input_lem n q = rw (q, same i, update_twice) refl

    pub read_output_lem :
        (n : ℕ)
        → sub.operation ≡ read_output
        → transfer p.input i sub.operation sub.offset n (land i s)
          ≡ arrived s i (overwrite (s.ios i).buf 0 (λ x. s.disk (sub.offset + x)) n)
    read_output_lem n q = rw (q, same i, update_twice) refl

    arrived_type :
        (buf : Memory) (k : SubmitType) → (s.ios i).type ≡ k → ((arrived s i buf).ios i).type ≡ k
    arrived_type buf k t = rw (same i) t

    pub complete_read :
        (buf : Memory)
        → (s.ios i).type ≡ dd_read
        → complete_poll ceil_div o p.input a i (arrived s i buf)
          ≡ target_write ceil_div o a i
              (record (arrived s i buf) { outstanding = s.outstanding - 1 })
    unfolding complete_poll advance
    complete_read buf t =
        ap
          (λ (k : SubmitType).
            advance ceil_div o p.input a k i
              (record (arrived s i buf) { outstanding = s.outstanding - 1 }))
          (arrived_type buf dd_read t)

    pub complete_populate :
        (buf : Memory)
        → (s.ios i).type ≡ dd_populate
        → complete_poll ceil_div o p.input a i (arrived s i buf)
          ≡ target_read ceil_div o a i
              (record (arrived s i buf) { outstanding = s.outstanding - 1 })
    unfolding complete_poll advance
    complete_populate buf t =
        ap
          (λ (k : SubmitType).
            advance ceil_div o p.input a k i
              (record (arrived s i buf) { outstanding = s.outstanding - 1 }))
          (arrived_type buf dd_populate t)

    pub write_lem :
        (buf : Memory)
        → target_write ceil_div o a i (record (arrived s i buf) { outstanding = s.outstanding - 1 })
          ≡ moved ceil_div o p s i
              (writing (s.ios i) buf)
              (s.outstanding - 1 + 1)
              s.input.pos
              (add64 s.incremental_bytes (s.ios i).length)
    unfolding target_write launch
    write_lem buf =
        rw
          (
            same i,
            c.calm,
            c.running,
            submit_lem,
            update_twice,
            c.blocks,
            offset_lem s.input.pos (s.ios i).offset c.high r.0 (omega (arith, r.1)),
            blocks_lem (s.ios i).length (omega (arith, r.0, r.1, c.high)),
          )
          refl

    pub read_lem :
        (buf : Memory)
        → target_read ceil_div o a i (record (arrived s i buf) { outstanding = s.outstanding - 1 })
          ≡ moved ceil_div o p s i
              (reading (s.ios i) buf)
              (s.outstanding - 1 + 1)
              s.input.pos
              s.incremental_bytes
    unfolding target_read launch
    read_lem buf = rw (same i, c.calm, c.running, submit_lem, update_twice) refl
