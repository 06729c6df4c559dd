-- ===== src/Dd/Partial.antt =====
-- --aio in src/app/spdk_dd.c and a unit whose last block is partial.
use native.Mathlib.Nat.{mul-mod_left}
use bdev_ubi.Common.{
  ℕ, ◌-◌, ◌*◌, ◌%◌, ◌^◌, ◌<◌, ◌≡◌, ◌≢◌, refl, sym, ap, ◌∙◌, Bool, true, false, Option, some, ◌==◌,
  if◌then◌else◌, ℤ, pos, neg, arith,
}
use bdev_ubi.Posix.{Memory}
use bdev_ubi.Dd.{Opts, write_output, file, Submission, Job, Answers, is_stopped}
use bdev_ubi.Dd.Copy.{target_write, launch, whole_blocks, write_offset}
use bdev_ubi.Dd.Seek.{fail_with}
use bdev_ubi.Dd.Events.{
  polled, transfer, land, complete_poll, aio_completion, uring_completion, complete, deliver,
}
use bdev_ubi.Dd.Invariant.Steps.{same}
use bdev_ubi.Dd.Drains.{advance_lem}

module _ (ceil_div : ℕ → ℕ → ℕ) (o : Opts) (input : Memory) (a : Answers) where
  short_lem :
      (s : Job) (i : ℕ) (sub : Submission) (n : ℕ)
      → (n == (s.ios i).length) ≡ false
      → (aio_completion ceil_div o input a i sub (pos n) s).error ≡ neg 28
  unfolding aio_completion complete_poll
  short_lem s i sub n e =
      let m = fail_with (neg 28) (transfer input i sub.operation sub.offset n (land i s)) in
      rw e
        (advance_lem ceil_div o input a (record m { outstanding = m.outstanding - 1 }) i refl
          (m.ios i).type).same_error

  aio_lem :
      (t : Job) (i : ℕ) (sub : Submission) (res : ℤ)
      → (t.ios i).flight ≡ some sub
      → o.aio ≡ true
      → deliver ceil_div o input a (polled i res) t ≡ aio_completion ceil_div o input a i sub res t
  unfolding deliver complete
  aio_lem t i sub res f aio =
      ap (λ (x : Option Submission). complete ceil_div o input a x (polled i res) t) f
      ∙ ap
          (λ (b : Bool).
            if b
            then aio_completion ceil_div o input a i sub res t
            else uring_completion ceil_div o input a i sub res t)
          aio

  differs : (n l m : ℕ) → l ≡ m → n ≢ m → (n == l) ≡ false
  differs n l m e h = ground arith

  module _ (aio : o.aio ≡ true) (s : Job) (i : ℕ) (running : is_stopped s ≡ false)
      (to_file : s.output.type ≡ file) (accepted : a.submit_rc ≡ pos 0) where
    -- The write of the unit, as dd_target_write submits it.
    abbrev pub write_of : Submission
    write_of = record {
      operation = write_output;
      offset = write_offset ceil_div o a (s.ios i).offset;
      length = whole_blocks ceil_div o a (s.ios i).length s.output.block_size;
    }

    write_flight :
        (((target_write ceil_div o a i s).ios i).flight ≡ some write_of)
        × (((target_write ceil_div o a i s).ios i).length ≡ (s.ios i).length)
    unfolding target_write launch
    write_flight = rw (running, to_file, aio, accepted, same i) (refl, refl)

    partial_lem :
        (s.ios i).length % s.output.block_size ≢ 0
        → ceil_div (s.ios i).length s.output.block_size * s.output.block_size < 2 ^ 64
        → write_of.length ≢ (s.ios i).length
    partial_lem partial fits e =
        let q = mul-mod_left (ceil_div (s.ios i).length s.output.block_size) s.output.block_size in
        let w : write_of.length
            ≡ ceil_div (s.ios i).length s.output.block_size * s.output.block_size =
          omega (arith, fits) in
        partial (ap (λ (x : ℕ). x % s.output.block_size) (sym e ∙ w) ∙ q)

    -- With --aio and an output file, in a job that is not stopped: the write of a unit whose length is
    -- not a multiple of the output's block size, whose whole blocks fit uint64_t and whose submission
    -- is accepted, ends with -ENOSPC as the error of the copy, though the kernel wrote all bytes that
    -- it was asked for. The result is compared with the unit's length, and the write is of whole
    -- blocks.
    pub aio_write_enospc :
        (s.ios i).length % s.output.block_size ≢ 0
        → ceil_div (s.ios i).length s.output.block_size * s.output.block_size < 2 ^ 64
        → (deliver ceil_div o input a
            (polled i (pos write_of.length))
            (target_write ceil_div o a i s)).error
          ≡ neg 28
    aio_write_enospc partial fits =
        let t = target_write ceil_div o a i s in
        rw (aio_lem t i write_of (pos write_of.length) write_flight.0 aio) (
          short_lem t i write_of write_of.length (
            differs write_of.length (t.ios i).length (s.ios i).length write_flight.1
              (partial_lem partial fits)))
