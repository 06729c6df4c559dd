-- ===== src/Dd/Closed/Prepared.antt =====
-- What dd_run of src/app/spdk_dd.c has opened when it gets to its last loop.
use mathlib.Core.Bool.{true≢false}
use bdev_ubi.Common.{
  ℕ, zero, suc, ◌%◌, sym, ◌∙◌, not, ◌&&◌, ◌||◌, Option, none, some, ◌==◌, ltb, is_zero, neg, einval,
  enomem, ap,
}
use bdev_ubi.Posix.{Memory}
use bdev_ubi.Dd.{Job, on_input, on_output, read_region_start, write_region_start, update, add64}
use bdev_ubi.Dd.Copy.{exit}
use bdev_ubi.Dd.Setup.{Settings, Device, Setup, returned, goes_on, enospc}
use bdev_ubi.Dd.Prepare.{
  overflows, first_setup, read_input_flags, read_output_flags, open_input, write_size, size_copy,
  check_output, open_output, check_unit, Host, allocate, ring_flags, start_ring, prepare,
  fresh_unit,
}
use bdev_ubi.Dd.Checks.{IsValid}
use bdev_ubi.Dd.Accepted.Attempts.{Holds, bind_lem, refuse_lem, guard_lem, if_lem, case_lem}
use bdev_ubi.Dd.Closed.{NoneOpened, IsOpened}
use bdev_ubi.Dd.Closed.Opened.{
  Unopened, input_flags_lem, output_flags_lem, input_file_lem, input_bdev_lem, placed-IsOpened,
  HalfOf, HasInput, HasBoth, BothOf, output_file_lem, output_bdev_lem, unopened_lem,
}

abbrev NoneOf : Job → Type 0
NoneOf s = NoneOpened on_input s.calls × NoneOpened on_output s.calls

abbrev InputOf : Job → Type 0
InputOf s = IsOpened s.input.type on_input s.input s.calls × NoneOpened on_output s.calls

abbrev AllOf : Job → Type 0
AllOf s =
    IsOpened s.input.type on_input s.input s.calls
    × IsOpened s.output.type on_output s.output s.calls

module _ (g : Settings) (valid : IsValid g) where
  open_input_lem : (d : Device) (t : Setup) → Unopened t.job → Holds HasInput (open_input g d t)
  unfolding open_input
  open_input_lem d t h =
      bind_lem HalfOf HasInput _ _
        (case_lem HalfOf g.input_file _ _
          (λ e.
            let f = read_input_flags t.input_flags t in
            input_file_lem d f.1 f.0 (input_flags_lem NoneOf t.input_flags t h))
          (λ e.
            case_lem HalfOf g.input_bdev _ _ (λ f. input_bdev_lem t.opts.input_offset d t h)
              (λ f. absurd (true≢false (sym (valid.one_input ∙ ap not f) ∙ e)))))
        (λ r h x. (
          placed-IsOpened r.1.type on_input r.1 (read_region_start r.0.opts) r.0.job.calls (h x).0,
          (h x).1,
        ))

  size_lem : (t : Setup) → HasInput t → Holds HasInput (size_copy g t)
  unfolding size_copy
  size_lem t h = if_lem HasInput (overflows t.opts) _ _ tt (
      guard_lem HasInput (g.input_bdev && ltb t.job.input.total_size t.job.input.pos) (neg enospc) t
        _
        (λ far.
          guard_lem HasInput
            (not (t.opts.io_unit_count == 0)
              && (g.input_bdev
                  && ltb t.job.input.total_size (add64 (write_size t.opts) t.job.input.pos)))
            (neg enospc) t _ (λ many. h)))

  check_output_lem : (t : Setup) → HasBoth t → Holds HasBoth (check_output t)
  unfolding check_output
  check_output_lem t h =
      guard_lem HasBoth (ltb t.job.output.total_size t.job.output.pos) (neg enospc) t _ (λ far.
        refuse_lem HasBoth
          (not (t.opts.io_unit_count == 0)
            && ltb t.job.output.total_size (add64 (write_size t.opts) t.job.output.pos))
          (neg enospc) t (λ many. h))

  open_output_lem : (d : Device) (t : Setup) → HasInput t → Holds HasBoth (open_output g d t)
  unfolding open_output
  open_output_lem d t h =
      bind_lem BothOf HasBoth _ _
        (case_lem BothOf g.output_file _ _
          (λ e.
            let f = read_output_flags t.output_flags t in
            output_file_lem d f.1 f.0 (output_flags_lem InputOf t.output_flags t h))
          (λ e.
            case_lem BothOf g.output_bdev _ _ (λ f. output_bdev_lem t.opts.output_offset d t h)
              (λ f. absurd (true≢false (sym (valid.one_output ∙ ap not f) ∙ e)))))
        (λ r k.
          let placed = record r.0 {
            job = record r.0.job { output = record r.1 { pos = write_region_start t.opts } };
          } in
          let both : HasBoth placed = λ x. (
            (k x).0,
            placed-IsOpened r.1.type on_output r.1 (write_region_start t.opts) r.0.job.calls
                (k x).1,
          ) in
          if_lem HasBoth (not g.output_file && g.output_bdev) (check_output placed) (goes_on placed)
            (check_output_lem placed both) both)

  check_unit_lem : (t : Setup) → HasBoth t → Holds HasBoth (check_unit g t)
  unfolding check_unit
  check_unit_lem t h =
      guard_lem HasBoth
        (ltb t.opts.io_unit_size t.job.output.block_size
          || ltb t.opts.io_unit_size t.job.input.block_size)
        (neg einval) t _
        (λ e.
          refuse_lem HasBoth
            (g.input_bdev && not (t.opts.io_unit_size % t.job.input.block_size == 0)) (neg einval) t
            (λ f. h))

  buffer_lem :
      (b : Option Memory) (n : ℕ) (u : Setup)
      → HasBoth u
      → Holds HasBoth (elim b [
        | none ↦ returned (exit (neg enomem) u.job)
        | some buf ↦ goes_on (record u {
          job = record u.job { ios = update u.job.ios n (fresh_unit u.opts.io_unit_size buf) };
        })
      ])
  buffer_lem none n u h = tt
  buffer_lem (some buf) n u h = h

  allocate_lem :
      (buffers : ℕ → Option Memory) (n : ℕ) (t : Setup)
      → HasBoth t
      → Holds HasBoth (allocate buffers n t)
  unfolding allocate
  allocate_lem buffers zero t h = h
  allocate_lem buffers (suc n) t h =
      bind_lem HasBoth HasBoth (allocate buffers n t) _ (allocate_lem buffers n t h)
        (λ u k. buffer_lem (buffers n) n u k)

  start_lem : (h : Host) (t : Setup) → HasBoth t → Holds HasBoth (start_ring g h t)
  unfolding start_ring ring_flags
  start_lem h t r =
      let u = (ring_flags t).0 in
      let v = (read_input_flags t.input_flags t).0 in
      let again =
        output_flags_lem AllOf v.output_flags v (input_flags_lem AllOf t.input_flags t r) in
      if_lem HasBoth ((g.input_file || g.output_file) && not t.opts.aio) _ (goes_on t)
        (guard_lem HasBoth (not (is_zero h.ring_rc)) h.ring_rc u _ (λ e.
          guard_lem HasBoth (not (is_zero h.files_rc)) h.files_rc u _
            (λ e'. refuse_lem HasBoth (not (is_zero h.buffers_rc)) h.buffers_rc u (λ e''. again))))
        r

  -- With options that main lets through, and without a call of dd_exit: dd_run gets to its last loop with
  -- both targets open, and each was opened once.
  pub prepare_opened :
      (disk : Memory) (d e : Device) (h : Host)
      → Holds HasBoth (prepare g d e h (first_setup g disk))
  unfolding prepare
  prepare_opened disk d e h =
      bind_lem HasInput HasBoth _ _ (open_input_lem d (first_setup g disk) (unopened_lem g disk))
        (λ input p. bind_lem HasInput HasBoth _ _ (size_lem input p) (λ sized q.
          bind_lem HasBoth HasBoth _ _ (open_output_lem e sized q) (λ output r.
            bind_lem HasBoth HasBoth _ _ (check_unit_lem output r) (λ checked c.
              guard_lem HasBoth (not h.has_ios) (neg enomem) checked _ (λ ios.
                bind_lem HasBoth HasBoth _ _
                  (allocate_lem h.buffers checked.opts.queue_depth checked c)
                  (λ ready u. start_lem h ready u))))))
