-- ===== src/Dd/Accepted/Units.antt =====
-- dd_run of src/app/spdk_dd.c from the allocation of the units to its last loop.
use bdev_ubi.Common.{
  ℕ, zero, suc, ◌%◌, ◌<◌, ◌≡◌, ◌≢◌, refl, sym, ap, ◌∙◌, inl, inr, false, not, ◌&&◌, ◌||◌, Option,
  none, some, List, ◌==◌, ltb, Bool-cases, pos, is_zero, neg, einval, enomem, arith,
}
use bdev_ubi.Posix.{Memory, FilePath}
use bdev_ubi.Dd.{Opts, Job, read_region_start, write_region_start, update}
use bdev_ubi.Dd.Copy.{exit}
use bdev_ubi.Dd.Flags.{OpenFlag, disk_after, parse_flags}
use bdev_ubi.Dd.Invariant.Start.{IsFresh}
use bdev_ubi.Dd.Setup.{Settings, opts_of, Device, Setup, returned, goes_on}
use bdev_ubi.Dd.Prepare.{
  write_size, fresh_unit, first_setup, flags_or_exit, read_input_flags, read_output_flags,
  check_unit, Host, allocate, ring_flags, start_ring, prepare,
}
use bdev_ubi.Dd.Accepted.Attempts.{Holds, bind_lem, refuse_lem, guard_lem, if_lem, SameOpts}
use bdev_ubi.Dd.Accepted.Quiet.{Quiet, first_lem, Placed, open_input_lem}
use bdev_ubi.Dd.Accepted.Sized.{region_lem, InInput, InOutput, IsSized, size_lem}
use bdev_ubi.Dd.Accepted.Outputs.{sized_lem, IsOpen, at_lem, open_output_lem}

module _ (g : Settings) (disk : Memory) where
  pub unit_lem : (t : Setup) → (IsOpen g disk) t → Holds (IsOpen g disk) (check_unit g t)
  unfolding check_unit
  unit_lem t s =
      guard_lem (IsOpen g disk)
        (ltb t.opts.io_unit_size t.job.output.block_size
          || ltb t.opts.io_unit_size t.job.input.block_size)
        (neg einval) t _
        (λ e.
          refuse_lem (IsOpen g disk)
            (g.input_bdev && not (t.opts.io_unit_size % t.job.input.block_size == 0)) (neg einval) t
            (λ e'. s))

  -- After the first `n` units have their buffers.
  pub record HasUnits (n : ℕ) (t u : Setup) : Type 0 where
    pub opened : (IsOpen g disk) u
    pub same : u.opts ≡ t.opts
    pub fresh : (i : ℕ) → i < n → IsFresh (opts_of g) (u.job.ios i)

  pub with_unit : Setup → ℕ → Memory → Setup
  with_unit u n buf = record u {
    job = record u.job { ios = update u.job.ios n (fresh_unit u.opts.io_unit_size buf) };
  }

  pub with_unit-Quiet :
      (u : Setup) (n : ℕ) (buf : Memory) → (Quiet g disk) u → (Quiet g disk) (with_unit u n buf)
  unfolding with_unit
  with_unit-Quiet u n buf q = record {
    same_opts = q.same_opts;
    calm = q.calm;
    running = q.running;
    idle = q.idle;
    free = λ i. elim (Bool-cases (i == n)) [ inl e ↦ rw e refl | inr e ↦ rw e (q.free i) ];
    untouched = q.untouched;
  }

  pub with_unit_lem :
      (n : ℕ) (t u : Setup) (buf : Memory) → HasUnits n t u → HasUnits (suc n) t (with_unit u n buf)
  unfolding with_unit
  with_unit_lem n t u buf h = record {
    opened = record {
      sized =
          (sized_lem g disk) u (with_unit u n buf) h.opened.sized
            (with_unit-Quiet u n buf h.opened.sized.quiet) refl refl;
      out_placed = h.opened.out_placed;
      in_output = h.opened.in_output;
    };
    same = h.same;
    fresh = λ i l. elim (Bool-cases (i == n)) [
      | inl e ↦ rw e (refl, h.opened.sized.quiet.same_opts.2)
      | inr e ↦ rw e (h.fresh i (ground arith))
    ];
  }

  pub allocate_lem :
      (buffers : ℕ → Option Memory) (n : ℕ) (t : Setup)
      → (IsOpen g disk) t
      → Holds (HasUnits n t) (allocate buffers n t)
  unfolding allocate with_unit
  allocate_lem buffers zero t s = record {
    opened = s;
    same = refl;
    fresh = λ i l. absurd (omega (arith, l));
  }
  allocate_lem buffers (suc n) t s =
      bind_lem (HasUnits n t) (HasUnits (suc n) t) (allocate buffers n t) _
        (allocate_lem buffers n t s) (λ u h. with_buffer (buffers n) u h)
    where
      with_buffer :
          (b : Option Memory) (u : Setup)
          → HasUnits n t u
          → Holds (HasUnits (suc n) t) (elim b [
            | none ↦ returned (exit (neg enomem) u.job)
            | some buf ↦ goes_on (with_unit u n buf)
          ])
      with_buffer none u h = tt
      with_buffer (some buf) u h = with_unit_lem n t u buf h

  -- What the last loop of dd_run starts from.
  pub record IsAccepted (o : Opts) (s : Job) (f : List (List OpenFlag)) : Type 0 where
    pub same_opts : SameOpts (opts_of g) o
    pub calm : s.error ≡ pos 0
    pub running : s.interrupt ≡ false
    pub idle : s.outstanding ≡ 0
    pub at_start : s.input.pos ≡ read_region_start o
    pub out_at_start : s.output.pos ≡ write_region_start o
    pub fresh : (i : ℕ) → i < o.queue_depth → IsFresh o (s.ios i)
    pub free : (i : ℕ) → (s.ios i).flight ≡ none
    pub untouched : (x : ℕ) → s.disk x ≡ disk_after f disk x
    pub counted : (opts_of g).io_unit_count ≢ 0 → s.copy_size ≡ write_size (opts_of g)
    pub in_input : (InInput g disk) s
    pub in_output : (InOutput g disk) s

  pub units_lem : (t u : Setup) → HasUnits t.opts.queue_depth t u → IsAccepted u.opts u.job u.opened
  units_lem t u h =
      let q = h.opened.sized.quiet in
      record {
        same_opts = q.same_opts;
        calm = q.calm;
        running = q.running;
        idle = q.idle;
        at_start = h.opened.sized.placed ∙ sym ((region_lem g disk) u.opts q.same_opts);
        out_at_start = h.opened.out_placed ∙ sym ((at_lem g disk) u h.opened.sized);
        fresh = λ i l.
            let f = h.fresh i (rw (ap (λ (o : Opts). o.queue_depth) h.same) at l) in
            (f.0, f.1 ∙ sym q.same_opts.2);
        free = q.free;
        untouched = q.untouched;
        counted = h.opened.sized.counted;
        in_input = h.opened.sized.in_input;
        in_output = h.opened.in_output;
      }

  abbrev pub Ready : Setup → Type 0
  Ready t = IsAccepted t.opts t.job t.opened

  pub told_again : (r : Option (List OpenFlag)) (t : Setup) → Ready t → Ready (flags_or_exit r t).0
  unfolding flags_or_exit exit
  told_again none t h = record {
    same_opts = h.same_opts;
    calm = h.calm;
    running = h.running;
    idle = h.idle;
    at_start = h.at_start;
    out_at_start = h.out_at_start;
    fresh = h.fresh;
    free = h.free;
    untouched = h.untouched;
    counted = h.counted;
    in_input = h.in_input;
    in_output = h.in_output;
  }
  told_again (some flags) t h = h

  pub input_again : (f : Option FilePath) (t : Setup) → Ready t → Ready (read_input_flags f t).0
  unfolding read_input_flags
  input_again none t h = h
  input_again (some s) t h = told_again (parse_flags s).0 _ h

  pub output_again : (f : Option FilePath) (t : Setup) → Ready t → Ready (read_output_flags f t).0
  unfolding read_output_flags
  output_again none t h = h
  output_again (some s) t h = told_again (parse_flags s).0 _ h

  pub start_lem : (h : Host) (t : Setup) → Ready t → Holds Ready (start_ring g h t)
  unfolding start_ring ring_flags
  start_lem h t r =
      let u = (ring_flags t).0 in
      let v = (read_input_flags t.input_flags t).0 in
      let again = output_again v.output_flags v (input_again t.input_flags t r) in
      if_lem Ready ((g.input_file || g.output_file) && not t.opts.aio) _ (goes_on t)
        (guard_lem Ready (not (is_zero h.ring_rc)) h.ring_rc u _ (λ e.
          guard_lem Ready (not (is_zero h.files_rc)) h.files_rc u _
            (λ e'. refuse_lem Ready (not (is_zero h.buffers_rc)) h.buffers_rc u (λ e''. again))))
        r

  pub prepare_lem : (d e : Device) (h : Host) → Holds Ready (prepare g d e h (first_setup g disk))
  unfolding prepare
  prepare_lem d e h =
      bind_lem (Placed g disk) Ready _ _
        ((open_input_lem g disk) d (first_setup g disk) (first_lem g disk))
        (λ input p. bind_lem (IsSized g disk) Ready _ _ ((size_lem g disk) input p) (λ sized s.
          bind_lem (IsOpen g disk) Ready _ _ ((open_output_lem g disk) e sized s) (λ output q.
            bind_lem (IsOpen g disk) Ready _ _ (unit_lem output q) (λ checked c.
              guard_lem Ready (not h.has_ios) (neg enomem) checked _ (λ ios.
                bind_lem (HasUnits checked.opts.queue_depth checked) Ready _ _
                  (allocate_lem h.buffers checked.opts.queue_depth checked c)
                  (λ ready u. start_lem h ready (units_lem checked ready u)))))))
