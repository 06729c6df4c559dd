-- ===== src/Dd/Accepted/Outputs.antt =====
-- dd_run of src/app/spdk_dd.c opens the output, and checks its size.
use bdev_ubi.Common.{
  ℕ, ◌≡◌, refl, sym, ap, ◌∙◌, true, false, not, ◌&&◌, Option, none, some, List, ◌==◌, ltb, is_neg,
  neg,
}
use mathlib.Core.Bool.{true≢false}
use bdev_ubi.Posix.{Memory, FilePath}
use bdev_ubi.Dd.{Target, add64, write_region_start, on_output}
use bdev_ubi.Dd.Copy.{exit}
use bdev_ubi.Dd.Flags.{open_flags, OpenFlag, parse_flags}
use bdev_ubi.Dd.Setup.{Settings, opts_of, Device, Setup, limit_by_size, enospc}
use bdev_ubi.Dd.Prepare.{
  overflows, open_file, open_bdev, flags_or_exit, read_output_flags, write_size, check_output,
  open_output,
}
use bdev_ubi.Dd.Accepted.Attempts.{
  Holds, bind_lem, mono_lem, refuse_lem, guard_lem, if_lem, case_lem, count_lem,
}
use bdev_ubi.Dd.Accepted.Quiet.{Quiet, quiet_lem, opened_lem, output_flags_lem}
use bdev_ubi.Dd.Accepted.Sized.{write_size_lem, InOutput, IsSized, no_zero, counted_bound}

module _ (g : Settings) (disk : Memory) where
  pub sized_lem :
      (t u : Setup)
      → (IsSized g disk) t
      → (Quiet g disk) u
      → u.job.input ≡ t.job.input
      → u.job.copy_size ≡ t.job.copy_size
      → (IsSized g disk) u
  sized_lem t u s q i c = record {
    quiet = q;
    placed = ap (λ (x : Target). x.pos) i ∙ s.placed;
    counted = λ n. c ∙ s.counted n;
    in_input = λ b fits total. rw (i, c) (s.in_input b (rw (i, c) at fits) (rw i at total));
  }

  -- What the targets' opening leaves as it was.
  abbrev pub Kept : Setup → Setup × Target → Type 0
  Kept t r =
      (Quiet g disk) r.0 × (r.0.job.input ≡ t.job.input) × (r.0.job.copy_size ≡ t.job.copy_size)

  pub open_file-Kept :
      (d : Device) (flags : List OpenFlag) (t : Setup)
      → (Quiet g disk) t
      → Holds (Kept t) (open_file false d flags t)
  unfolding open_file
  open_file-Kept d flags t q = if_lem (Kept t) (is_neg d.open_rc) _ _ tt (
      if_lem (Kept t) (d.file_size == 0 && overflows t.opts) _ _ tt (
        (opened_lem g disk) (open_flags false flags) t _ q
            (count_lem (opts_of g) t.opts q.same_opts) refl refl refl refl refl,
        refl,
        refl,
      ))

  pub open_bdev-Kept :
      (skip : ℕ) (d : Device) (t : Setup)
      → (Quiet g disk) t
      → Holds (Kept t) (open_bdev on_output skip d t)
  unfolding open_bdev
  open_bdev-Kept skip d t q = if_lem (Kept t) (is_neg d.open_rc) _ _ tt (
      if_lem (Kept t) (not d.has_channel) _ _ tt (
        (quiet_lem g disk) t _ q (count_lem (opts_of g) (limit_by_size _ _ _) q.same_opts) refl refl
            refl refl refl,
        refl,
        refl,
      ))

  pub result_kept :
      (r : Option (List OpenFlag)) (t : Setup)
      → ((flags_or_exit r t).0.job.input ≡ t.job.input)
        × ((flags_or_exit r t).0.job.copy_size ≡ t.job.copy_size)
  unfolding flags_or_exit exit
  result_kept none t = (refl, refl)
  result_kept (some flags) t = (refl, refl)

  pub flags_kept :
      (f : Option FilePath) (t : Setup)
      → ((read_output_flags f t).0.job.input ≡ t.job.input)
        × ((read_output_flags f t).0.job.copy_size ≡ t.job.copy_size)
  unfolding read_output_flags
  flags_kept none t = (refl, refl)
  flags_kept (some s) t = result_kept (parse_flags s).0 _

  pub record IsOpen (t : Setup) : Type 0 where
    pub sized : (IsSized g disk) t
    pub out_placed : t.job.output.pos ≡ write_region_start (opts_of g)
    pub in_output : (InOutput g disk) t.job

  pub check_output_lem :
      (t : Setup)
      → (IsSized g disk) t
      → t.job.output.pos ≡ write_region_start (opts_of g)
      → Holds IsOpen (check_output t)
  unfolding check_output
  check_output_lem t s at = guard_lem IsOpen _ (neg enospc) t _ (λ far.
      refuse_lem IsOpen
        (not (t.opts.io_unit_count == 0)
          && ltb t.job.output.total_size (add64 (write_size t.opts) t.job.output.pos))
        (neg enospc) t
        (λ many. record {
          sized = s;
          out_placed = at;
          in_output = λ nf b n fits.
              let c = s.counted n in
              let w = (write_size_lem g disk) t.opts s.quiet.same_opts in
              let z =
                (no_zero g disk) t.opts.io_unit_count (λ z. n (sym s.quiet.same_opts.3 ∙ z)) in
              let many' = rw (z, w) at many in
              let fits' = rw c at fits in
              rw c (
                (counted_bound g disk) (write_size (opts_of g)) t.job.output.pos
                  t.job.output.total_size many' fits');
        }))

  pub bdev_lem :
      g.output_file ≡ false → g.output_bdev ≡ true → (not g.output_file && g.output_bdev) ≡ true
  bdev_lem nf b = rw (nf, b) refl

  pub absent_lem :
      (A : Type 0)
      → g.output_file ≡ false
      → g.output_bdev ≡ true
      → (not g.output_file && g.output_bdev) ≡ false
      → A
  absent_lem A nf b e = absurd (true≢false (sym (bdev_lem nf b) ∙ e))

  pub file-Kept :
      (d : Device) (t : Setup)
      → (IsSized g disk) t
      → Holds (Kept t) (
          open_file false d
            (read_output_flags t.output_flags t).1
            (read_output_flags t.output_flags t).0)
  file-Kept d t s =
      let f = flags_kept t.output_flags t in
      let u = (read_output_flags t.output_flags t).0 in
      mono_lem (Kept u) (Kept t) (open_file false d (read_output_flags t.output_flags t).1 u)
        (open_file-Kept d (read_output_flags t.output_flags t).1 u
          ((output_flags_lem g disk) t.output_flags t s.quiet))
        (λ r k. (k.0, k.1 ∙ f.0, k.2 ∙ f.1))

  pub at_lem :
      (t : Setup) → (IsSized g disk) t → write_region_start t.opts ≡ write_region_start (opts_of g)
  at_lem t s = rw (s.quiet.same_opts.1, s.quiet.same_opts.2) refl

  pub placed-IsSized :
      (t : Setup) (r : Setup × Target)
      → (IsSized g disk) t
      → Kept t r
      → (IsSized g disk) (record r.0 {
        job = record r.0.job { output = record r.1 { pos = write_region_start t.opts } };
      })
  placed-IsSized t r s k =
      sized_lem t _ s ((quiet_lem g disk) r.0 _ k.0 k.0.same_opts refl refl refl refl refl) k.1 k.2

  pub open_output_lem :
      (d : Device) (t : Setup) → (IsSized g disk) t → Holds IsOpen (open_output g d t)
  unfolding open_output
  open_output_lem d t s =
      bind_lem (Kept t) IsOpen _ _
        (if_lem (Kept t) g.output_file _ _ (file-Kept d t s) (
          if_lem (Kept t) g.output_bdev _ _ (open_bdev-Kept t.opts.output_offset d t s.quiet)
            (s.quiet, refl, refl)))
        (λ r k.
          case_lem IsOpen (not g.output_file && g.output_bdev) _ _
            (λ e. check_output_lem _ (placed-IsSized t r s k) (at_lem t s))
            (λ e. record {
              sized = placed-IsSized t r s k;
              out_placed = at_lem t s;
              in_output = λ nf b. absent_lem _ nf b e;
            }))
