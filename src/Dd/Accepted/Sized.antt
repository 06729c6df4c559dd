-- ===== src/Dd/Accepted/Sized.antt =====
-- The checks of the input's size in dd_run of src/app/spdk_dd.c.
use bdev_ubi.Common.{
  ℕ, ◌+◌, ◌^◌, ◌≤◌, ◌<◌, ◌≡◌, ◌≢◌, refl, sym, ◌∙◌, inl, inr, Bool, true, false, not, ◌&&◌, ◌==◌,
  ==_iff, ltb, Bool-cases, if◌then◌else◌, neg, arith,
}
use bdev_ubi.Posix.{Memory}
use bdev_ubi.Dd.{Opts, Job, add64, sub64, read_region_start}
use bdev_ubi.Dd.Setup.{Settings, opts_of, Setup, enospc}
use bdev_ubi.Dd.Prepare.{overflows, write_size, size_copy}
use bdev_ubi.Dd.Accepted.Attempts.{Holds, guard_lem, SameOpts, if_lem}
use bdev_ubi.Dd.Accepted.Quiet.{Quiet, quiet_lem, Placed}

module _ (g : Settings) (disk : Memory) where
  pub region_lem :
      (o : Opts) → SameOpts (opts_of g) o → read_region_start o ≡ read_region_start (opts_of g)
  region_lem o h = rw (h.0, h.2) refl

  pub write_size_lem : (o : Opts) → SameOpts (opts_of g) o → write_size o ≡ write_size (opts_of g)
  write_size_lem o h = rw (h.2, h.3) refl

  -- The input has the bytes of the copy, where it is a bdev and the sum does not wrap.
  abbrev pub InInput : Job → Type 0
  InInput s =
      g.input_bdev ≡ true
      → s.input.pos + s.copy_size < 2 ^ 64
      → s.input.total_size < 2 ^ 64
      → s.input.pos + s.copy_size ≤ s.input.total_size

  -- So has an output that is a bdev, where the copy has a count.
  abbrev pub InOutput : Job → Type 0
  InOutput s =
      g.output_file ≡ false
      → g.output_bdev ≡ true
      → (opts_of g).io_unit_count ≢ 0
      → s.output.pos + s.copy_size < 2 ^ 64
      → s.output.pos + s.copy_size ≤ s.output.total_size

  pub record IsSized (t : Setup) : Type 0 where
    pub quiet : (Quiet g disk) t
    pub placed : t.job.input.pos ≡ read_region_start (opts_of g)
    pub counted : (opts_of g).io_unit_count ≢ 0 → t.job.copy_size ≡ write_size (opts_of g)
    pub in_input : InInput t.job

  pub no_zero : (n : ℕ) → n ≢ 0 → (n == 0) ≡ false
  no_zero n h = ground arith

  pub is_zero_lem : (n : ℕ) → (n == 0) ≡ true → n ≡ 0
  is_zero_lem n h = (==_iff n 0).0 h

  pub counted_bound :
      (size at total : ℕ)
      → ltb total (add64 size at) ≡ false
      → at + size < 2 ^ 64
      → at + size ≤ total
  counted_bound size at total h l = ground arith

  pub rest_bound :
      (at total : ℕ) → ltb total at ≡ false → total < 2 ^ 64 → at + sub64 total at ≤ total
  rest_bound at total h l = ground arith

  module _ (t : Setup) (p : (Placed g disk) t) where
    too_far : Bool
    too_far = g.input_bdev && ltb t.job.input.total_size t.job.input.pos

    too_many : Bool
    too_many =
        not (t.opts.io_unit_count == 0)
        && (g.input_bdev && ltb t.job.input.total_size (add64 (write_size t.opts) t.job.input.pos))

    copy_size_of : ℕ
    copy_size_of =
        if not (t.opts.io_unit_count == 0)
        then write_size t.opts
        else sub64 t.job.input.total_size t.job.input.pos

    size_bound :
        too_far ≡ false
        → too_many ≡ false
        → g.input_bdev ≡ true
        → t.job.input.pos + copy_size_of < 2 ^ 64
        → t.job.input.total_size < 2 ^ 64
        → t.job.input.pos + copy_size_of ≤ t.job.input.total_size
    unfolding too_far too_many copy_size_of
    size_bound far many b fits total = elim (Bool-cases (t.opts.io_unit_count == 0)) [
      | inl z ↦
          let far' = rw b at far in
          rw z (rest_bound t.job.input.pos t.job.input.total_size far' total)
      | inr z ↦
          let many' = rw (b, z) at many in
          let fits' = rw z at fits in
          rw z
            (counted_bound (write_size t.opts) t.job.input.pos t.job.input.total_size many' fits')
    ]

    pub size_lem : Holds IsSized (size_copy g t)
    unfolding size_copy too_far too_many copy_size_of
    size_lem = if_lem IsSized (overflows t.opts) _ _ tt (
        guard_lem IsSized too_far (neg enospc) t _ (λ far.
          guard_lem IsSized too_many (neg enospc) t _ (λ many. record {
            quiet = (quiet_lem g disk) t _ p.0 p.0.same_opts refl refl refl refl refl;
            placed = p.1 ∙ region_lem t.opts p.0.same_opts;
            counted = λ n.
                rw (no_zero t.opts.io_unit_count (λ z. n (sym p.0.same_opts.3 ∙ z)))
                  (write_size_lem t.opts p.0.same_opts);
            in_input = size_bound far many;
          })))
