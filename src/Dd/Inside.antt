-- ===== src/Dd/Inside.antt =====
-- The submissions of src/app/spdk_dd.c to an output bdev lie within it, where --count is given.
use native.Mathlib.Nat.{dvd-sub, dvd_of_mod-eq-zero, mod-eq-zero_of_dvd, dvd-mul_left_of_dvd}
use bdev_ubi.Common.{
  ℕ, ◌+◌, ◌*◌, ◌%◌, ◌^◌, ◌≤◌, ◌<◌, ◌≡◌, ◌≢◌, sym, ap, ◌∙◌, inl, inr, true, false, Option, some, [],
  arith, subst,
}
use bdev_ubi.Posix.{Memory}
use bdev_ubi.Dd.{
  Opts, Operation, read_input, read_output, write_output, seek_data, seek_hole, SubmitType,
  dd_populate, dd_read, dd_write, Submission, Io, Job, write_region_start, file,
}
use bdev_ubi.Dd.Setup.{Settings, opts_of, Device, Setup, goes_on}
use bdev_ubi.Dd.Prepare.{first_setup, Host, prepare}
use bdev_ubi.Dd.Invariant.{Plan, IsPlan, Region, Stage, IsUnit, target_of, whole_of}
use bdev_ubi.Dd.Invariant.Writes.{whole_exact}
use bdev_ubi.Dd.Invariant.Finish.{Inv}
use bdev_ubi.Dd.Run.{Reaches, Reaches-Inv}
use bdev_ubi.Dd.Whole.{plan_of, accepted_lem, ready_lem}

-- A read or a write of the output.
abbrev pub IsOutput : Operation → Type 0
IsOutput read_input = ⊥
IsOutput read_output = Unit {0}
IsOutput write_output = Unit {0}
IsOutput seek_data = ⊥
IsOutput seek_hole = ⊥

module _ (ceil_div : ℕ → ℕ → ℕ) (o : Opts) (p : Plan) (plan : IsPlan ceil_div o p) where
  Stage-output :
      (k : SubmitType) (io : Io) (sub : Submission)
      → Stage ceil_div o p k io sub
      → IsOutput sub.operation
      → (sub.offset ≡ target_of ceil_div o p io) × (sub.length ≡ whole_of ceil_div o p io)
  Stage-output dd_populate io sub q h =
      (ap (λ (x : Submission). x.offset) q, ap (λ (x : Submission). x.length) q)
  Stage-output dd_read io sub q h =
      absurd (subst IsOutput (ap (λ (x : Submission). x.operation) q.0) h)
  Stage-output dd_write io sub q h =
      (ap (λ (x : Submission). x.offset) q.0, ap (λ (x : Submission). x.length) q.0)

  -- Where the copy is of whole blocks, so are its units.
  length_lem :
      (at : ℕ) (io : Io)
      → Region ceil_div o p at io
      → p.size % p.block ≡ 0
      → io.length % p.block ≡ 0
  length_lem at io r z = elim r.3 [
    | inl m ↦ m
    | inr end ↦
        ap (λ (x : ℕ). x % p.block) (omega (arith, end, r.0))
        ∙ mod-eq-zero_of_dvd p.block
            (dvd-sub p.block (dvd_of_mod-eq-zero p.block z) (dvd_of_mod-eq-zero p.block r.4))
  ]

  output_lem :
      (u : Job) (i : ℕ) (sub : Submission)
      → Inv ceil_div o p u
      → p.size % p.block ≡ 0
      → i < p.n
      → (u.ios i).flight ≡ some sub
      → IsOutput sub.operation
      → sub.offset + sub.length ≤ write_region_start o + p.size
  output_lem u i sub inv z hi e h =
      let x =
        subst (λ (f : Option Submission). IsUnit ceil_div o p u.input.pos (u.ios i) f) e
          (inv.core.units i hi) in
      let io = u.ios i in
      let q = Stage-output io.type io sub x.1 h in
      let w =
        whole_exact (ceil_div io.length p.block) io.length p.block (length_lem u.input.pos io x.0 z)
          (plan.rounding io.length p.block plan.some_block).1 in
      omega (arith, q.0, q.1, w, x.0.0, x.0.1, inv.core.high)

module _ (g : Settings) (disk : Memory) (d e : Device) (h : Host) (t : Setup)
    (accepted : prepare g d e h (first_setup g disk) ≡ goes_on t) (untold : t.job.exits ≡ [])
    (from_file : t.opts.sparse ≡ true → t.job.input.type ≡ file) (input : Memory)
    (ceil_div : ℕ → ℕ → ℕ) (plan : IsPlan ceil_div t.opts (plan_of t input disk)) where
  size_lem :
      (opts_of g).io_unit_count ≢ 0
      → (opts_of g).io_unit_count * (opts_of g).io_unit_size < 2 ^ 64
      → t.job.copy_size % t.job.output.block_size ≡ 0
  size_lem n fits =
      let q = accepted_lem g disk d e h t accepted in
      let unit =
        ap (λ (x : ℕ). x % t.job.output.block_size) (sym q.same_opts.2) ∙ plan.unit_blocks in
      let size : t.job.copy_size ≡ (opts_of g).io_unit_count * (opts_of g).io_unit_size =
        omega (arith, q.counted n, fits) in
      ap (λ (x : ℕ). x % t.job.output.block_size) size
      ∙ mod-eq-zero_of_dvd t.job.output.block_size (
          dvd-mul_left_of_dvd t.job.output.block_size
            (dvd_of_mod-eq-zero t.job.output.block_size unit) (opts_of g).io_unit_count)

  -- Under the conditions of `run_copied`, for an output bdev and a --count that is not 0, and whose
  -- bytes fit uint64_t: at every point of the copy each read and each write of the output that is in
  -- flight lies within the bdev, so the checks of --seek and --count are enough for it.
  pub run_writes_inside :
      g.output_file ≡ false
      → g.output_bdev ≡ true
      → (opts_of g).io_unit_count ≢ 0
      → (opts_of g).io_unit_count * (opts_of g).io_unit_size < 2 ^ 64
      → {k : ℕ} {u : Job} → Reaches ceil_div t.opts (plan_of t input disk) t.job k u
      → (i : ℕ) (sub : Submission) → i < t.opts.queue_depth
      → (u.ios i).flight ≡ some sub
      → IsOutput sub.operation
      → sub.offset + sub.length ≤ t.job.output.total_size
  run_writes_inside nf b n fits {k} {u} r i sub hi f q =
      let acc = accepted_lem g disk d e h t accepted in
      let ready = ready_lem g disk d e h t accepted untold from_file input in
      let inv = Reaches-Inv ceil_div t.opts (plan_of t input disk) plan t.job ready r in
      let inside = acc.in_output nf b n (omega (arith, acc.out_at_start, plan.output_fits)) in
      omega (
        arith,
        acc.out_at_start,
        inside,
        output_lem ceil_div t.opts (plan_of t input disk) plan u i sub inv (size_lem n fits) hi f q,
      )
