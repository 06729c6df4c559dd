-- ===== src/Dd/Invariant/Measure.antt =====
-- Every completion of src/app/spdk_dd.c brings a copy nearer to its end.
use Prim.Native.Nat.{min}
use bdev_ubi.Dd.Seek.{target_seek}
use bdev_ubi.Dd.Invariant.Searched.{searched-Core, searched_free}
use bdev_ubi.Dd.Invariant.Search.{IsSearch, searched, seek_cases}
use bdev_ubi.Common.{
  ℕ, ◌+◌, ◌-◌, ◌*◌, ◌≤◌, ◌<◌, ◌≡◌, refl, ap, inl, inr, Option, none, some, ◌==◌, arith, pos,
  Bool-cases, is_zero,
}
use bdev_ubi.Posix.{overwrite}
use bdev_ubi.Dd.{
  Opts, SubmitType, dd_populate, dd_read, dd_write, Submission, Io, Job, read_region_start, Answers,
}
use bdev_ubi.Dd.Copy.{finish, target_populate_buffer, exit, show_progress}
use bdev_ubi.Dd.Events.{deliver, polled}
use bdev_ubi.Dd.Invariant.{Plan, IsPlan, Region, Stage, Core, target_of, whole_of}
use bdev_ubi.Dd.Invariant.Total.{weight, weight_flight, to_come, sum, sum-update}
use bdev_ubi.Dd.Invariant.Moves.{written}
use bdev_ubi.Dd.Invariant.Writes.{written-Core}
use bdev_ubi.Dd.Invariant.Steps.{same, reading, writing}
use bdev_ubi.Dd.Invariant.Finish.{Inv}
use bdev_ubi.Dd.Invariant.Take.{taken, rested, populating, take_cases}
use bdev_ubi.Dd.Invariant.Keep.{populate_lem, read_done_lem, done_lem, stage_lem, is_busy}

module _ (o : Opts) (p : Plan) where
  -- Four for each byte that was not taken, and the completions that the units in flight still need.
  unfoldable pub measure : Job → ℕ
  measure s = 4 * (p.size - (s.input.pos - read_region_start o)) + sum weight p.n s.ios

  measure-finish : (s : Job) → measure (finish s) ≡ measure s
  unfolding measure finish exit show_progress
  measure-finish s = elim (Bool-cases (s.outstanding == 0)) [
    | inl z ↦ rw z (elim (Bool-cases (is_zero s.error)) [ inl q ↦ rw q refl | inr q ↦ rw q refl ])
    | inr z ↦ rw z refl
  ]

  pub measure-tick : (s : Job) → measure (show_progress s) ≡ measure s
  unfolding measure show_progress
  measure-tick s = refl

  measure-searched :
      (s : Job) (i : ℕ)
      → i < p.n
      → (d h : ℕ) → s.input.pos ≤ d
      → (ceil_div : ℕ → ℕ → ℕ) → measure (searched ceil_div o p s i d h) ≤ measure s
  unfolding measure
  measure-searched s i hi d h l ceil_div = omega (
    arith,
    l,
    sum-update weight p.n s.ios i (record (s.ios i) { length = min o.io_unit_size (h - d) }) hi,
  )

weight_free : (io : Io) → io.flight ≡ none → weight io ≡ 0
weight_free io e = ap (λ (f : Option Submission). weight_flight f io.type) e

weight_of :
    (io : Io) (sub : Submission) (k : SubmitType)
    → io.flight ≡ some sub
    → io.type ≡ k
    → weight io ≡ to_come k
weight_of io sub k e t = rw (e, t) refl

module _ (ceil_div : ℕ → ℕ → ℕ) (o : Opts) (p : Plan) (plan : IsPlan ceil_div o p) (a : Answers)
    (ok : a.submit_rc ≡ pos 0) where
  pub measure-take :
      (s : Job) (i : ℕ)
      → Core ceil_div o p s
      → i < p.n
      → (s.ios i).flight ≡ none
      → measure o p (target_populate_buffer ceil_div o a i s) ≤ measure o p s
  unfolding measure taken populating rested
  measure-take s i c hi free =
      take_cases ceil_div o p plan a ok s i c hi free (λ t. measure o p t ≤ measure o p s)
        (λ length e z m. omega (
          arith,
          c.low,
          c.high,
          weight_free (s.ios i) free,
          sum-update weight p.n s.ios i
              (reading ceil_div o p plan a ok (taken s i length) (s.ios i).buf) hi,
        ))
        (λ length e z m. omega (
          arith,
          c.low,
          c.high,
          weight_free (s.ios i) free,
          sum-update weight p.n s.ios i (populating ceil_div o p (taken s i length)) hi,
        ))
        (λ e. omega (
          arith,
          measure-finish o p (rested s i),
          weight_free (s.ios i) free,
          sum-update weight p.n s.ios i (taken s i 0) hi,
        ))

  -- A unit that searches does not add to what is still to come either.
  pub measure-seek :
      (s : Job) (i : ℕ)
      → Core ceil_div o p s
      → i < p.n
      → (s.ios i).flight ≡ none
      → IsSearch ceil_div o p a s.input.pos
      → measure o p (target_seek ceil_div o a i s) ≤ measure o p s
  measure-seek s i c hi free honest =
      seek_cases ceil_div o p plan a s i c honest (λ t. measure o p t ≤ measure o p s)
        (λ dense. measure-take s i c hi free) (λ sp end. omega (arith, measure-finish o p s))
        (λ sp e q none_left. omega (arith, measure-finish o p s))
        (λ sp d h f. omega (
          arith,
          measure-searched o p s i hi d h f.0 ceil_div,
          measure-take (searched ceil_div o p s i d h) i
              (searched-Core ceil_div o p plan s i c hi free sp d h f) hi
              (searched_free ceil_div o p plan s i c hi free sp d h f),
        ))

  module _ (s : Job) (i : ℕ) (inv : Inv ceil_div o p s) (hi : i < p.n) (sub : Submission)
      (e : (s.ios i).flight ≡ some sub) (honest : IsSearch ceil_div o p a s.input.pos) where
    populate_down :
        Region ceil_div o p s.input.pos (s.ios i)
        → (s.ios i).type ≡ dd_populate
        → Stage ceil_div o p dd_populate (s.ios i) sub
        → measure o p (deliver ceil_div o p.input a (polled i (pos sub.length)) s) < measure o p s
    unfolding measure
    populate_down r t g = rw (populate_lem ceil_div o p plan a ok s i inv hi sub e r t g) (
        omega (
          arith,
          weight_of (s.ios i) sub dd_populate e t,
          sum-update weight p.n s.ios i
              (reading ceil_div o p plan a ok (s.ios i) (
                overwrite (s.ios i).buf 0 (λ x. s.disk (target_of ceil_div o p (s.ios i) + x))
                  (whole_of ceil_div o p (s.ios i))))
              hi,
        ))

    read_down :
        Region ceil_div o p s.input.pos (s.ios i)
        → (s.ios i).type ≡ dd_read
        → Stage ceil_div o p dd_read (s.ios i) sub
        → measure o p (deliver ceil_div o p.input a (polled i (pos sub.length)) s) < measure o p s
    unfolding measure
    read_down r t g = rw (read_done_lem ceil_div o p plan a ok s i inv hi sub e r t g) (
        omega (
          arith,
          weight_of (s.ios i) sub dd_read e t,
          sum-update weight p.n s.ios i
              (writing ceil_div o p plan a ok (s.ios i)
                (overwrite (s.ios i).buf 0 (λ x. p.input ((s.ios i).offset + x)) (s.ios i).length))
              hi,
        ))

    written_down :
        (s.ios i).type ≡ dd_write → measure o p (written ceil_div o p s i) < measure o p s
    unfolding measure
    written_down t = omega (
      arith,
      weight_of (s.ios i) sub dd_write e t,
      sum-update weight p.n s.ios i (record (s.ios i) { flight = none }) hi,
    )

    write_down :
        Region ceil_div o p s.input.pos (s.ios i)
        → (s.ios i).type ≡ dd_write
        → Stage ceil_div o p dd_write (s.ios i) sub
        → measure o p (deliver ceil_div o p.input a (polled i (pos sub.length)) s) < measure o p s
    write_down r t g = rw (done_lem ceil_div o p plan a ok s i inv hi sub e r t g) (
        omega (
          arith,
          written_down t,
          measure-seek (written ceil_div o p s i) i
              (written-Core ceil_div o p plan s i inv.core hi r g.1 g.2
                (is_busy ceil_div o p plan a ok s i inv hi sub e))
              hi (rw (same i) refl) honest,
        ))

    Stage-measure :
        (k : SubmitType)
        → (s.ios i).type ≡ k
        → Region ceil_div o p s.input.pos (s.ios i)
        → Stage ceil_div o p k (s.ios i) sub
        → measure o p (deliver ceil_div o p.input a (polled i (pos sub.length)) s) < measure o p s
    Stage-measure dd_populate t r g = populate_down r t g
    Stage-measure dd_read t r g = read_down r t g
    Stage-measure dd_write t r g = write_down r t g

    pub measure-polled :
        measure o p (deliver ceil_div o p.input a (polled i (pos sub.length)) s) < measure o p s
    measure-polled =
        let g = stage_lem ceil_div o p plan a ok s i inv hi sub e in
        Stage-measure (s.ios i).type refl g.0 g.1
