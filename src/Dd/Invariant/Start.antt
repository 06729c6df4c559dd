-- ===== src/Dd/Invariant/Start.antt =====
-- The start of src/app/spdk_dd.c: after the first calls for all units the invariant of a copy holds.
use native.Mathlib.Nat.{zero-mod}
use bdev_ubi.Common.{
  ℕ, zero, suc, ◌+◌, ◌%◌, ◌*◌, ◌≤◌, ◌<◌, ◌≡◌, sym, ap, ◌∙◌, ◌⊎◌, inl, inr, true, false, Option,
  none, ◌==◌, arith, pos, [], subst,
}
use mathlib.Core.List.{cons-ne-nil}
use bdev_ubi.Dd.{Opts, Submission, Io, Job, Answers, read_region_start, write_region_start, file}
use bdev_ubi.Dd.Seek.{target_seek, seek_units}
use bdev_ubi.Dd.Invariant.{Plan, IsPlan, Core}
use bdev_ubi.Dd.Invariant.Total.{busy, busy_flight, sum_free, weight, weight_flight}
use bdev_ubi.Dd.Invariant.Measure.{measure, measure-seek}
use bdev_ubi.Dd.Invariant.Finish.{Inv}
use bdev_ubi.Dd.Invariant.Search.{IsSearch}
use bdev_ubi.Dd.Invariant.Searched.{seek-Inv, seek_others}

-- A unit before its first call.
abbrev pub IsFresh : Opts → Io → Type 0
IsFresh o io = (io.flight ≡ none) × (io.length ≡ o.io_unit_size)

-- The job before the loop over the units.
pub record IsReady (o : Opts) (p : Plan) (s : Job) : Type 0 where
  pub sized : s.copy_size ≡ p.size
  pub blocks : s.output.block_size ≡ p.block
  pub calm : s.error ≡ pos 0
  pub running : s.interrupt ≡ false
  pub from_file : o.sparse ≡ true → s.input.type ≡ file
  pub at_start : s.input.pos ≡ read_region_start o
  pub idle : s.outstanding ≡ 0
  pub untold : s.exits ≡ []
  pub fresh : (i : ℕ) → i < p.n → IsFresh o (s.ios i)
  pub untouched : (x : ℕ) → s.disk x ≡ p.before x

-- No submission fails at the start; and of a sparse input each search is as lseek has it, and the first
-- finds data.
pub record Begins (ceil_div : ℕ → ℕ → ℕ) (o : Opts) (p : Plan) (a : ℕ → Answers) (s : Job)
    : Type 0 where
  pub accepted : (i : ℕ) → (a i).submit_rc ≡ pos 0
  pub searches :
      (k : ℕ) → k < p.n → IsSearch ceil_div o p (a k) (seek_units ceil_div o a k s).input.pos
  pub some_data : o.sparse ≡ true → (d : ℕ) × ((a 0).data_offset ≡ pos d)

module _ (ceil_div : ℕ → ℕ → ℕ) (o : Opts) (p : Plan) (plan : IsPlan ceil_div o p) (a : ℕ → Answers)
    (s : Job) (begins : Begins ceil_div o p a s) (ready : IsReady o p s) where
  ready-Core : Core ceil_div o p s
  ready-Core = record {
    sized = ready.sized;
    blocks = ready.blocks;
    from_file = ready.from_file;
    calm = ready.calm;
    running = ready.running;
    low = omega (arith, ready.at_start);
    high = omega (arith, ready.at_start);
    aligned = inl (ap (λ (x : ℕ). x % p.block) (omega (arith, ready.at_start)) ∙ zero-mod p.block);
    counted =
        ready.idle ∙ sym (sum_free busy p.n s.ios (λ i h. ap busy_flight (ready.fresh i h).0));
    units = λ i h. rw ((ready.fresh i h).0) tt;
    covered = λ j h. absurd (omega (arith, ready.at_start, h));
    untaken = λ j h l. ready.untouched (write_region_start o + j);
    ahead = λ x h. ready.untouched x;
    behind = λ x h. ready.untouched x;
  }

  -- After the calls for the first `k` units: those that follow are fresh.
  abbrev Begun : ℕ → Job → Type 0
  Begun k t =
      Core ceil_div o p t
      × (t.exits ≡ [])
      × ((0 < t.outstanding)
          ⊎ ((t.input.pos < read_region_start o + p.size)
              × (o.sparse ≡ true → (d : ℕ) × ((a k).data_offset ≡ pos d))))
      × ((i : ℕ) → k ≤ i → i < p.n → IsFresh o (t.ios i))

  module _ (k : ℕ) (hk : k < p.n) (t : Job) (b : Begun k t)
      (honest : IsSearch ceil_div o p (a k) t.input.pos) where
    call_length : 0 < (t.ios k).length
    call_length = omega (arith, (b.3 k (omega arith) hk).1, plan.unit_bytes)

    call-Inv : Inv ceil_div o p (target_seek ceil_div o (a k) k t)
    call-Inv =
        seek-Inv ceil_div o p plan t k b.0 hk (b.3 k (omega arith) hk).0 (a k) (begins.accepted k)
          honest b.1 call_length (inl (rw ((b.3 k (omega arith) hk).1) plan.unit_blocks))

    call_others :
        ((target_seek ceil_div o (a k) k t).exits ≡ [])
        × ((i : ℕ) → (i == k) ≡ false → (target_seek ceil_div o (a k) k t).ios i ≡ t.ios i)
    call_others =
        seek_others ceil_div o p plan t k b.0 hk (b.3 k (omega arith) hk).0 (a k)
          (begins.accepted k) honest b.1 call_length b.2

    call_out : 0 < (target_seek ceil_div o (a k) k t).outstanding
    call_out = elim call-Inv.phase [
      | inl (x, z) ↦ z
      | inr (x, z, q) ↦ absurd (cons-ne-nil (pos 0) [] (sym x ∙ call_others.0))
    ]

    call-Begun : Begun (suc k) (target_seek ceil_div o (a k) k t)
    call-Begun = (
      call-Inv.core,
      call_others.0,
      inl call_out,
      λ i h l. subst (IsFresh o) (sym (call_others.1 i (ground arith))) (b.3 i (omega arith) l),
    )

  begun_lem : (k : ℕ) → k ≤ p.n → Begun k (seek_units ceil_div o a k s)
  unfolding seek_units
  begun_lem zero h = (
    ready-Core,
    ready.untold,
    inr (omega (arith, ready.at_start, plan.some_bytes), begins.some_data),
    λ i l hi. ready.fresh i hi,
  )
  begun_lem (suc k) h =
      let b = begun_lem k (omega arith) in
      let t = seek_units ceil_div o a k s in
      call-Begun k (omega arith) t b (begins.searches k (omega arith))

  some_out : (k : ℕ) → k ≤ p.n → 0 < k → 0 < (seek_units ceil_div o a k s).outstanding
  unfolding seek_units
  some_out zero h l = absurd (omega (arith, l))
  some_out (suc k) h l =
      let b = begun_lem k (omega arith) in
      let t = seek_units ceil_div o a k s in
      call_out k (omega arith) t b (begins.searches k (omega arith))

  -- When all units had their first call, the invariant holds.
  pub started-Inv : Inv ceil_div o p (seek_units ceil_div o a p.n s)
  started-Inv =
      let b = begun_lem p.n (omega arith) in
      record { core = b.0; phase = inl (b.1, some_out p.n (omega arith) plan.some_unit) }

  ready-measure : measure o p s ≡ 4 * p.size
  unfolding measure
  ready-measure = omega (
    arith,
    ready.at_start,
    sum_free weight p.n s.ios
        (λ i h. ap (λ (f : Option Submission). weight_flight f (s.ios i).type) (ready.fresh i h).0),
  )

  -- The calls of the loop do not add to what is still to come.
  pub started-measure : (k : ℕ) → k ≤ p.n → measure o p (seek_units ceil_div o a k s) ≤ 4 * p.size
  unfolding seek_units
  started-measure zero h = omega (arith, ready-measure)
  started-measure (suc k) h =
      let b = begun_lem k (omega arith) in
      let t = seek_units ceil_div o a k s in
      omega (
        arith,
        started-measure k (omega arith),
        measure-seek ceil_div o p plan (a k) (begins.accepted k) t k b.0 (omega arith)
            (b.3 k (omega arith) (omega arith)).0 (begins.searches k (omega arith)),
      )
