-- ===== src/Dd/Run.antt =====
-- What src/app/spdk_dd.c promises for a plain copy, and for a copy of a sparse file, while no call
-- fails: any order of completions ends with the input's data on the output, and the caller is told 0.
use bdev_ubi.Common.{
  ℕ, ◌+◌, ◌*◌, ◌≤◌, ◌<◌, ◌≡◌, refl, sym, ap, ◌⊎◌, inl, inr, Bool, true, Option, none, some, arith,
  pos, ℤ, [], ◌∷◌, subst,
}
use bdev_ubi.Dd.{Opts, Submission, Job, Answers, write_region_start}
use bdev_ubi.Dd.Seek.{seek_units}
use bdev_ubi.Dd.Events.{Event, polled, answered, sought, tick, interrupted, poll_failed, deliver}
use bdev_ubi.Dd.Invariant.{Plan, IsPlan, Core, Covered, Arrived}
use bdev_ubi.Dd.Invariant.Total.{busy, busy_flight, le-sum, find_positive}
use bdev_ubi.Dd.Invariant.Finish.{Inv, tick-Inv}
use bdev_ubi.Dd.Invariant.Keep.{polled-Inv, answered-Inv, answered_lem}
use bdev_ubi.Dd.Invariant.Search.{IsSearch}
use bdev_ubi.Dd.Invariant.Measure.{measure, measure-polled, measure-tick}
use bdev_ubi.Dd.Invariant.Start.{IsReady, Begins, started-Inv, started-measure}

-- The event is a completion of one of the `n` units, with all bytes; or the status poller runs.
abbrev pub Succeeds : ℕ → Job → Event → Type 0
Succeeds n t (polled i res) =
    (i < n) × (sub : Submission) × ((t.ios i).flight ≡ some sub) × (res ≡ pos sub.length)
Succeeds n t (answered i success) =
    (i < n) × (sub : Submission) × ((t.ios i).flight ≡ some sub) × (success ≡ true)
Succeeds n t (sought i found) = ⊥
Succeeds n t tick = Unit {0}
Succeeds n t interrupted = ⊥
Succeeds n t (poll_failed rc) = ⊥

-- An event that completes something counts.
abbrev pub completions : Event → ℕ
completions (polled i res) = 1
completions (answered i success) = 1
completions (sought i found) = 1
completions tick = 0
completions interrupted = 0
completions (poll_failed rc) = 0

busy_lem : (f : Option Submission) → 0 < busy_flight f → (sub : Submission) × (f ≡ some sub)
busy_lem none h = absurd (omega (arith, h))
busy_lem (some sub) h = (sub, refl)

module _ (ceil_div : ℕ → ℕ → ℕ) (o : Opts) (p : Plan) where
  -- `Reaches s k t`: `k` completions, in any order, lead from the start with job `s` to `t`. No call is
  -- refused, and where the copy is sparse lseek answers as `IsSearch` has it.
  pub data Reaches (s : Job) : ℕ → Job → Type 0 where
    begin :
        (a : ℕ → Answers) → Begins ceil_div o p a s → Reaches s 0 (seek_units ceil_div o a p.n s)
    then_event :
        {k : ℕ} {t : Job} (e : Event) (a : Answers)
        → Reaches s k t
        → Succeeds p.n t e
        → IsSearch ceil_div o p a t.input.pos
        → a.submit_rc ≡ pos 0
        → Reaches s (completions e + k) (deliver ceil_div o p.input a e t)

  module _ (plan : IsPlan ceil_div o p) (s : Job) (ready : IsReady o p s) where
    -- At every point of a copy with the conditions of `run_copied`, `outstanding` counts the submissions in flight; each
    -- of them is the one that its unit's stage wants, with the unit's bytes, block-aligned unless
    -- they are the last; every byte before the input's position is on the output, or belongs to a
    -- unit in flight, or is of a hole of a sparse input and was left alone on the output; no byte
    -- outside the region of the copy changed; and dd_exit was not called, or once with 0, when all
    -- was copied.
    pub Reaches-Inv : {k : ℕ} {t : Job} → Reaches s k t → Inv ceil_div o p t
    unfolding deliver
    Reaches-Inv (begin a b) = started-Inv ceil_div o p plan a s b ready
    Reaches-Inv (then_event {t = t} (polled i res) a r (hi, sub, e, q) honest ok) =
        subst (λ (x : ℤ). Inv ceil_div o p (deliver ceil_div o p.input a (polled i x) t)) (sym q)
          (polled-Inv ceil_div o p plan a ok t i (Reaches-Inv r) hi sub e honest)
    Reaches-Inv (then_event {t = t} (answered i success) a r (hi, sub, e, q) honest ok) =
        subst (λ (x : Bool). Inv ceil_div o p (deliver ceil_div o p.input a (answered i x) t))
          (sym q) (answered-Inv ceil_div o p plan a ok t i (Reaches-Inv r) hi sub e honest)
    Reaches-Inv (then_event {t = t} tick a r g honest ok) = tick-Inv ceil_div o p t (Reaches-Inv r)
    Reaches-Inv (then_event (sought i found) a r g honest ok) = elim g [ ]
    Reaches-Inv (then_event interrupted a r g honest ok) = elim g [ ]
    Reaches-Inv (then_event (poll_failed rc) a r g honest ok) = elim g [ ]

    Reaches-measure : {k : ℕ} {t : Job} → Reaches s k t → k + measure o p t ≤ 4 * p.size
    unfolding deliver
    Reaches-measure (begin a b) =
        omega (arith, started-measure ceil_div o p plan a s b ready p.n (omega arith))
    Reaches-measure (then_event {k = k} {t = t} (polled i res) a r (hi, sub, e, q) honest ok) =
        subst
          (λ (x : ℤ).
            1 + k + measure o p (deliver ceil_div o p.input a (polled i x) t) ≤ 4 * p.size)
          (sym q)
          (omega (
            arith,
            Reaches-measure r,
            measure-polled ceil_div o p plan a ok t i (Reaches-Inv r) hi sub e honest,
          ))
    Reaches-measure
          (then_event {k = k} {t = t} (answered i success) a r (hi, sub, e, q) honest ok) =
        subst
          (λ (x : Bool).
            1 + k + measure o p (deliver ceil_div o p.input a (answered i x) t) ≤ 4 * p.size)
          (sym q)
          (omega (
            arith,
            Reaches-measure r,
            ap (measure o p) (answered_lem ceil_div o p plan a ok t i (Reaches-Inv r) hi sub e),
            measure-polled ceil_div o p plan a ok t i (Reaches-Inv r) hi sub e honest,
          ))
    Reaches-measure (then_event {t = t} tick a r g honest ok) =
        omega (arith, Reaches-measure r, measure-tick o p t)
    Reaches-measure (then_event (sought i found) a r g honest ok) = elim g [ ]
    Reaches-measure (then_event interrupted a r g honest ok) = elim g [ ]
    Reaches-measure (then_event (poll_failed rc) a r g honest ok) = elim g [ ]

    -- A byte that a unit has is not at rest.
    rest_byte :
        (t : Job) (j : ℕ)
        → Core ceil_div o p t
        → t.outstanding ≡ 0
        → Covered ceil_div o p t j
        → Arrived ceil_div o p o.sparse t.disk j
    rest_byte t j c z h = elim h [
      | inl e ↦ e
      | inr (i, hi, own) ↦ absurd (omega (arith, own.0, z, c.counted, le-sum busy p.n t.ios i hi))
    ]

    -- In a copy (io_uring for files, whole blocks as units, no position beyond uint64_t), started on
    -- fresh units and with only complete completions, in whatever order: when nothing is in flight,
    -- dd_exit was called once, with 0, the output has the input's bytes in the region of the copy, and
    -- its other bytes are as they were. With --sparse the input is a file, lseek finds its data in
    -- order, in pieces that begin and end at the output's blocks (the last ends with the region), the
    -- first search finds some, and the output file can be extended; then a byte of a hole is 0 in the
    -- input, and the output's byte for it is as it was.
    pub copied :
        {k : ℕ} {t : Job}
        → Reaches s k t
        → t.outstanding ≡ 0
        → (t.exits ≡ pos 0 ∷ [])
          × ((j : ℕ) → j < p.size → Arrived ceil_div o p o.sparse t.disk j)
          × ((x : ℕ)
              → (x < write_region_start o) ⊎ (write_region_start o + p.size ≤ x)
              → t.disk x ≡ p.before x)
    copied {k} {t} r z =
        let inv = Reaches-Inv r in
        elim inv.phase [
          | inl (x, b) ↦ absurd (omega (arith, b, z))
          | inr (x, q, end) ↦ (
            x,
            (λ j h. rest_byte t j inv.core z (end j h)),
            λ x h. elim h [ inl l ↦ inv.core.ahead x l | inr l ↦ inv.core.behind x l ],
          )
        ]

    -- A copy of `size` bytes with the conditions of `run_copied` has at most 4 * size completions, and until dd_exit
    -- was called with 0 some unit has a submission in flight, whose completion is the next.
    pub copy_ends :
        {k : ℕ} {t : Job}
        → Reaches s k t
        → (k ≤ 4 * p.size)
          × ((t.exits ≡ pos 0 ∷ [])
              ⊎ ((i : ℕ) × (i < p.n) × (sub : Submission) × ((t.ios i).flight ≡ some sub)))
    copy_ends {k} {t} r = (
      omega (arith, Reaches-measure r),
      elim (Reaches-Inv r).phase [
        | inl (x, b) ↦
            let q = find_positive busy p.n t.ios (omega (arith, b, (Reaches-Inv r).core.counted)) in
            let b = busy_lem (t.ios q.0).flight q.2 in inr (q.0, q.1, b.0, b.1)
        | inr (x, q, w) ↦ inl x
      ],
    )
