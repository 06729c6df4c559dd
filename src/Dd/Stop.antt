-- ===== src/Dd/Stop.antt =====
-- How a copy of src/app/spdk_dd.c ends after an error or an interrupt: nothing more is submitted, what is
-- in flight comes back, and the last completion tells the error.
use bdev_ubi.Common.{
  ℕ, ◌-◌, ◌<◌, ◌≡◌, ◌≢◌, refl, sym, ap, ◌∙◌, ◌⊎◌, inl, inr, Bool, true, false, none, some, ◌∷◌,
  ◌==◌, ==_iff, Bool-cases, ℤ, pos, negsuc, arith, subst,
}
use mathlib.Core.Bool.{true≢false}
use bdev_ubi.Posix.{Memory}
use bdev_ubi.Dd.{
  Opts, Operation, read_input, read_output, write_output, seek_data, seek_hole, Submission, Job,
  Answers, is_stopped,
}
use bdev_ubi.Dd.Seek.{fail_with}
use bdev_ubi.Dd.Invariant.Steps.{same}
use bdev_ubi.Dd.Events.{
  Event, polled, answered, sought, tick, interrupted, poll_failed, transfer, land, bytes_of_result,
  complete_poll, uring_completion, aio_completion, bdev_completion, complete, deliver,
}
use bdev_ubi.Dd.Drains.{advance_lem, either}

-- A stopped job whose unit `i` was completed and which was not yet counted.
record Landed (s : Job) (i : ℕ) (m : Job) : Type 0 where
  counts : m.outstanding ≡ s.outstanding
  told : m.exits ≡ s.exits
  stops : is_stopped m ≡ true
  lands : (m.ios i).flight ≡ none

-- What a completion does to a stopped job.
pub record Stops (s : Job) (i : ℕ) (t : Job) : Type 0 where
  pub counted : t.outstanding ≡ s.outstanding - 1
  pub stopped : is_stopped t ≡ true
  pub landed : (t.ios i).flight ≡ none
  pub told_last : s.outstanding ≡ 1 → t.exits ≡ t.error ∷ s.exits
  pub told_not : 1 < s.outstanding → t.exits ≡ s.exits

module _ (ceil_div : ℕ → ℕ → ℕ) (o : Opts) (input : Memory) (a : Answers) where
  module _ (s : Job) (i : ℕ) where
    transfer-Landed :
        (op : Operation) (offset n : ℕ)
        → is_stopped s ≡ true
        → Landed s i (transfer input i op offset n (land i s))
    transfer-Landed read_input offset n e = record {
      counts = refl;
      told = refl;
      stops = e;
      lands = rw (same i) refl;
    }
    transfer-Landed read_output offset n e = record {
      counts = refl;
      told = refl;
      stops = e;
      lands = rw (same i) refl;
    }
    transfer-Landed write_output offset n e = record {
      counts = refl;
      told = refl;
      stops = e;
      lands = rw (same i) refl;
    }
    transfer-Landed seek_data offset n e = record {
      counts = refl;
      told = refl;
      stops = e;
      lands = rw (same i) refl;
    }
    transfer-Landed seek_hole offset n e = record {
      counts = refl;
      told = refl;
      stops = e;
      lands = rw (same i) refl;
    }

    failed-Landed : (m : Job) (e : ℕ) → Landed s i m → Landed s i (fail_with (negsuc e) m)
    failed-Landed m e l = record { counts = l.counts; told = l.told; stops = refl; lands = l.lands }

    land-Landed : is_stopped s ≡ true → Landed s i (land i s)
    land-Landed e = record { counts = refl; told = refl; stops = e; lands = rw (same i) refl }

  complete_poll-Stops :
      (s : Job) (i : ℕ) (m : Job) → Landed s i m → Stops s i (complete_poll ceil_div o input a i m)
  unfolding complete_poll
  complete_poll-Stops s i m l =
      let d =
        advance_lem ceil_div o input a (record m { outstanding = m.outstanding - 1 }) i l.stops
          (m.ios i).type in
      record {
        counted = omega (arith, d.same_count, l.counts);
        stopped = rw (d.same_error, d.same_interrupt) l.stops;
        landed = d.same_flight i ∙ l.lands;
        told_last = λ e. rw (d.same_error, ← l.told) (d.last_told (omega (arith, e, l.counts)));
        told_not = λ h. d.others_not (omega (arith, h, l.counts)) ∙ l.told;
      }

  -- The event completes unit `i`; io_uring's -EAGAIN, negsuc 10, is not looked at.
  abbrev pub Completes : ℕ → Event → Type 0
  Completes i (polled j res) = (j ≡ i) × ((o.aio ≡ true) ⊎ (res ≢ negsuc 10))
  Completes i (answered j success) = j ≡ i
  Completes i (sought j found) = ⊥
  Completes i tick = ⊥
  Completes i interrupted = ⊥
  Completes i (poll_failed rc) = ⊥

  module _ (s : Job) (i : ℕ) (sub : Submission) (stopped : is_stopped s ≡ true)
      (flight : (s.ios i).flight ≡ some sub) where
    uring-Stops :
        (res : ℤ) → res ≢ negsuc 10 → Stops s i (uring_completion ceil_div o input a i sub res s)
    unfolding uring_completion
    uring-Stops (pos n) h =
        complete_poll-Stops s i _ (transfer-Landed s i sub.operation sub.offset n stopped)
    uring-Stops (negsuc e) h = elim (Bool-cases (e == 10)) [
      | inl q ↦ absurd (h (ap negsuc ((==_iff e 10).0 q)))
      | inr q ↦
          rw q
            (complete_poll-Stops s i _ (failed-Landed s i (land i s) e (land-Landed s i stopped)))
    ]

    aio-Stops : (res : ℤ) → Stops s i (aio_completion ceil_div o input a i sub res s)
    unfolding aio_completion
    aio-Stops res =
        let l = transfer-Landed s i sub.operation sub.offset (bytes_of_result res) stopped in
        elim (Bool-cases (elim res [ pos n ↦ n == (s.ios i).length | negsuc e ↦ false ])) [
          | inl q ↦ rw q (complete_poll-Stops s i _ l)
          | inr q ↦ rw q (complete_poll-Stops s i _ (failed-Landed s i _ 27 l))
        ]

    bdev-Stops : (success : Bool) → Stops s i (bdev_completion ceil_div o input a i sub success s)
    unfolding bdev_completion
    bdev-Stops success =
        complete_poll-Stops s i _ (transfer-Landed s i sub.operation sub.offset _ stopped)

    polled-Stops :
        (res : ℤ)
        → (o.aio ≡ true) ⊎ (res ≢ negsuc 10)
        → Stops s i (deliver ceil_div o input a (polled i res) s)
    unfolding deliver complete
    polled-Stops res h = rw flight (
        either (Stops s i) o.aio _ _ (λ q. aio-Stops res)
          (λ q. uring-Stops res (elim h [ inl w ↦ absurd (true≢false (sym w ∙ q)) | inr w ↦ w ])))

    answered-Stops :
        (success : Bool) → Stops s i (deliver ceil_div o input a (answered i success) s)
    unfolding deliver complete
    answered-Stops success = rw flight (bdev-Stops success)

    -- After an error or an interrupt, a completion of a read or a write, good or bad, submits nothing:
    -- `outstanding` goes down by one, the unit has nothing in flight, the job stays stopped, and
    -- dd_exit is called with the job's error if this was the last submission in flight, and not
    -- otherwise.
    pub stopped_drains : (e : Event) → Completes i e → Stops s i (deliver ceil_div o input a e s)
    stopped_drains (polled j res) (q, h) =
        subst (λ (x : ℕ). Stops s i (deliver ceil_div o input a (polled x res) s)) (sym q)
          (polled-Stops res h)
    stopped_drains (answered j success) q =
        subst (λ (x : ℕ). Stops s i (deliver ceil_div o input a (answered x success) s)) (sym q)
          (answered-Stops success)
    stopped_drains (sought j found) h = elim h [ ]
    stopped_drains tick h = elim h [ ]
    stopped_drains interrupted h = elim h [ ]
    stopped_drains (poll_failed rc) h = elim h [ ]
