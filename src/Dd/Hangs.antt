-- ===== src/Dd/Hangs.antt =====
-- Two ways in which src/app/spdk_dd.c never ends: a search that is not taken off `outstanding`, and a
-- queue depth of 0.
use bdev_ubi.Common.{
  ℕ, ◌≡◌, refl, sym, ◌∙◌, inl, inr, true, false, Option, none, some, List, [], ◌∷◌, ◌==◌,
  Bool-cases, ℤ, subst, ap,
}
use mathlib.Core.Bool.{true≢false}
use bdev_ubi.Common.Outcome.{done, ◌>>=◌}
use bdev_ubi.Posix.{Memory}
use bdev_ubi.Dd.{Opts, seek_data, Submission, Job, Answers, is_stopped}
use bdev_ubi.Dd.Copy.{show_progress, finish}
use bdev_ubi.Dd.Seek.{bdev_seek_data_done, seek_units}
use bdev_ubi.Dd.Events.{
  Event, polled, answered, sought, tick, interrupted, poll_failed, seek_completion, complete,
  deliver,
}
use bdev_ubi.Dd.Setup.{Settings, Device, Setup, goes_on}
use bdev_ubi.Dd.Prepare.{first_setup, Host, prepare, run}
use bdev_ubi.Dd.Whole.{accepted_lem}
use bdev_ubi.Dd.Drains.{either}

module _ (ceil_div : ℕ → ℕ → ℕ) (o : Opts) (input : Memory) where
  -- Events one after the other, each with the answers to its calls.
  unfoldable pub run_events : List (Event × Answers) → Job → Job
  unfolding deliver
  run_events [] s = s
  run_events (e ∷ es) s = run_events es (deliver ceil_div o input e.1 e.0 s)

  -- Nothing is in flight, and dd_exit was called with these codes.
  Idle : List ℤ → Job → Type 0
  Idle codes s = ((i : ℕ) → (s.ios i).flight ≡ none) × (s.exits ≡ codes)

  module _ (uring : o.aio ≡ false) where
    deliver-Idle :
        (e : Event) (a : Answers) (codes : List ℤ) (s : Job)
        → Idle codes s
        → Idle codes (deliver ceil_div o input a e s)
    unfolding Idle deliver complete show_progress
    deliver-Idle (polled i res) a codes s h = rw (h.0 i) h
    deliver-Idle (answered i success) a codes s h = rw (h.0 i) h
    deliver-Idle (sought i found) a codes s h = rw (h.0 i) h
    deliver-Idle tick a codes s h = (h.0, h.1)
    deliver-Idle interrupted a codes s h = (h.0, h.1)
    deliver-Idle (poll_failed rc) a codes s h =
        either (Idle codes) o.aio _ _ (λ e. absurd (true≢false (sym e ∙ uring))) (λ e. (h.0, h.1))

    run_events-Idle :
        (es : List (Event × Answers)) (codes : List ℤ) (s : Job)
        → Idle codes s
        → Idle codes (run_events es s)
    unfolding run_events
    run_events-Idle [] codes s h = h
    run_events-Idle (e ∷ es) codes s h =
        run_events-Idle es codes (deliver ceil_div o input e.1 e.0 s)
          (deliver-Idle e.0 e.1 codes s h)

    lost_search :
        (s : Job) (i : ℕ) (sub : Submission) (found : Option ℕ) (a : Answers)
        → is_stopped s ≡ true
        → (s.ios i).flight ≡ some sub
        → sub.operation ≡ seek_data
        → ((k : ℕ) → (k == i) ≡ false → (s.ios k).flight ≡ none)
        → s.outstanding ≡ 1
        → Idle s.exits (deliver ceil_div o input a (sought i found) s)
    unfolding Idle deliver complete seek_completion bdev_seek_data_done finish
    lost_search s i sub found a stopped flight op alone one =
        rw (flight, op, stopped, one)
          (λ k. elim (Bool-cases (k == i)) [ inl e ↦ rw e refl | inr e ↦ rw e (alone k e) ], refl)

    -- Without --aio, a job whose only submission in flight is a bdev's search for data, and which was
    -- stopped meanwhile by an error or an interrupt: the search comes back, and whatever happens from
    -- then on, dd_exit is not called. The return for a stopped job does not take the search off
    -- `outstanding`.
    pub lost_search_hangs :
        (s : Job) (i : ℕ) (sub : Submission) (found : Option ℕ) (a : Answers)
        → is_stopped s ≡ true
        → (s.ios i).flight ≡ some sub
        → sub.operation ≡ seek_data
        → ((k : ℕ) → (k == i) ≡ false → (s.ios k).flight ≡ none)
        → s.outstanding ≡ 1
        → (es : List (Event × Answers))
        → (run_events es (deliver ceil_div o input a (sought i found) s)).exits ≡ s.exits
    unfolding Idle
    lost_search_hangs s i sub found a stopped flight op alone one es =
        (run_events-Idle es s.exits _ (lost_search s i sub found a stopped flight op alone one)).1

no_units :
    (ceil_div : ℕ → ℕ → ℕ) (o : Opts) (a : ℕ → Answers) (n : ℕ) (s : Job)
    → n ≡ 0
    → seek_units ceil_div o a n s ≡ s
unfolding seek_units
no_units ceil_div o a n s e = subst (λ (m : ℕ). seek_units ceil_div o a m s ≡ s) (sym e) refl

-- Without --aio, if dd_run gets to its last loop with a queue depth of 0, it starts no unit, and dd_exit
-- is never called after it, whatever happens.
pub run_without_units :
    (ceil_div : ℕ → ℕ → ℕ) (input : Memory) (g : Settings) (disk : Memory) (d e : Device) (h : Host)
    (a : ℕ → Answers) (t : Setup)
    → prepare g d e h (first_setup g disk) ≡ goes_on t
    → t.opts.aio ≡ false
    → t.opts.queue_depth ≡ 0
    → (es : List (Event × Answers))
    → (run ceil_div a g d e h (first_setup g disk) >>= λ s.
        done (run_events ceil_div t.opts input es s).exits)
      ≡ done t.job.exits
unfolding run Idle
run_without_units ceil_div input g disk d e h a t go uring depth es =
    rw (go, no_units ceil_div t.opts a t.opts.queue_depth t.job depth)
      (ap done
        (run_events-Idle ceil_div t.opts input uring es t.job.exits t.job
          ((accepted_lem g disk d e h t go).free, refl)).1)
