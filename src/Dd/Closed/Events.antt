-- ===== src/Dd/Closed/Events.antt =====
-- What happens to a copy of src/app/spdk_dd.c leaves what dd_exit looks at, in any order.
use bdev_ubi.Common.{
  ℕ, refl, ◌-◌, Bool, Option, none, some, List, [], ◌∷◌, ◌==◌, ℤ, pos, negsuc, false, if◌then◌else◌,
  neg,
}
use bdev_ubi.Posix.{Memory}
use bdev_ubi.Dd.{
  Opts, SubmitType, dd_populate, dd_read, dd_write, Operation, read_input, read_output,
  write_output, seek_data, seek_hole, Submission, Job, Answers,
}
use bdev_ubi.Dd.Copy.{show_progress}
use bdev_ubi.Dd.Seek.{fail_with}
use bdev_ubi.Dd.Events.{
  Event, polled, answered, sought, tick, interrupted, poll_failed, transfer, advance, complete_poll,
  uring_completion, aio_completion, bdev_completion, seek_completion, complete, deliver, land,
  bytes_of_result,
}
use bdev_ubi.Dd.Hangs.{run_events}
use bdev_ubi.Dd.Closed.{Tracks, exit-Tracks, if-Tracks, still}
use bdev_ubi.Dd.Closed.Steps.{
  write-Tracks, read-Tracks, seek-Tracks, data_done-Tracks, hole_done-Tracks,
}

module _ (s : Job) (ceil_div : ℕ → ℕ → ℕ) (o : Opts) (input : Memory) where
  transfer-Tracks :
      (i : ℕ) (op : Operation) (offset n : ℕ) (t : Job)
      → Tracks s t
      → Tracks s (transfer input i op offset n t)
  transfer-Tracks i read_input offset n t h = still s h refl
  transfer-Tracks i read_output offset n t h = still s h refl
  transfer-Tracks i write_output offset n t h = still s h refl
  transfer-Tracks i seek_data offset n t h = h
  transfer-Tracks i seek_hole offset n t h = h

  module _ (a : Answers) where
    advance-Tracks :
        (k : SubmitType) (i : ℕ) (t : Job)
        → Tracks s t
        → Tracks s (advance ceil_div o input a k i t)
    unfolding advance
    advance-Tracks dd_populate i t h = read-Tracks s ceil_div o a i t h
    advance-Tracks dd_read i t h = write-Tracks s ceil_div o a i t h
    advance-Tracks dd_write i t h = seek-Tracks s ceil_div o a i t h

    poll-Tracks : (i : ℕ) (t : Job) → Tracks s t → Tracks s (complete_poll ceil_div o input a i t)
    unfolding complete_poll
    poll-Tracks i t h =
        advance-Tracks (t.ios i).type i (record t { outstanding = t.outstanding - 1 })
          (still s h refl)

    uring-Tracks :
        (i : ℕ) (sub : Submission) (res : ℤ) (t : Job)
        → Tracks s t
        → Tracks s (uring_completion ceil_div o input a i sub res t)
    unfolding uring_completion
    uring-Tracks i sub (negsuc e) t h =
        if-Tracks s (e == 10) _ _ (λ e. h)
          (λ q. poll-Tracks i (fail_with (negsuc e) (land i t)) (still s h refl))
    uring-Tracks i sub (pos n) t h =
        poll-Tracks i _ (transfer-Tracks i sub.operation sub.offset n (land i t) (still s h refl))

    aio-Tracks :
        (i : ℕ) (sub : Submission) (res : ℤ) (t : Job)
        → Tracks s t
        → Tracks s (aio_completion ceil_div o input a i sub res t)
    unfolding aio_completion
    aio-Tracks i sub res t h =
        let u = transfer input i sub.operation sub.offset (bytes_of_result res) (land i t) in
        let k =
          transfer-Tracks i sub.operation sub.offset (bytes_of_result res) (land i t)
            (still s h refl) in
        let full = elim res as (λ x. Bool) [ pos n ↦ n == (t.ios i).length | negsuc e ↦ false ] in
        poll-Tracks i (if full then u else fail_with (neg 28) u)
          (if-Tracks s full u (fail_with (neg 28) u) (λ e. k) (λ e. still s k refl))

    bdev-Tracks :
        (i : ℕ) (sub : Submission) (success : Bool) (t : Job)
        → Tracks s t
        → Tracks s (bdev_completion ceil_div o input a i sub success t)
    unfolding bdev_completion
    bdev-Tracks i sub success t h =
        poll-Tracks i _ (transfer-Tracks i sub.operation sub.offset _ (land i t) (still s h refl))

    sought-Tracks :
        (i : ℕ) (op : Operation) (found : Option ℕ) (t : Job)
        → Tracks s t
        → Tracks s (seek_completion ceil_div o input a i op found t)
    unfolding seek_completion
    sought-Tracks i seek_data found t h =
        data_done-Tracks s ceil_div o a i found (land i t) (still s h refl)
    sought-Tracks i seek_hole found t h =
        hole_done-Tracks s ceil_div o a i found (land i t) (still s h refl)
    sought-Tracks i read_input found t h = h
    sought-Tracks i read_output found t h = h
    sought-Tracks i write_output found t h = h

    complete-Tracks :
        (f : Option Submission) (e : Event) (t : Job)
        → Tracks s t
        → Tracks s (complete ceil_div o input a f e t)
    unfolding complete
    complete-Tracks none e t h = h
    complete-Tracks (some sub) (polled i res) t h =
        if-Tracks s o.aio _ _ (λ e. aio-Tracks i sub res t h) (λ e. uring-Tracks i sub res t h)
    complete-Tracks (some sub) (answered i success) t h = bdev-Tracks i sub success t h
    complete-Tracks (some sub) (sought i found) t h = sought-Tracks i sub.operation found t h
    complete-Tracks (some sub) tick t h = h
    complete-Tracks (some sub) interrupted t h = h
    complete-Tracks (some sub) (poll_failed rc) t h = h

    deliver-Tracks : (e : Event) (t : Job) → Tracks s t → Tracks s (deliver ceil_div o input a e t)
    unfolding deliver show_progress
    deliver-Tracks (polled i res) t h = complete-Tracks (t.ios i).flight _ t h
    deliver-Tracks (answered i success) t h = complete-Tracks (t.ios i).flight _ t h
    deliver-Tracks (sought i found) t h = complete-Tracks (t.ios i).flight _ t h
    deliver-Tracks tick t h = still s h refl
    deliver-Tracks interrupted t h = still s h refl
    deliver-Tracks (poll_failed rc) t h =
        if-Tracks s o.aio _ _ (λ e. exit-Tracks s rc t h) (λ e. still s h refl)

  pub run-Tracks :
      (es : List (Event × Answers)) (t : Job)
      → Tracks s t
      → Tracks s (run_events ceil_div o input es t)
  unfolding run_events
  run-Tracks [] t h = h
  run-Tracks (e ∷ es) t h = run-Tracks es _ (deliver-Tracks e.1 e.0 t h)
