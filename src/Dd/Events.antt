-- ===== src/Dd/Events.antt =====
-- src/app/spdk_dd.c: the pollers and the callbacks of bdev I/O, on what the kernel and SPDK complete.
use bdev_ubi.Common.{
  ℕ, ◌+◌, ◌-◌, Bool, true, false, Option, none, some, ◌==◌, if◌then◌else◌, ℤ, pos, negsuc, neg,
}
use bdev_ubi.Posix.{Memory, overwrite}
use bdev_ubi.Dd.{
  Opts, SubmitType, dd_populate, dd_read, dd_write, Operation, read_input, read_output,
  write_output, seek_data, seek_hole, Submission, Job, Answers, update,
}
use bdev_ubi.Dd.Copy.{exit, show_progress, target_read, target_write}
use bdev_ubi.Dd.Seek.{target_seek, bdev_seek_data_done, bdev_seek_hole_done, fail_with}

-- What can happen to a job: a completion that a poller of files finds, with its result; the
-- completion of a bdev's I/O, with `success`, and of a bdev's seek, with its result; the status
-- poller; and dd_finish.
pub data Event : Type 0 where
  polled : ℕ → ℤ → Event
  answered : ℕ → Bool → Event
  sought : ℕ → Option ℕ → Event
  tick interrupted : Event
  poll_failed : ℤ → Event

-- What the completion of a submission does to memory, for `n` bytes: `input` is the input's content.
abbrev pub transfer : Memory → ℕ → Operation → ℕ → ℕ → Job → Job
transfer input i read_input offset n s = record s {
  ios =
      update s.ios i
        (record (s.ios i) { buf = overwrite (s.ios i).buf 0 (λ x. input (offset + x)) n });
}
transfer input i read_output offset n s = record s {
  ios =
      update s.ios i
        (record (s.ios i) { buf = overwrite (s.ios i).buf 0 (λ x. s.disk (offset + x)) n });
}
transfer input i write_output offset n s = record s {
  disk = overwrite s.disk offset (s.ios i).buf n;
}
transfer input i seek_data offset n s = s
transfer input i seek_hole offset n s = s

-- Unit `i` has nothing in flight any more.
abbrev pub land : ℕ → Job → Job
land i s = record s { ios = update s.ios i (record (s.ios i) { flight = none }) }

-- The bytes that a result stands for.
abbrev pub bytes_of_result : ℤ → ℕ
bytes_of_result (pos n) = n
bytes_of_result (negsuc e) = 0

module _ (ceil_div : ℕ → ℕ → ℕ) (o : Opts) (input : Memory) (a : Answers) where
  -- What is next for a unit whose submission of this type is done.
  unfoldable pub advance : SubmitType → ℕ → Job → Job
  unfolding target_read target_write target_seek
  advance dd_populate i s = target_read ceil_div o a i s
  advance dd_read i s = target_write ceil_div o a i s
  advance dd_write i s = target_seek ceil_div o a i s

  -- dd_complete_poll, and what the callbacks of bdev I/O do.
  unfoldable pub complete_poll : ℕ → Job → Job
  unfolding advance
  complete_poll i s = advance (s.ios i).type i (record s { outstanding = s.outstanding - 1 })

  -- A completion in dd_uring_poll. With -EAGAIN, negsuc 10, it is not marked as seen, and stays.
  unfoldable pub uring_completion : ℕ → Submission → ℤ → Job → Job
  unfolding complete_poll
  uring_completion i sub (negsuc e) s =
      if e == 10 then s else complete_poll i (fail_with (negsuc e) (land i s))
  uring_completion i sub (pos n) s =
      complete_poll i (transfer input i sub.operation sub.offset n (land i s))

  -- A completion in dd_aio_poll. The result is compared with the unit's length.
  unfoldable pub aio_completion : ℕ → Submission → ℤ → Job → Job
  unfolding complete_poll
  aio_completion i sub res s =
      let t = transfer input i sub.operation sub.offset (bytes_of_result res) (land i s) in
      complete_poll i (
        if elim res [ pos n ↦ n == (s.ios i).length | negsuc e ↦ false ]
        then t
        else fail_with (neg 28) t)

  -- _dd_read_bdev_done, _dd_write_bdev_done and _dd_target_populate_buffer_done do not look at
  -- `success`.
  unfoldable pub bdev_completion : ℕ → Submission → Bool → Job → Job
  unfolding complete_poll
  bdev_completion i sub success s =
      complete_poll i
        (transfer input i sub.operation sub.offset (if success then sub.length else 0) (land i s))

  unfoldable pub seek_completion : ℕ → Operation → Option ℕ → Job → Job
  unfolding bdev_seek_data_done bdev_seek_hole_done
  seek_completion i seek_data found s = bdev_seek_data_done ceil_div o a i found (land i s)
  seek_completion i seek_hole found s = bdev_seek_hole_done ceil_div o a i found (land i s)
  seek_completion i _ found s = s

  -- An event for a unit with nothing in flight does not happen.
  unfoldable pub complete : Option Submission → Event → Job → Job
  unfolding uring_completion aio_completion bdev_completion seek_completion
  complete none e s = s
  complete (some sub) (polled i res) s =
      if o.aio then aio_completion i sub res s else uring_completion i sub res s
  complete (some sub) (answered i success) s = bdev_completion i sub success s
  complete (some sub) (sought i found) s = seek_completion i sub.operation found s
  complete (some sub) tick s = s
  complete (some sub) interrupted s = s
  complete (some sub) (poll_failed rc) s = s

  unfoldable pub deliver : Event → Job → Job
  unfolding complete show_progress exit
  deliver (polled i res) s = complete (s.ios i).flight (polled i res) s
  deliver (answered i success) s = complete (s.ios i).flight (answered i success) s
  deliver (sought i found) s = complete (s.ios i).flight (sought i found) s
  deliver tick s = show_progress s
  deliver interrupted s = record s { interrupt = true }
  deliver (poll_failed rc) s = if o.aio then exit rc s else fail_with rc s
