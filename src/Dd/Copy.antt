-- ===== src/Dd/Copy.antt =====
-- src/app/spdk_dd.c: the exit, the progress, and the chain of populate, read and write.
use Prim.Native.Nat.{min}
use bdev_ubi.Common.{
  ℕ, ◌+◌, ◌%◌, ◌||◌, some, ◌∷◌, ◌==◌, if◌then◌else◌, ℤ, pos, is_zero, List, Bool, true, false,
}
use bdev_ubi.Dd.{
  Opts, SubmitType, dd_populate, dd_read, dd_write, read_input, read_output, write_output,
  Submission, TargetType, file, bdev, Job, Answers, add64, sub64, mul64, read_region_start,
  write_region_start, is_stopped, update, Side, on_input, on_output, Target, Call, file_closed,
  desc_closed, channel_put, io_poller_unregistered, status_poller_unregistered,
}

-- dd_cleanup_bdev
unfoldable pub cleanup_bdev : Side → Target → List Call → List Call
cleanup_bdev side t calls =
    desc_closed side ∷ (if t.has_channel then channel_put side ∷ calls else calls)

-- What dd_exit does with a target.
unfoldable pub close_target : Side → Target → TargetType → List Call → List Call
unfolding cleanup_bdev
close_target side t file calls = file_closed side t.fd ∷ calls
close_target side t bdev calls = if t.is_open then cleanup_bdev side t calls else calls

abbrev pub is_file : TargetType → Bool
is_file file = true
is_file bdev = false

unfoldable pub close_targets : Job → List Call
unfolding close_target
close_targets s =
    let inputs = close_target on_input s.input s.input.type s.calls in
    let closed = close_target on_output s.output s.output.type inputs in
    status_poller_unregistered
    ∷ (if is_file s.input.type || is_file s.output.type
        then io_poller_unregistered ∷ closed
        else closed)

-- dd_exit
unfoldable pub exit : ℤ → Job → Job
unfolding close_targets
exit rc s = record s { exits = rc ∷ s.exits; calls = close_targets s }

-- The effect of dd_show_progress on the job.
unfoldable pub show_progress : Job → Job
show_progress s = record s {
  total_bytes = add64 s.total_bytes s.incremental_bytes;
  incremental_bytes = 0;
}

-- What the callbacks do when there is nothing more to submit.
unfoldable pub finish : Job → Job
unfolding exit show_progress
finish s =
    if s.outstanding == 0 then exit s.error (if is_zero s.error then show_progress s else s) else s

-- The code of a submission to a target: io_uring's is not looked at.
abbrev pub submit_code : Opts → TargetType → ℤ → ℤ
submit_code o file rc = if o.aio then rc else pos 0
submit_code o bdev rc = rc

-- A submission for unit `i`, whose `type` is set, and the handling of its code.
unfoldable pub launch : ℕ → SubmitType → Submission → ℤ → Job → Job
unfolding exit
launch i type submission rc s =
    let io = s.ios i in
    if is_zero rc
    then record s {
      outstanding = s.outstanding + 1;
      ios = update s.ios i (record io { type = type; flight = some submission });
    }
    else (let t = record s { ios = update s.ios i (record io { type = type }); error = rc } in
        if s.outstanding == 0 then exit rc t else t)

module _ (ceil_div : ℕ → ℕ → ℕ) (o : Opts) (a : Answers) where
  -- `SPDK_CEIL_DIV(length, block_size) * block_size`
  abbrev pub whole_blocks : ℕ → ℕ → ℕ
  whole_blocks length block_size = mul64 (ceil_div length block_size) block_size

  -- `write_region_start + read_offset`, for a position of the input.
  abbrev pub write_offset : ℕ → ℕ
  write_offset offset = add64 (write_region_start o) (sub64 offset (read_region_start o))

  -- dd_target_write
  unfoldable pub target_write : ℕ → Job → Job
  unfolding finish launch
  target_write i s =
      let io = s.ios i in
      if is_stopped s
      then finish s
      else launch i dd_write
          (record {
            operation = write_output;
            offset = write_offset io.offset;
            length = whole_blocks io.length s.output.block_size;
          })
          (submit_code o s.output.type a.submit_rc)
          (record s { incremental_bytes = add64 s.incremental_bytes io.length })

  -- dd_target_read
  unfoldable pub target_read : ℕ → Job → Job
  unfolding launch exit
  target_read i s =
      let io = s.ios i in
      if is_stopped s
      then if s.outstanding == 0 then exit s.error s else s
      else launch i dd_read
          (record { operation = read_input; offset = io.offset; length = io.length })
          (submit_code o s.input.type a.submit_rc) s

  -- The part of dd_target_populate_buffer behind its early return: a partial block is populated from
  -- the output first.
  unfoldable pub fill : ℕ → ℕ → Job → Job
  unfolding target_read launch
  fill i at s =
      let io = s.ios i in
      if io.length % s.output.block_size == 0
      then target_read i s
      else launch i dd_populate
          (record {
            operation = read_output;
            offset = write_offset at;
            length = whole_blocks io.length s.output.block_size;
          })
          (submit_code o s.output.type a.submit_rc) s

  -- dd_target_populate_buffer: the unit takes the next bytes of the input.
  unfoldable pub target_populate_buffer : ℕ → Job → Job
  unfolding finish fill
  target_populate_buffer i s =
      let io = s.ios i in
      let at = s.input.pos in
      let length = min io.length (sub64 s.copy_size (sub64 at (read_region_start o))) in
      let t = record s { ios = update s.ios i (record io { offset = at; length = length }) } in
      if length == 0 || is_stopped s
      then finish t
      else fill i at (record t { input = record s.input { pos = add64 at length } })
