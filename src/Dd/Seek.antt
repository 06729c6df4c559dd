-- ===== src/Dd/Seek.antt =====
-- src/app/spdk_dd.c: the end of the output, and the search for data in a sparse input.
use Prim.Native.Nat.{min}
use bdev_ubi.Common.{
  ℕ, zero, suc, ◌+◌, ◌-◌, ◌/◌, not, ◌||◌, ◌&&◌, Option, none, some, List, [], ◌∷◌, ◌++◌, ltb, ◌==◌,
  if◌then◌else◌, ℤ, pos, negsuc, is_zero,
}
use bdev_ubi.Dd.{
  Opts, seek_data, seek_hole, Submission, TargetType, file, bdev, Job, Answers, add64, sub64, mul64,
  read_region_start, is_stopped, update,
}
use bdev_ubi.Dd.Copy.{exit, finish, target_populate_buffer}

-- ENXIO
abbrev pub enxio : ℕ
enxio = 6

-- STAILQ_REMOVE_HEAD and STAILQ_EMPTY
abbrev pub rest_of : List ℕ → List ℕ
rest_of [] = []
rest_of (i ∷ q) = q

abbrev pub pop : Job → Job
pop s = record s { seek_queue = rest_of s.seek_queue }

abbrev pub fail_with : ℤ → Job → Job
fail_with rc s = record s { error = rc }

abbrev pub move_to : ℕ → Job → Job
move_to at s = record s { input = record s.input { pos = at } }

abbrev pub set_length : ℕ → ℕ → Job → Job
set_length i length s = record s { ios = update s.ios i (record (s.ios i) { length = length }) }

-- The submission of a bdev's seek for unit `i`, and the handling of its code.
unfoldable pub launch_seek : ℕ → Submission → ℤ → Job → Job
unfolding exit
launch_seek i submission rc s =
    if is_zero rc
    then record s {
      outstanding = s.outstanding + 1;
      ios = update s.ios i (record (s.ios i) { flight = some submission });
    }
    else if s.outstanding == 0
    then exit rc (fail_with rc s)
    else fail_with rc s

module _ (ceil_div : ℕ → ℕ → ℕ) (o : Opts) (a : Answers) where
  -- The output file after its end was found: it is extended to the end of the copy.
  unfoldable pub extend_output : ℤ → Job → Job
  extend_output (negsuc e) s = fail_with (pos a.end_errno) s
  extend_output (pos offset) s =
      if ltb offset (add64 s.copy_size s.output.pos) && not (is_zero a.truncate_rc)
      then fail_with (pos a.truncate_errno) s
      else s

  -- dd_finalize_output
  unfoldable pub finalize_output : Job → Job
  unfolding extend_output finish
  finalize_output s =
      if s.outstanding == 0
      then finish (if o.has_output_file then extend_output a.end_offset s else s)
      else s

  -- dd_file_seek_data, where lseek fails. The errno may be any, whether the descriptor is open or not.
  unfoldable pub no_data : ℕ → Job → Job
  unfolding finalize_output exit
  no_data errno s =
      if errno == enxio
      then finalize_output s
      else if s.outstanding == 0
      then exit (pos errno) (fail_with (pos errno) s)
      else s

  -- dd_file_seek_hole, where lseek fails.
  unfoldable pub no_hole : Job → Job
  unfolding exit
  no_hole s =
      if s.outstanding == 0 then exit (pos a.hole_errno) (fail_with (pos a.hole_errno) s) else s

  -- The part of dd_target_seek for a file behind the search for data.
  unfoldable pub seek_file_hole : ℕ → ℤ → Job → Job
  unfolding no_hole target_populate_buffer
  seek_file_hole i (negsuc e) s = no_hole s
  seek_file_hole i (pos hole) s =
      let length =
        if ltb s.input.pos hole then min o.io_unit_size (hole - s.input.pos) else o.io_unit_size in
      target_populate_buffer ceil_div o a i (set_length i length s)

  -- The part of dd_target_seek for a file.
  unfoldable pub seek_file : ℕ → ℤ → Job → Job
  unfolding no_data seek_file_hole
  seek_file i (negsuc e) s = no_data a.data_errno s
  seek_file i (pos next) s =
      seek_file_hole i a.hole_offset (if ltb s.input.pos next then move_to next s else s)

  -- spdk_bdev_seek_data, from the position of the input.
  unfoldable pub start_seek_data : ℕ → Job → Job
  unfolding launch_seek
  start_seek_data i s =
      launch_seek i
        (record { operation = seek_data; offset = s.input.pos / s.input.block_size; length = 0 })
        a.seek_rc s

  -- The part of dd_target_seek for a bdev: one search at a time, the others wait in the queue.
  unfoldable pub seek_bdev : ℕ → List ℕ → Job → Job
  unfolding start_seek_data
  seek_bdev i [] s = start_seek_data i (record s { seek_queue = i ∷ [] })
  seek_bdev i (j ∷ q) s = record s { seek_queue = j ∷ (q ++ i ∷ []) }

  unfoldable pub seek_target : ℕ → TargetType → Job → Job
  unfolding seek_file seek_bdev
  seek_target i file s = seek_file i a.data_offset s
  seek_target i bdev s = seek_bdev i s.seek_queue s

  -- dd_target_seek
  unfoldable pub target_seek : ℕ → Job → Job
  unfolding seek_target target_populate_buffer finish
  target_seek i s =
      if o.sparse
      then if (sub64 s.copy_size (sub64 s.input.pos (read_region_start o)) == 0) || is_stopped s
        then finish s
        else seek_target i s.input.type s
      else target_populate_buffer ceil_div o a i s

  -- _dd_bdev_seek_data_done from the seek's result on, none for UINT64_MAX.
  unfoldable pub found_data : ℕ → Option ℕ → Job → Job
  unfolding finalize_output launch_seek
  found_data i none s = finalize_output (pop s)
  found_data i (some block) s =
      let t = move_to (mul64 block s.input.block_size) s in
      launch_seek i
        (record { operation = seek_hole; offset = t.input.pos / t.input.block_size; length = 0 })
        a.seek_rc (if is_zero a.seek_rc then t else pop t)

  -- _dd_bdev_seek_data_done. A job that is stopped keeps the search in `outstanding`.
  unfoldable pub bdev_seek_data_done : ℕ → Option ℕ → Job → Job
  unfolding finish found_data
  bdev_seek_data_done i found s =
      if is_stopped s
      then finish (pop s)
      else found_data i found (record s { outstanding = s.outstanding - 1 })

  -- The length that the found hole leaves to a unit.
  abbrev pub length_before : Option ℕ → Job → ℕ
  length_before none s = o.io_unit_size
  length_before (some block) s =
      min o.io_unit_size (sub64 (mul64 block s.input.block_size) s.input.pos)

  -- The end of _dd_bdev_seek_hole_done: the next search of the queue.
  unfoldable pub next_seek : List ℕ → Job → Job
  unfolding start_seek_data
  next_seek [] s = s
  next_seek (i ∷ q) s = if ltb s.input.pos s.input.total_size then start_seek_data i s else s

  -- _dd_bdev_seek_hole_done
  unfoldable pub bdev_seek_hole_done : ℕ → Option ℕ → Job → Job
  unfolding finish next_seek target_populate_buffer
  bdev_seek_hole_done i found s =
      let t = pop s in
      if is_stopped t
      then finish t
      else (let u =
            target_populate_buffer ceil_div o a i (
              set_length i (length_before found t)
                (record t { outstanding = t.outstanding - 1 })) in
          next_seek u.seek_queue u)

-- The last loop of dd_run, over the first `n` units: `a` is what the calls for each unit answer.
unfoldable pub seek_units : (ℕ → ℕ → ℕ) → Opts → (ℕ → Answers) → ℕ → Job → Job
unfolding target_seek
seek_units ceil_div o a zero s = s
seek_units ceil_div o a (suc n) s = target_seek ceil_div o (a n) n (seek_units ceil_div o a n s)
