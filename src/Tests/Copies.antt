-- ===== src/Tests/Copies.antt =====
-- A run of src/app/spdk_dd.c's copy with two units, the second of which has a partial block, and the
-- theorems on copies applied to it.
use bdev_ubi.Dd.Holes.{IsIdle, hole_exits}
use bdev_ubi.Dd.Uring.{moved, register}
use bdev_ubi.Dd.Uring.Refines.{submitted, uring_submit-Refines}
use bdev_ubi.Dd.Invariant.Search.{IsSearch}
use native.Mathlib.Nat.{div-add-mod', mod-lt}
use bdev_ubi.Common.{
  ℕ, ◌+◌, ◌-◌, ◌/◌, ◌≤◌, ◌<◌, ◌≡◌, refl, ◌⊎◌, true, false, some, [], ◌∷◌, pos, arith, leb, ltb,
  ◌&&◌, if◌then◌else◌, zero, suc, inl, inr, negsuc,
}
use bdev_ubi.Posix.{overwrite, Memory}
use bdev_ubi.Dd.{Opts, Submission, Job, Answers, file, bdev, dd_read}
use bdev_ubi.Dd.Copy.{
  exit, show_progress, finish, launch, target_write, target_read, fill, target_populate_buffer,
}
use bdev_ubi.Dd.Seek.{target_seek, seek_units, enxio, seek_target, seek_file, seek_file_hole}
use bdev_ubi.Dd.Events.{
  Event, polled, answered, tick, deliver, complete, uring_completion, bdev_completion,
  complete_poll, advance,
}
use bdev_ubi.Dd.Prepare.{fresh_unit}
use bdev_ubi.Dd.Invariant.{Plan, IsPlan, IsCeilDiv}
use bdev_ubi.Dd.Invariant.Finish.{Inv}
use bdev_ubi.Dd.Invariant.Start.{IsReady, Begins}
use bdev_ubi.Dd.Run.{Reaches, begin, then_event, Reaches-Inv, copy_ends}

abbrev pub round_up : ℕ → ℕ → ℕ
round_up x y = (x + (y - 1)) / y

pub round_up-IsCeilDiv : IsCeilDiv round_up
round_up-IsCeilDiv x y h =
    let e = div-add-mod' (x + (y - 1)) y in
    let l = mod-lt (x + (y - 1)) h in (omega (arith, e, l), omega (arith, e, l))

-- Five bytes from position 4 of a sparse file go to position 8, with units of four and blocks of two bytes.
abbrev pub opts : Opts
opts = record {
  input_offset = 1;
  output_offset = 2;
  io_unit_size = 4;
  io_unit_count = 0;
  queue_depth = 2;
  aio = false;
  sparse = false;
  has_output_file = true;
}

-- The input file has a hole at 6 and 7.
abbrev holed : Memory
holed x = if leb 6 x && ltb x 8 then 0 else 100 + x

abbrev sparse_opts : Opts
sparse_opts = record opts { sparse = true; has_output_file = false }

abbrev plan : Plan
plan = record { n = 2; size = 5; block = 2; input = holed; before = λ x. x }

abbrev plan_lem : IsPlan round_up sparse_opts plan
plan_lem = record {
  rounding = round_up-IsCeilDiv;
  uring = refl;
  some_unit = omega arith;
  some_bytes = omega arith;
  some_block = omega arith;
  unit_bytes = omega arith;
  unit_blocks = refl;
  input_fits = omega arith;
  output_fits = omega arith;
}

abbrev pub ready_job : Job
ready_job = record {
  input = record {
    type = file;
    fd = pos 0;
    has_channel = false;
    block_size = 1;
    pos = 4;
    total_size = 9;
    is_open = false;
  };
  output = record {
    type = bdev;
    fd = pos 0;
    has_channel = true;
    block_size = 2;
    pos = 8;
    total_size = 64;
    is_open = true;
  };
  ios = λ i. fresh_unit 4 (λ x. 0);
  outstanding = 0;
  copy_size = 5;
  seek_queue = [];
  total_bytes = 0;
  incremental_bytes = 0;
  error = pos 0;
  interrupt = false;
  disk = λ x. x;
  exits = [];
  calls = [];
}

ready_lem : IsReady sparse_opts plan ready_job
ready_lem = record {
  sized = refl;
  blocks = refl;
  calm = refl;
  running = refl;
  from_file = λ e. refl;
  at_start = refl;
  idle = refl;
  untold = refl;
  fresh = λ i h. (refl, refl);
  untouched = λ x. refl;
}

abbrev pub accepts : Answers
accepts = record {
  submit_rc = pos 0;
  seek_rc = pos 0;
  data_offset = pos 0;
  data_errno = 0;
  hole_offset = pos 0;
  hole_errno = 0;
  end_offset = pos 0;
  end_errno = 0;
  truncate_rc = pos 0;
  truncate_errno = 0;
}

-- lseek finds data from 4 to 6, then from 8 to the end at 9, then none.
abbrev first_data : Answers
first_data = record accepts { data_offset = pos 4; hole_offset = pos 6 }

abbrev last_data : Answers
last_data = record accepts { data_offset = pos 8; hole_offset = pos 9 }

abbrev no_more : Answers
no_more = record accepts { data_offset = negsuc 0; data_errno = enxio }

abbrev found : ℕ → Answers
found zero = first_data
found (suc k) = last_data

abbrev after : Event → Job → Job
after e t = deliver round_up sparse_opts plan.input no_more e t

abbrev begun : Job
begun = seek_units round_up sparse_opts found 2 ready_job

hole_zeros : (y : ℕ) → 6 ≤ y → y < 8 → holed y ≡ 0
hole_zeros y l h = ground (arith, l, h)

searches_lem :
    (k : ℕ)
    → k < 2
    → IsSearch round_up sparse_opts plan
        (found k)
        (seek_units round_up sparse_opts found k ready_job).input.pos
unfolding seek_units target_seek seek_target seek_file seek_file_hole target_populate_buffer fill
    target_read launch
searches_lem zero l e = (
  (
    6,
    refl,
    (
      omega arith,
      omega arith,
      refl,
      (λ y b c. absurd (omega (arith, b, c))),
      omega arith,
      omega arith,
      inl refl,
    ),
  ),
  ((0, refl), refl),
)
searches_lem (suc zero) l e = (
  (9, refl, (omega arith, omega arith, refl, hole_zeros, omega arith, omega arith, inr refl)),
  ((0, refl), refl),
)
searches_lem (suc (suc k)) l e = absurd (omega (arith, l))

accepted_lem : (k : ℕ) → (found k).submit_rc ≡ pos 0
accepted_lem zero = refl
accepted_lem (suc k) = refl

begins_lem : Begins round_up sparse_opts plan found ready_job
begins_lem = record { accepted = accepted_lem; searches = searches_lem; some_data = λ e. (4, refl) }

-- After the start all bytes are taken.
at_end : (t : Job) → t.input.pos ≡ 9 → IsSearch round_up sparse_opts plan no_more t.input.pos
at_end t q e = ((refl, λ y l h. absurd (omega (arith, q, l, h))), ((0, refl), refl))

abbrev populated : Job
populated = after (answered 1 true) begun

abbrev first_read : Job
first_read = after (polled 0 (pos 2)) populated

abbrev both_read : Job
both_read = after (polled 1 (pos 1)) first_read

abbrev shown : Job
shown = after tick both_read

abbrev last_written : Job
last_written = after (answered 1 true) shown

abbrev all_written : Job
all_written = after (answered 0 true) last_written

begun_reached : Reaches round_up sparse_opts plan ready_job 0 begun
begun_reached = begin found begins_lem

populated_reached : Reaches round_up sparse_opts plan ready_job 1 populated
unfolding seek_units target_seek seek_target seek_file seek_file_hole target_populate_buffer fill
    target_read launch
populated_reached =
    then_event (answered 1 true) no_more begun_reached (omega arith, _, refl, refl)
      (at_end begun refl) refl

first_read_reached : Reaches round_up sparse_opts plan ready_job 2 first_read
unfolding seek_units target_seek seek_target seek_file seek_file_hole target_populate_buffer fill
    target_read target_write launch deliver complete uring_completion bdev_completion complete_poll
    advance finish exit show_progress overwrite
first_read_reached =
    then_event (polled 0 (pos 2)) no_more populated_reached (omega arith, _, refl, refl)
      (at_end populated refl) refl

both_read_reached : Reaches round_up sparse_opts plan ready_job 3 both_read
unfolding seek_units target_seek seek_target seek_file seek_file_hole target_populate_buffer fill
    target_read target_write launch deliver complete uring_completion bdev_completion complete_poll
    advance finish exit show_progress overwrite
both_read_reached =
    then_event (polled 1 (pos 1)) no_more first_read_reached (omega arith, _, refl, refl)
      (at_end first_read refl) refl

shown_reached : Reaches round_up sparse_opts plan ready_job 3 shown
unfolding seek_units target_seek seek_target seek_file seek_file_hole target_populate_buffer fill
    target_read target_write launch deliver complete uring_completion bdev_completion complete_poll
    advance finish exit show_progress overwrite
shown_reached = then_event tick no_more both_read_reached tt (at_end both_read refl) refl

last_written_reached : Reaches round_up sparse_opts plan ready_job 4 last_written
unfolding seek_units target_seek seek_target seek_file seek_file_hole target_populate_buffer fill
    target_read target_write launch deliver complete uring_completion bdev_completion complete_poll
    advance finish exit show_progress overwrite
last_written_reached =
    then_event (answered 1 true) no_more shown_reached (omega arith, _, refl, refl)
      (at_end shown refl) refl

all_written_reached : Reaches round_up sparse_opts plan ready_job 5 all_written
unfolding seek_units target_seek seek_target seek_file seek_file_hole target_populate_buffer fill
    target_read target_write launch deliver complete uring_completion bdev_completion complete_poll
    advance finish exit show_progress overwrite
all_written_reached =
    then_event (answered 0 true) no_more last_written_reached (omega arith, _, refl, refl)
      (at_end last_written refl) refl

at_rest : all_written.outstanding ≡ 0
unfolding seek_units target_seek seek_target seek_file seek_file_hole target_populate_buffer fill
    target_read target_write launch deliver complete uring_completion bdev_completion complete_poll
    advance finish exit show_progress overwrite
at_rest = refl

copy_ends_example :
    (5 ≤ 20)
    × ((all_written.exits ≡ pos 0 ∷ [])
        ⊎ ((i : ℕ) × (i < 2) × (sub : Submission) × ((all_written.ios i).flight ≡ some sub)))
copy_ends_example =
    copy_ends round_up sparse_opts plan plan_lem ready_job ready_lem all_written_reached

Reaches-Inv_example : Inv round_up sparse_opts plan last_written
Reaches-Inv_example =
    Reaches-Inv round_up sparse_opts plan plan_lem ready_job ready_lem last_written_reached

-- The input's descriptor is closed.
abbrev refused : Answers
refused = record no_more { data_errno = 9 }

abbrev after_first : ℕ → Answers
after_first zero = no_more
after_first (suc k) = refused

ready-IsIdle : IsIdle sparse_opts ready_job
ready-IsIdle = record {
  from_file = refl;
  some_bytes = refl;
  idle = refl;
  calm = refl;
  running = refl;
}

-- Two units, and the file has no data.
hole_exits_example :
    (seek_units round_up sparse_opts after_first 2 ready_job).exits ≡ pos 9 ∷ pos 0 ∷ []
hole_exits_example =
    hole_exits round_up sparse_opts refl after_first ((0, refl), refl, (0, refl), refl)
      (λ k. ((0, refl), refl)) ready_job ready-IsIdle 2

-- The second unit's first read, from an input file with descriptor 0 to an output bdev.
uring_submit-Refines_example :
    moved
      (register true false 2 4 ready_job)
      (submitted round_up opts no_more dd_read 1 ready_job)
      1
    ≡ some (record { writes = false; fd = pos 0; unit = 1; size = 4; length = 4; offset = 0 })
uring_submit-Refines_example =
    uring_submit-Refines round_up opts no_more true false 2 4 ready_job dd_read 1 refl refl refl
      refl tt (omega arith) (omega arith) (omega arith)
