-- ===== src/Tests/Options.antt =====
-- dd_run of src/app/spdk_dd.c with options, and the theorems on it applied to them.
use mathlib.Core.Bool.{true≢false}
use bdev_ubi.Common.{
  sym, ℕ, ◌+◌, ◌≤◌, ◌≡◌, refl, inr, true, false, none, some, [], ◌∷◌, ℤ, pos, negsuc, neg, arith,
  subst,
}
use bdev_ubi.Posix.{Memory, overwrite}
use bdev_ubi.Dd.{
  channel_got, desc_opened, on_input, on_output, Submission, Io, Job, file, bdev, write_output,
  seek_data, dd_read, dd_write, update,
}
use bdev_ubi.Dd.Copy.{
  exit, show_progress, finish, launch, target_write, target_read, fill, target_populate_buffer,
}
use bdev_ubi.Dd.Seek.{target_seek, seek_units}
use bdev_ubi.Dd.Events.{
  Event, polled, answered, sought, tick, deliver, complete, uring_completion, bdev_completion,
  complete_poll, advance,
}
use bdev_ubi.Dd.Flags.{append, direct, sync, parse_flags, name_of}
use bdev_ubi.Common.Outcome.{done, ◌>>=◌}
use bdev_ubi.Dd.Names.{joined, parse_flags-joined}
use bdev_ubi.Dd.Setup.{Settings, default_settings, check_settings, opts_of, Device, Setup, goes_on}
use bdev_ubi.Dd.Prepare.{
  fresh_unit, first_setup, open_bdev, open_input, size_copy, check_output, open_output, check_unit,
  Host, allocate, start_ring, prepare, run,
}
use bdev_ubi.Dd.Invariant.{IsPlan}
use bdev_ubi.Dd.Closed.Paired.{IsClosedTimes, run_closes}
use bdev_ubi.Dd.Run.{Reaches, begin, then_event}
use bdev_ubi.Dd.Whole.{plan_of}
use bdev_ubi.Dd.Inside.{run_writes_inside}
use bdev_ubi.Dd.Stop.{Stops, stopped_drains}
use bdev_ubi.Dd.Hangs.{run_events, lost_search_hangs, run_without_units}
use bdev_ubi.Dd.Partial.{aio_write_enospc}
use bdev_ubi.Dd.Checks.{IsValid, check_settings-IsValid}
use bdev_ubi.Tests.Copies.{round_up, round_up-IsCeilDiv, accepts, ready_job, opts}

-- From one bdev to another: five bytes from position 4 to position 8.
abbrev settings : Settings
settings = record default_settings {
  input_bdev = true;
  output_bdev = true;
  input_offset = 1;
  output_offset = 2;
  io_unit_size = pos 4;
}

settings_pass : check_settings settings ≡ pos 0
unfolding check_settings
settings_pass = refl

check_settings-IsValid_example : IsValid settings
check_settings-IsValid_example = check_settings-IsValid settings settings_pass

abbrev device_of : ℕ → ℕ → Device
device_of block blocks = record {
  open_rc = pos 0;
  open_errno = 0;
  file_block = 0;
  file_size = 0;
  has_channel = true;
  bdev_block = block;
  bdev_blocks = blocks;
}

abbrev host : Host
host = record {
  has_ios = true;
  buffers = λ i. some (λ x. 0);
  ring_rc = pos 0;
  files_rc = pos 0;
  buffers_rc = pos 0;
}

abbrev old : Memory
old x = x

abbrev new : Memory
new x = 100 + x

-- What dd_run has before its last loop, for a queue depth.
abbrev setup_of : Settings → ℕ → (ℕ → Io) → Setup
setup_of g depth ios = record (first_setup g old) {
  opts = record (opts_of g) { queue_depth = depth };
  job = record (first_setup g old).job {
    input = record {
      type = bdev;
      fd = pos 0;
      has_channel = true;
      block_size = 1;
      pos = 4;
      total_size = 9;
      is_open = true;
    };
    output = record {
      type = bdev;
      fd = pos 0;
      has_channel = true;
      block_size = 2;
      pos = 8;
      total_size = 64;
      is_open = true;
    };
    copy_size = 5;
    ios = ios;
    calls =
        channel_got on_output
        ∷ desc_opened on_output
        ∷ channel_got on_input
        ∷ desc_opened on_input
        ∷ [];
  };
}

abbrev setup : Setup
setup = setup_of settings 2 (
    update (update (λ i. fresh_unit 0 (λ x. 0)) 0 (fresh_unit 4 (λ x. 0))) 1
      (fresh_unit 4 (λ x. 0)))

setup_lem :
    prepare settings (device_of 1 9) (device_of 2 32) host (first_setup settings old)
    ≡ goes_on setup
unfolding prepare open_input open_bdev size_copy open_output check_output check_unit allocate
    start_ring
setup_lem = refl

abbrev setup_plan : IsPlan round_up setup.opts (plan_of setup new old)
setup_plan = record {
  rounding = round_up-IsCeilDiv;
  uring = refl;
  some_unit = omega arith;
  some_bytes = omega arith;
  some_block = omega arith;
  unit_bytes = omega arith;
  unit_blocks = refl;
  input_fits = omega arith;
  output_fits = omega arith;
}

abbrev after : Event → Job → Job
after e s = deliver round_up setup.opts new accepts e s

abbrev begun : Job
begun = seek_units round_up setup.opts (λ i. accepts) 2 setup.job

abbrev populated : Job
populated = after (answered 1 true) begun

abbrev first_read : Job
first_read = after (answered 0 true) populated

abbrev both_read : Job
both_read = after (answered 1 true) first_read

abbrev last_written : Job
last_written = after (answered 1 true) both_read

abbrev all_written : Job
all_written = after (answered 0 true) last_written

-- The copy is not sparse.
plain : {A : Type 0} → false ≡ true → A
plain e = absurd (true≢false (sym e))

abbrev ended : Job
ended =
    run_events round_up setup.opts new
      ((answered 1 true, accepts)
        ∷ (answered 0 true, accepts)
        ∷ (answered 1 true, accepts)
        ∷ (answered 1 true, accepts)
        ∷ (answered 0 true, accepts)
        ∷ [])
      (seek_units round_up setup.opts (λ i. accepts) 2 setup.job)

run_closes_example :
    IsClosedTimes 1 on_input (pos 0) ended.calls × IsClosedTimes 1 on_output (pos 0) ended.calls
unfolding seek_units target_seek target_populate_buffer fill target_read target_write launch deliver
    complete uring_completion bdev_completion complete_poll advance finish exit show_progress
    overwrite run_events
run_closes_example =
    run_closes settings old (device_of 1 9) (device_of 2 32) host setup settings_pass setup_lem refl
      round_up new (λ i. accepts)
      ((answered 1 true, accepts)
        ∷ (answered 0 true, accepts)
        ∷ (answered 1 true, accepts)
        ∷ (answered 1 true, accepts)
        ∷ (answered 0 true, accepts)
        ∷ [])

-- --count 1: one unit of four bytes.
abbrev one_unit : Settings
one_unit = record settings { io_unit_count = pos 1 }

abbrev one_setup : Setup
one_setup =
    record (setup_of one_unit 1 (update (λ i. fresh_unit 0 (λ x. 0)) 0 (fresh_unit 4 (λ x. 0)))) {
      job =
          record (setup_of one_unit 1
            (update (λ i. fresh_unit 0 (λ x. 0)) 0 (fresh_unit 4 (λ x. 0)))).job { copy_size = 4 };
    }

one_setup_lem :
    prepare one_unit (device_of 1 9) (device_of 2 32) host (first_setup one_unit old)
    ≡ goes_on one_setup
unfolding prepare open_input open_bdev size_copy open_output check_output check_unit allocate
    start_ring
one_setup_lem = refl

abbrev one_plan : IsPlan round_up one_setup.opts (plan_of one_setup new old)
one_plan = record {
  rounding = round_up-IsCeilDiv;
  uring = refl;
  some_unit = omega arith;
  some_bytes = omega arith;
  some_block = omega arith;
  unit_bytes = omega arith;
  unit_blocks = refl;
  input_fits = omega arith;
  output_fits = omega arith;
}

abbrev one_begun : Job
one_begun = seek_units round_up one_setup.opts (λ i. accepts) 1 one_setup.job

abbrev one_read : Job
one_read = deliver round_up one_setup.opts new accepts (answered 0 true) one_begun

one_begun_reached :
    Reaches round_up one_setup.opts (plan_of one_setup new old) one_setup.job 0 one_begun
one_begun_reached =
    begin (λ i. accepts)
      (record { accepted = λ i. refl; searches = λ k h. plain; some_data = plain })

one_read_reached :
    Reaches round_up one_setup.opts (plan_of one_setup new old) one_setup.job 1 one_read
unfolding seek_units target_seek target_populate_buffer fill target_read target_write launch deliver
    complete uring_completion bdev_completion complete_poll advance finish exit show_progress
    overwrite
one_read_reached =
    then_event (answered 0 true) accepts one_begun_reached (omega arith, _, refl, refl) plain refl

one_write :
    (one_read.ios 0).flight ≡ some (record { operation = write_output; offset = 8; length = 4 })
unfolding seek_units target_seek target_populate_buffer fill target_read target_write launch deliver
    complete uring_completion bdev_completion complete_poll advance finish exit show_progress
    overwrite
one_write = refl

run_writes_inside_example : 8 + 4 ≤ 64
run_writes_inside_example =
    run_writes_inside one_unit old (device_of 1 9) (device_of 2 32) host one_setup one_setup_lem
      refl plain new round_up one_plan refl refl (λ e. absurd (omega (arith, e))) (omega arith)
      one_read_reached 0 (record { operation = write_output; offset = 8; length = 4 }) (omega arith)
      one_write tt

parse_flags-joined_example :
    (parse_flags (joined append (direct ∷ sync ∷ []))
      ≡ (some (append ∷ direct ∷ sync ∷ []), name_of append))
    × (parse_flags (parse_flags (joined append (direct ∷ sync ∷ []))).1
        ≡ (some (append ∷ []), name_of append))
parse_flags-joined_example = parse_flags-joined append (direct ∷ sync ∷ []) tt (tt, (tt, tt))

abbrev write_sub : Submission
write_sub = record { operation = write_output; offset = 8; length = 4 }

-- The first unit has a write in flight, and the job was interrupted.
abbrev interrupted_job : Job
interrupted_job = record ready_job {
  ios = λ i. record (fresh_unit 4 old) { type = dd_write; flight = some write_sub };
  outstanding = 2;
  interrupt = true;
}

abbrev IsNat : ℤ → Type 0
IsNat (pos n) = Unit {0}
IsNat (negsuc e) = ⊥

stopped_drains_example :
    Stops interrupted_job 0 (deliver round_up opts new accepts (polled 0 (pos 4)) interrupted_job)
stopped_drains_example =
    stopped_drains round_up opts new accepts interrupted_job 0 write_sub refl refl
      (polled 0 (pos 4)) (refl, inr (λ e. subst IsNat e tt))

abbrev search_sub : Submission
search_sub = record { operation = seek_data; offset = 4; length = 0 }

-- A search for data is in flight, and the job was interrupted.
abbrev searching_job : Job
searching_job = record ready_job {
  ios = update ready_job.ios 0 (record (fresh_unit 4 old) { flight = some search_sub });
  outstanding = 1;
  seek_queue = 0 ∷ [];
  interrupt = true;
}

lost_search_hangs_example :
    (run_events round_up opts new
      ((tick, accepts) ∷ (sought 0 none, accepts) ∷ [])
      (deliver round_up opts new accepts (sought 0 (some 6)) searching_job)).exits
    ≡ []
lost_search_hangs_example =
    lost_search_hangs round_up opts new refl searching_job 0 search_sub (some 6) accepts refl refl
      refl (λ k e. rw e refl) refl ((tick, accepts) ∷ (sought 0 none, accepts) ∷ [])

-- --qd 0
abbrev no_queue : Settings
no_queue = record settings { queue_depth = 0 }

no_queue_lem :
    prepare no_queue (device_of 1 9) (device_of 2 32) host (first_setup no_queue old)
    ≡ goes_on (setup_of no_queue 0 (λ i. fresh_unit 0 (λ x. 0)))
unfolding prepare open_input open_bdev size_copy open_output check_output check_unit allocate
    start_ring
no_queue_lem = refl

run_without_units_example :
    (run round_up
        (λ i. accepts)
        no_queue
        (device_of 1 9)
        (device_of 2 32)
        host
        (first_setup no_queue old)
      >>= λ s.
          done
            (run_events round_up
              (record (opts_of no_queue) { queue_depth = 0 })
              new
              ((tick, accepts) ∷ [])
              s).exits)
    ≡ done []
run_without_units_example =
    run_without_units round_up new no_queue old (device_of 1 9) (device_of 2 32) host (λ i. accepts)
      (setup_of no_queue 0 (λ i. fresh_unit 0 (λ x. 0))) no_queue_lem refl refl
      ((tick, accepts) ∷ [])

-- A unit of three bytes goes to a file with blocks of two bytes.
abbrev partial_job : Job
partial_job = record ready_job {
  output = record ready_job.output { type = file };
  ios = λ i. record (fresh_unit 3 old) { offset = 4; type = dd_read };
}

aio_write_enospc_example :
    (deliver round_up
      (record opts { aio = true })
      new
      accepts
      (polled 0 (pos 4))
      (target_write round_up (record opts { aio = true }) accepts 0 partial_job)).error
    ≡ neg 28
aio_write_enospc_example =
    aio_write_enospc round_up (record opts { aio = true }) new accepts refl partial_job 0 refl refl
      refl (λ e. absurd (omega (arith, e))) (omega arith)
