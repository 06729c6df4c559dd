-- ===== src/Dd/Prepare.antt =====
-- src/app/spdk_dd.c: dd_run, which opens the two targets, checks the sizes, and starts the copy.
use Prim.Native.Nat.{max}
use bdev_ubi.Common.{
  ℕ, ◌%◌, Bool, true, false, not, ◌||◌, ◌&&◌, Option, none, some, List, [], ◌∷◌, ◌==◌, ltb,
  if◌then◌else◌, ℤ, pos, neg, is_neg, is_zero, enomem, einval, zero, suc, leb, ◌*◌,
}
use bdev_ubi.Common.Outcome.{Outcome, done, fault}
use bdev_ubi.Posix.{Memory, FilePath}
use bdev_ubi.Dd.{
  Opts, dd_populate, Io, file, bdev, Target, Job, Answers, add64, mul64, sub64, read_region_start,
  write_region_start, update, Side, on_input, on_output, Call, file_opened, desc_opened,
  desc_closed, channel_got,
}
use bdev_ubi.Dd.Copy.{exit}
use bdev_ubi.Dd.Seek.{seek_units}
use bdev_ubi.Dd.Flags.{OpenFlag, parse_flags, open_flags, has_flag, direct, emptied}
use bdev_ubi.Dd.Setup.{
  Settings, opts_of, Device, Setup, Attempt, returned, goes_on, undefined, ◌>>=◌, ◌>>◌, refuse,
  limit_by_count, limit_by_size, enospc,
}

-- A unit before its first call, with `length` bytes.
abbrev pub fresh_unit : ℕ → Memory → Io
fresh_unit length buf = record {
  offset = 0;
  length = length;
  type = dd_populate;
  buf = buf;
  flight = none;
}

abbrev pub no_target : Target
no_target = record {
  type = file;
  fd = pos 0;
  has_channel = false;
  block_size = 0;
  pos = 0;
  total_size = 0;
  is_open = false;
}

-- A target that is written through its address.
abbrev pub place : Side → Target → Job → Job
place on_input t s = record s { input = t }
place on_output t s = record s { output = t }

abbrev pub log : Call → Job → Job
log c s = record s { calls = c ∷ s.calls }

-- dd_run's state at its start: g_job is zero. `disk` is what the output has.
abbrev pub first_setup : Settings → Memory → Setup
first_setup g disk = record {
  opts = opts_of g;
  job = record {
    input = no_target;
    output = no_target;
    ios = λ i. fresh_unit 0 (λ x. 0);
    outstanding = 0;
    copy_size = 0;
    seek_queue = [];
    total_bytes = 0;
    incremental_bytes = 0;
    error = pos 0;
    interrupt = false;
    disk = disk;
    exits = [];
    calls = [];
  };
  input_flags = g.input_file_flags;
  output_flags = g.output_file_flags;
  opened = [];
}

-- The target of a call of dd_open_file.
abbrev pub side_of : Bool → Side
side_of true = on_input
side_of false = on_output

-- Whether `io_unit_size * io_unit_count`, a product of two int64_t, overflows.
abbrev pub overflows : Opts → Bool
overflows o = leb 9223372036854775808 (o.io_unit_size * o.io_unit_count)

-- The target that dd_open_file makes, with the options' product as the size of an empty file.
abbrev pub file_target : Opts → Device → Target
file_target o d = record {
  type = file;
  fd = d.open_rc;
  has_channel = false;
  is_open = false;
  block_size = max d.file_block 1;
  pos = 0;
  total_size = if d.file_size == 0 then mul64 o.io_unit_size o.io_unit_count else d.file_size;
}

-- dd_open_file, and what dd_run does where it fails.
unfoldable pub open_file : Bool → Device → List OpenFlag → Setup → Attempt (Setup × Target)
unfolding open_flags
open_file is_input d flags t =
    if is_neg d.open_rc
    then returned (
        exit (neg d.open_errno)
          (place (side_of is_input) (record no_target { fd = d.open_rc }) t.job))
    else if d.file_size == 0 && overflows t.opts
    then undefined
    else (let target = file_target t.opts d in
        let o = t.opts in
        let flags' = open_flags is_input flags in
        goes_on (
          record t {
            opts =
                limit_by_count
                  (if is_input then limit_by_size target.total_size o.input_offset o else o);
            opened = flags' ∷ t.opened;
            job =
                log (file_opened (side_of is_input) d.open_rc)
                  (record t.job { disk = emptied flags' t.job.disk });
          },
          target,
        ))

abbrev pub bdev_target : Device → Target
bdev_target d = record {
  type = bdev;
  fd = pos 0;
  has_channel = true;
  is_open = true;
  block_size = d.bdev_block;
  pos = 0;
  total_size = mul64 d.bdev_blocks d.bdev_block;
}

-- dd_open_bdev, and what dd_run does where it fails.
unfoldable pub open_bdev : Side → ℕ → Device → Setup → Attempt (Setup × Target)
open_bdev side skip d t =
    if is_neg d.open_rc
    then returned (exit d.open_rc (place side (record no_target { type = bdev }) t.job))
    else if not d.has_channel
    then returned (
        exit (neg enomem) (
          place side (record no_target { type = bdev; is_open = true })
            (log (desc_closed side) (log (desc_opened side) t.job))))
    else (let target = bdev_target d in
        goes_on (
          record t {
            opts = limit_by_count (limit_by_size target.total_size skip t.opts);
            job = log (channel_got side) (log (desc_opened side) t.job);
          },
          target,
        ))

-- The flags that parse_flags finds, or dd_exit(-EINVAL), after which dd_run goes on with none.
unfoldable pub flags_or_exit : Option (List OpenFlag) → Setup → Setup × List OpenFlag
unfolding exit
flags_or_exit none t = (record t { job = exit (neg einval) t.job }, [])
flags_or_exit (some flags) t = (t, flags)

unfoldable pub read_input_flags : Option FilePath → Setup → Setup × List OpenFlag
unfolding parse_flags flags_or_exit
read_input_flags none t = (t, [])
read_input_flags (some s) t =
    let r = parse_flags s in flags_or_exit r.0 (record t { input_flags = some r.1 })

unfoldable pub read_output_flags : Option FilePath → Setup → Setup × List OpenFlag
unfolding parse_flags flags_or_exit
read_output_flags none t = (t, [])
read_output_flags (some s) t =
    let r = parse_flags s in flags_or_exit r.0 (record t { output_flags = some r.1 })

-- The part of dd_run that opens the input. Its position is the start of the region.
unfoldable pub open_input : Settings → Device → Setup → Attempt Setup
unfolding open_file open_bdev read_input_flags
open_input g d t = do
  r ←
      if g.input_file
      then (let f = read_input_flags t.input_flags t in open_file true d f.1 f.0)
      else if g.input_bdev
      then open_bdev on_input t.opts.input_offset d t
      else goes_on (t, t.job.input)
  let u = r.0
  goes_on
      (record u { job = record u.job { input = record r.1 { pos = read_region_start u.opts } } })

abbrev pub write_size : Opts → ℕ
write_size o = mul64 o.io_unit_count o.io_unit_size

-- The checks of the input's size, and the size of the copy.
unfoldable pub size_copy : Settings → Setup → Attempt Setup
size_copy g t =
    let at = t.job.input.pos in
    let total = t.job.input.total_size in
    let counted = not (t.opts.io_unit_count == 0) in
    if overflows t.opts then undefined else (do
      refuse (g.input_bdev && ltb total at) (neg enospc) t
      refuse (counted && (g.input_bdev && ltb total (add64 (write_size t.opts) at))) (neg enospc) t
      goes_on (record t {
        job = record t.job { copy_size = if counted then write_size t.opts else sub64 total at };
      }))

-- The checks of an output bdev's size.
unfoldable pub check_output : Setup → Attempt Setup
check_output t =
    let at = t.job.output.pos in
    let total = t.job.output.total_size in
    do
      refuse (ltb total at) (neg enospc) t
      refuse (not (t.opts.io_unit_count == 0) && ltb total (add64 (write_size t.opts) at))
          (neg enospc) t

-- The part of dd_run that opens the output. Its position is the start of the region.
unfoldable pub open_output : Settings → Device → Setup → Attempt Setup
unfolding open_file open_bdev read_output_flags check_output
open_output g d t = do
  r ←
      if g.output_file
      then (let f = read_output_flags t.output_flags t in open_file false d f.1 f.0)
      else if g.output_bdev
      then open_bdev on_output t.opts.output_offset d t
      else goes_on (t, t.job.output)
  let u = r.0
  let placed = record u {
    job = record u.job { output = record r.1 { pos = write_region_start t.opts } };
  }
  if not g.output_file && g.output_bdev then check_output placed else goes_on placed

-- The checks of the unit's size.
unfoldable pub check_unit : Settings → Setup → Attempt Setup
check_unit g t =
    let unit = t.opts.io_unit_size in
    do
      refuse (ltb unit t.job.output.block_size || ltb unit t.job.input.block_size) (neg einval) t
      refuse (g.input_bdev && not (unit % t.job.input.block_size == 0)) (neg einval) t

-- What the system answers while dd_run allocates the units and makes the ring: calloc, spdk_malloc for
-- unit `i`, the ring's creation, and the registration of files and of buffers.
pub record Host : Type 0 where
  pub has_ios : Bool
  pub buffers : ℕ → Option Memory
  pub ring_rc : ℤ
  pub files_rc : ℤ
  pub buffers_rc : ℤ

-- The loop over the units' buffers.
unfoldable pub allocate : (ℕ → Option Memory) → ℕ → Setup → Attempt Setup
allocate buffers zero t = goes_on t
allocate buffers (suc n) t = do
  u ← allocate buffers n t
  elim (buffers n) [
    | none ↦ returned (exit (neg enomem) u.job)
    | some buf ↦ goes_on (record u {
      job = record u.job { ios = update u.job.ios n (fresh_unit u.opts.io_unit_size buf) };
    })
  ]

-- The flags of both files once more, for the ring. parse_flags sees what its first calls left.
unfoldable pub ring_flags : Setup → Setup × List OpenFlag × List OpenFlag
unfolding read_input_flags read_output_flags
ring_flags t =
    let f = read_input_flags t.input_flags t in
    let g = read_output_flags f.0.output_flags f.0 in (g.0, f.1, g.1)

-- IORING_SETUP_IOPOLL, or IORING_SETUP_SQPOLL. `on_disks` is whether both files are block devices.
unfoldable pub polls_disk : Bool → List OpenFlag → List OpenFlag → Bool
unfolding has_flag
polls_disk on_disks f g = has_flag direct f && (has_flag direct g && on_disks)

-- The part of dd_run that makes the io_uring.
unfoldable pub start_ring : Settings → Host → Setup → Attempt Setup
unfolding ring_flags
start_ring g h t =
    if (g.input_file || g.output_file) && not t.opts.aio
    then (do
      let u = (ring_flags t).0
      refuse (not (is_zero h.ring_rc)) h.ring_rc u
      refuse (not (is_zero h.files_rc)) h.files_rc u
      refuse (not (is_zero h.buffers_rc)) h.buffers_rc u)
    else goes_on t

-- dd_run before its last loop.
unfoldable pub prepare : Settings → Device → Device → Host → Setup → Attempt Setup
unfolding open_input size_copy open_output check_unit allocate start_ring
prepare g d e h t = do
  input ← open_input g d t
  sized ← size_copy g input
  output ← open_output g e sized
  checked ← check_unit g output
  refuse (not h.has_ios) (neg enomem) checked
  ready ← allocate h.buffers checked.opts.queue_depth checked
  start_ring g h ready

-- The job of an attempt, with its last loop run where it goes on.
abbrev pub finish_run : (ℕ → ℕ → ℕ) → (ℕ → Answers) → Attempt Setup → Outcome Job
finish_run ceil_div a (returned s) = done s
finish_run ceil_div a (goes_on t) = done (seek_units ceil_div t.opts a t.opts.queue_depth t.job)
finish_run ceil_div a undefined = fault

-- dd_run
unfoldable pub run :
    (ℕ → ℕ → ℕ) → (ℕ → Answers) → Settings → Device → Device → Host → Setup → Outcome Job
unfolding prepare
run ceil_div a g d e h t = finish_run ceil_div a (prepare g d e h t)
