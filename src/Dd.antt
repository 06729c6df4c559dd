-- ===== src/Dd.antt =====
-- src/app/spdk_dd.c: the program that copies between files and bdevs. This file has its options, its
-- targets, its units of I/O and its job; the children have the operations on them, in the order in
-- which they call each other, and the proofs.
pub mod Copy
pub mod Seek
pub mod Events
pub mod Flags
pub mod Setup
pub mod Prepare
pub mod Accepted
pub mod Invariant
pub mod Run
pub mod Whole
pub mod Inside
pub mod Checks
pub mod Partial
pub mod Hangs
pub mod Names
pub mod Drains
pub mod Stop
pub mod Closed
pub mod Uring
pub mod Progress
pub mod Holes
use Prim.Native.Nat.{min}
use bdev_ubi.Common.{
  ℕ, ◌+◌, ◌-◌, ◌*◌, ◌/◌, ◌%◌, ◌^◌, Bool, true, false, not, ◌||◌, Option, none, some, List, [], ◌∷◌,
  ◌==◌, if◌then◌else◌, ℤ, is_zero,
}
use bdev_ubi.Posix.{Memory}

-- The options that the copy reads. `has_output_file` is whether `output_file` is set.
pub record Opts : Type 0 where
  pub input_offset : ℕ
  pub output_offset : ℕ
  pub io_unit_size : ℕ
  pub io_unit_count : ℕ
  pub queue_depth : ℕ
  pub aio : Bool
  pub sparse : Bool
  pub has_output_file : Bool

-- `enum dd_submit_type`
pub data SubmitType : Type 0 where
  dd_populate dd_read dd_write : SubmitType

-- What the kernel or SPDK was asked to do for a unit of I/O, while it has not answered.
pub data Operation : Type 0 where
  read_input read_output write_output seek_data seek_hole : Operation

pub record Submission : Type 0 where
  pub operation : Operation
  pub offset : ℕ
  pub length : ℕ

-- `struct dd_io`, with its buffer and what is in flight for it.
pub record Io : Type 0 where
  pub offset : ℕ
  pub length : ℕ
  pub type : SubmitType
  pub buf : Memory
  pub flight : Option Submission

-- `enum dd_target_type`
pub data TargetType : Type 0 where
  file bdev : TargetType

-- `struct dd_target`. A block size is not 0. `fd` is the descriptor of a file, and `has_channel` is
-- whether a bdev's `ch` is set; `is_open` is the field `open`.
pub record Target : Type 0 where
  pub type : TargetType
  pub fd : ℤ
  pub has_channel : Bool
  pub block_size : ℕ
  pub pos : ℕ
  pub total_size : ℕ
  pub is_open : Bool

-- A field of g_job that the code hands on by address.
pub data Side : Type 0 where
  on_input on_output : Side

-- The calls that open and close what a side's target holds, and that unregister the pollers.
pub data Call : Type 0 where
  file_opened file_closed : Side → ℤ → Call
  desc_opened desc_closed channel_got channel_put : Side → Call
  io_poller_unregistered status_poller_unregistered : Call

-- `struct dd_job`, with g_error and g_interrupt, the bytes of the output, the codes that dd_exit was
-- called with, and the calls on the targets, both newest first.
pub record Job : Type 0 where
  pub input : Target
  pub output : Target
  pub ios : ℕ → Io
  pub outstanding : ℕ
  pub copy_size : ℕ
  pub seek_queue : List ℕ
  pub total_bytes : ℕ
  pub incremental_bytes : ℕ
  pub error : ℤ
  pub interrupt : Bool
  pub disk : Memory
  pub exits : List ℤ
  pub calls : List Call

-- What the kernel and SPDK answer to the calls of one callback: the code of a submission by libaio or
-- to a bdev, the code of a bdev's seek, lseek's two results for data and hole, and the results of
-- lseek and of ftruncate at the end, each with its errno.
pub record Answers : Type 0 where
  pub submit_rc : ℤ
  pub seek_rc : ℤ
  pub data_offset : ℤ
  pub data_errno : ℕ
  pub hole_offset : ℤ
  pub hole_errno : ℕ
  pub end_offset : ℤ
  pub end_errno : ℕ
  pub truncate_rc : ℤ
  pub truncate_errno : ℕ

-- Arithmetic of uint64_t.
abbrev pub add64 : ℕ → ℕ → ℕ
add64 a b = (a + b) % 2 ^ 64

-- The second argument is below 2 ^ 64.
abbrev pub sub64 : ℕ → ℕ → ℕ
sub64 a b = (a + 2 ^ 64 - b) % 2 ^ 64

abbrev pub mul64 : ℕ → ℕ → ℕ
mul64 a b = a * b % 2 ^ 64

abbrev pub read_region_start : Opts → ℕ
read_region_start o = mul64 o.input_offset o.io_unit_size

abbrev pub write_region_start : Opts → ℕ
write_region_start o = mul64 o.output_offset o.io_unit_size

-- `g_error != 0 || g_interrupt == true`
abbrev pub is_stopped : Job → Bool
is_stopped s = not (is_zero s.error) || s.interrupt

-- A unit of I/O is changed.
abbrev pub update : (ℕ → Io) → ℕ → Io → ℕ → Io
update ios i io j = if j == i then io else ios j
