-- ===== src/Dd/Setup.antt =====
-- src/app/spdk_dd.c: the options, their checks in main, and dd_run up to its last loop. What a file or
-- a bdev answers when it is opened is an argument.
use Prim.Native.Nat.{min}
use bdev_ubi.Common.{
  ℕ, ◌-◌, ◌/◌, ◌%◌, ◌^◌, Bool, true, false, not, ◌||◌, ◌&&◌, Option, none, some, List, ◌==◌,
  if◌then◌else◌, ℤ, pos, negsuc, is_neg, is_zero, einval,
}
use bdev_ubi.Posix.{FilePath}
use bdev_ubi.Dd.{Opts, Job, add64, sub64}
use bdev_ubi.Dd.Copy.{exit}
use bdev_ubi.Dd.Flags.{OpenFlag}

-- ENOSPC
abbrev pub enospc : ℕ
enospc = 28

-- `struct spdk_dd_opts` before main's checks. Of the names only the presence matters.
pub record Settings : Type 0 where
  pub input_file : Bool
  pub output_file : Bool
  pub input_file_flags : Option FilePath
  pub output_file_flags : Option FilePath
  pub input_bdev : Bool
  pub output_bdev : Bool
  pub input_offset : ℕ
  pub output_offset : ℕ
  pub io_unit_size : ℤ
  pub io_unit_count : ℤ
  pub queue_depth : ℕ
  pub aio : Bool
  pub sparse : Bool

-- g_opts at the start.
abbrev pub default_settings : Settings
default_settings = record {
  input_file = false;
  output_file = false;
  input_file_flags = none;
  output_file_flags = none;
  input_bdev = false;
  output_bdev = false;
  input_offset = 0;
  output_offset = 0;
  io_unit_size = pos 4096;
  io_unit_count = pos 0;
  queue_depth = 2;
  aio = false;
  sparse = false;
}

-- The options of the command line. A number is what spdk_strtol makes of the text.
pub data Argument : Type 0 where
  arg_if arg_of arg_ib arg_ob arg_aio arg_sparse arg_unknown : Argument
  arg_iflag arg_oflag : FilePath → Argument
  arg_skip arg_seek arg_bs arg_qd arg_count : ℤ → Argument

-- A signed number as an unsigned one of `2 ^ w` values.
abbrev pub to_unsigned : ℕ → ℤ → ℕ
to_unsigned w (pos n) = n % 2 ^ w
to_unsigned w (negsuc e) = (2 ^ w - 1) - e % 2 ^ w

-- parse_args, none where it returns 1.
unfoldable pub parse_args : Argument → Settings → Option Settings
parse_args arg_if g = some (record g { input_file = true })
parse_args arg_of g = some (record g { output_file = true })
parse_args (arg_iflag flags) g = some (record g { input_file_flags = some flags })
parse_args (arg_oflag flags) g = some (record g { output_file_flags = some flags })
parse_args arg_ib g = some (record g { input_bdev = true })
parse_args arg_ob g = some (record g { output_bdev = true })
parse_args (arg_skip n) g = some (record g { input_offset = to_unsigned 64 n })
parse_args (arg_seek n) g = some (record g { output_offset = to_unsigned 64 n })
parse_args (arg_bs n) g = some (record g { io_unit_size = n })
parse_args (arg_qd n) g = some (record g { queue_depth = to_unsigned 32 n })
parse_args (arg_count n) g = some (record g { io_unit_count = n })
parse_args arg_aio g = some (record g { aio = true })
parse_args arg_sparse g = some (record g { sparse = true })
parse_args arg_unknown g = none

abbrev pub is_positive : ℤ → Bool
is_positive n = not (is_zero n || is_neg n)

abbrev pub is_set : Option FilePath → Bool
is_set none = false
is_set (some s) = true

-- The checks of main: EINVAL, or 0 where the program starts.
unfoldable pub check_settings : Settings → ℤ
check_settings g =
    if (g.input_file && g.input_bdev)
      || ((g.output_file && g.output_bdev)
          || ((not g.input_file && not g.input_bdev)
              || ((not g.output_file && not g.output_bdev)
                  || (not (is_positive g.io_unit_size)
                      || (is_neg g.io_unit_count
                          || ((not g.output_file && is_set g.output_file_flags)
                              || (not g.input_file && is_set g.input_file_flags)))))))
    then pos einval
    else pos 0

abbrev pub value_of : ℤ → ℕ
value_of (pos n) = n
value_of (negsuc e) = 0

-- The options of a program that starts.
abbrev pub opts_of : Settings → Opts
opts_of g = record {
  input_offset = g.input_offset;
  output_offset = g.output_offset;
  io_unit_size = value_of g.io_unit_size;
  io_unit_count = value_of g.io_unit_count;
  queue_depth = g.queue_depth;
  aio = g.aio;
  sparse = g.sparse;
  has_output_file = g.output_file;
}

-- What a file or a bdev answers: open or spdk_bdev_open_ext, with errno; spdk_fd_get_blocklen and
-- spdk_fd_get_size; spdk_bdev_get_io_channel, spdk_bdev_get_block_size and spdk_bdev_get_num_blocks.
pub record Device : Type 0 where
  pub open_rc : ℤ
  pub open_errno : ℕ
  pub file_block : ℕ
  pub file_size : ℕ
  pub has_channel : Bool
  pub bdev_block : ℕ
  pub bdev_blocks : ℕ

-- dd_run's state: the options, whose queue depth dd_open_file and dd_open_bdev change, the job, the
-- strings with flags, which parse_flags changes, and
-- the flags of the files that were opened, newest first.
pub record Setup : Type 0 where
  pub opts : Opts
  pub job : Job
  pub input_flags : Option FilePath
  pub output_flags : Option FilePath
  pub opened : List (List OpenFlag)

-- dd_run returned early, or it goes on; or a signed product overflowed.
pub data Attempt (A : Type 0) : Type 0 where
  returned : Job → Attempt A
  goes_on : A → Attempt A
  undefined : Attempt A

infixl 5 ◌>>=◌
abbrev pub ◌>>=◌ : {A B : Type 0} → Attempt A → (A → Attempt B) → Attempt B
returned s >>= f = returned s
goes_on a >>= f = f a
undefined >>= f = undefined

infixl 5 ◌>>◌
abbrev pub ◌>>◌ : {A B : Type 0} → Attempt A → Attempt B → Attempt B
a >> b = a >>= λ x. b

-- The calls of dd_exit in dd_run, behind a condition.
abbrev pub refuse : Bool → ℤ → Setup → Attempt Setup
refuse wrong rc t = if wrong then returned (exit rc t.job) else goes_on t

-- The last statement of dd_open_file and of dd_open_bdev.
abbrev pub limit_by_count : Opts → Opts
limit_by_count o =
    if o.io_unit_count == 0 then o else record o { queue_depth = min o.queue_depth o.io_unit_count }

-- `spdk_min(queue_depth, total_size / io_unit_size - skip_blocks + 1)`
abbrev pub limit_by_size : ℕ → ℕ → Opts → Opts
limit_by_size total_size skip o = record o {
  queue_depth = min o.queue_depth (add64 (sub64 (total_size / o.io_unit_size) skip) 1);
}
