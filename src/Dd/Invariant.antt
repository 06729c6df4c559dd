-- ===== src/Dd/Invariant.antt =====
-- What holds of a copy of src/app/spdk_dd.c, plain or of a sparse file, while no call fails: every byte
-- that the units have passed is on the output or of a hole, or a unit that is in flight has it.
pub mod Total
pub mod Moves
pub mod Writes
pub mod Steps
pub mod Finish
pub mod Take
pub mod Taken
pub mod Search
pub mod Searched
pub mod Keep
pub mod Measure
pub mod Start
use bdev_ubi.Common.{
  ℕ, ◌+◌, ◌-◌, ◌*◌, ◌%◌, ◌^◌, ◌≤◌, ◌<◌, ◌≡◌, ◌⊎◌, false, Option, none, some, pos, ℤ, Bool, true,
  inl, inr, ◌∙◌,
}
use bdev_ubi.Posix.{Memory}
use bdev_ubi.Dd.{
  Opts, SubmitType, dd_populate, dd_read, dd_write, read_input, read_output, write_output,
  Submission, Io, Job, read_region_start, write_region_start, file,
}
use bdev_ubi.Dd.Invariant.Total.{busy, total}

-- SPDK_CEIL_DIV: the smallest quotient that is enough.
abbrev pub IsCeilDiv : (ℕ → ℕ → ℕ) → Type 0
IsCeilDiv ceil_div = (x y : ℕ) → 0 < y → (x ≤ ceil_div x y * y) × (ceil_div x y * y < x + y)

-- The parameters of a copy: `n` units copy `size` bytes to an output with blocks of `block` bytes.
pub record Plan : Type 0 where
  pub n : ℕ
  pub size : ℕ
  pub block : ℕ
  pub input : Memory
  pub before : Memory

module _ (ceil_div : ℕ → ℕ → ℕ) (o : Opts) (p : Plan) where
  -- The files are copied by io_uring, the units are whole blocks, and its positions fit uint64_t.
  pub record IsPlan : Type 0 where
    pub rounding : IsCeilDiv ceil_div
    pub uring : o.aio ≡ false
    pub some_unit : 0 < p.n
    pub some_bytes : 0 < p.size
    pub some_block : 0 < p.block
    pub unit_bytes : 0 < o.io_unit_size
    pub unit_blocks : o.io_unit_size % p.block ≡ 0
    pub input_fits : read_region_start o + p.size < 2 ^ 64
    pub output_fits : write_region_start o + p.size + p.block < 2 ^ 64

  -- Where the bytes of a unit go.
  abbrev pub target_of : Io → ℕ
  target_of io = write_region_start o + (io.offset - read_region_start o)

  abbrev pub whole_of : Io → ℕ
  whole_of io = ceil_div io.length p.block * p.block

  -- A unit has some bytes that were taken, from a block's start, and whole blocks of them unless they
  -- are the last.
  abbrev pub Region : ℕ → Io → Type 0
  Region at io =
      (read_region_start o ≤ io.offset)
      × (io.offset + io.length ≤ at)
      × (0 < io.length)
      × ((io.length % p.block ≡ 0) ⊎ (io.offset + io.length ≡ read_region_start o + p.size))
      × ((io.offset - read_region_start o) % p.block ≡ 0)

  -- Behind the unit's bytes its buffer has what the output had.
  abbrev pub Tail : Io → Type 0
  Tail io = (x : ℕ) → io.length ≤ x → x < whole_of io → io.buf x ≡ p.before (target_of io + x)

  abbrev pub Filled : Io → Type 0
  Filled io = (x : ℕ) → x < io.length → io.buf x ≡ p.input (io.offset + x)

  abbrev pub Stage : SubmitType → Io → Submission → Type 0
  Stage dd_populate io sub =
      sub ≡ record { operation = read_output; offset = target_of io; length = whole_of io }
  Stage dd_read io sub =
      (sub ≡ record { operation = read_input; offset = io.offset; length = io.length }) × Tail io
  Stage dd_write io sub =
      (sub ≡ record { operation = write_output; offset = target_of io; length = whole_of io })
      × Tail io
      × Filled io

  abbrev pub IsUnit : ℕ → Io → Option Submission → Type 0
  IsUnit at io none = Unit {0}
  IsUnit at io (some sub) = Region at io × Stage io.type io sub

  -- A unit in flight has byte `j` of the copy.
  abbrev pub Owns : Io → ℕ → Type 0
  Owns io j =
      (busy io ≡ 1)
      × (io.offset ≤ read_region_start o + j)
      × (read_region_start o + j < io.offset + io.length)

  abbrev pub Same : Memory → ℕ → Type 0
  Same disk j = disk (write_region_start o + j) ≡ p.input (read_region_start o + j)

  -- Byte `j` is on the output; of a sparse input, a byte of a hole is left as it was.
  abbrev pub Arrived : Bool → Memory → ℕ → Type 0
  Arrived false disk j = Same disk j
  Arrived true disk j =
      Same disk j
      ⊎ ((p.input (read_region_start o + j) ≡ 0)
          × (disk (write_region_start o + j) ≡ p.before (write_region_start o + j)))

  pub data_Arrived : (sparse : Bool) (disk : Memory) (j : ℕ) → Same disk j → Arrived sparse disk j
  data_Arrived false disk j e = e
  data_Arrived true disk j e = inl e

  pub kept_Arrived :
      (sparse : Bool) (disk disk' : Memory) (j : ℕ)
      → disk' (write_region_start o + j) ≡ disk (write_region_start o + j)
      → Arrived sparse disk j
      → Arrived sparse disk' j
  kept_Arrived false disk disk' j e h = e ∙ h
  kept_Arrived true disk disk' j e (inl h) = inl (e ∙ h)
  kept_Arrived true disk disk' j e (inr (z, h)) = inr (z, e ∙ h)

  abbrev pub Covered : Job → ℕ → Type 0
  Covered s j = Arrived o.sparse s.disk j ⊎ ((i : ℕ) × (i < p.n) × Owns (s.ios i) j)

  pub record Core (s : Job) : Type 0 where
    pub sized : s.copy_size ≡ p.size
    pub blocks : s.output.block_size ≡ p.block
    pub from_file : o.sparse ≡ true → s.input.type ≡ file
    pub calm : s.error ≡ pos 0
    pub running : s.interrupt ≡ false
    pub low : read_region_start o ≤ s.input.pos
    pub high : s.input.pos ≤ read_region_start o + p.size
    pub aligned :
        ((s.input.pos - read_region_start o) % p.block ≡ 0)
        ⊎ (s.input.pos ≡ read_region_start o + p.size)
    pub counted : s.outstanding ≡ total p.n s.ios
    pub units : (i : ℕ) → i < p.n → IsUnit s.input.pos (s.ios i) (s.ios i).flight
    pub covered : (j : ℕ) → read_region_start o + j < s.input.pos → Covered s j
    pub untaken :
        (j : ℕ)
        → s.input.pos ≤ read_region_start o + j
        → j < p.size
        → s.disk (write_region_start o + j) ≡ p.before (write_region_start o + j)
    pub ahead : (x : ℕ) → x < write_region_start o → s.disk x ≡ p.before x
    pub behind : (x : ℕ) → write_region_start o + p.size ≤ x → s.disk x ≡ p.before x
