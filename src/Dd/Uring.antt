-- ===== src/Dd/Uring.antt =====
-- src/app/spdk_dd.c: what dd_uring_submit hands to io_uring, with the files and buffers that dd_run
-- registered there. The child has what the submissions of the copy become.
pub mod Refines
use native.Mathlib.Nat.{mod-eq_of_lt}
use mathlib.Core.Bool.{true≢false}
use bdev_ubi.Common.{
  ℕ, zero, suc, ◌<◌, ◌≡◌, refl, ap, ◌∙◌, sym, inl, inr, Bool, true, false, Option, none, some, List,
  [], ◌∷◌, ◌++◌, ◌==◌, if◌then◌else◌, ℤ, arith, Bool-cases, ==_iff, ◌≤◌, ◌&&◌, leb, ◌%◌, ◌^◌, pos,
}
use bdev_ubi.Dd.{
  SubmitType, dd_populate, dd_read, dd_write, Target, TargetType, file, Job, Side, on_input,
  on_output, Operation, read_input, read_output, write_output, seek_data, seek_hole, Submission, Io,
  Opts, Answers, is_stopped, add64,
}
use bdev_ubi.Dd.Copy.{
  submit_code, launch, fill, target_read, target_write, whole_blocks, write_offset,
}

-- The files and the buffers of the ring, in their order, and the index that each target got. A buffer is
-- that of a unit, with its size.
pub record Registered : Type 0 where
  pub fds : List ℤ
  pub input_idx : ℕ
  pub output_idx : ℕ
  pub buffers : List (ℕ × ℕ)

-- dd_register_files. `has_input` and `has_output` are whether the targets are files.
unfoldable pub register_files : Bool → Bool → Job → List ℤ × ℕ × ℕ
register_files has_input has_output s =
    let inputs = if has_input then s.input.fd ∷ [] else [] in
    let outputs = if has_output then s.output.fd ∷ [] else [] in
    (inputs ++ outputs, 0, if has_input then 1 else 0)

-- The loop of dd_register_buffers over the first `n` units, each of `size` bytes.
unfoldable pub iovs : ℕ → ℕ → List (ℕ × ℕ)
iovs zero size = []
iovs (suc n) size = iovs n size ++ (n, size) ∷ []

-- dd_register_files and dd_register_buffers, for `n` units. Unit `i` gets the index `i`.
unfoldable pub register : Bool → Bool → ℕ → ℕ → Job → Registered
unfolding register_files iovs
register has_input has_output n size s =
    let files = register_files has_input has_output s in
    record { fds = files.0; input_idx = files.1; output_idx = files.2; buffers = iovs n size }

-- `struct io_uring_sqe`, as far as it is set. `fixed_file` is IOSQE_FIXED_FILE, and `buffer` is the unit
-- whose buffer the address is that of.
pub record Sqe : Type 0 where
  pub writes : Bool
  pub file : ℕ
  pub fixed_file : Bool
  pub buffer : ℕ
  pub length : ℕ
  pub offset : ℕ
  pub buf_index : ℕ
  pub user_data : ℕ

abbrev pub idx_of : Registered → Side → ℕ
idx_of r on_input = r.input_idx
idx_of r on_output = r.output_idx

abbrev pub is_write : SubmitType → Bool
is_write dd_populate = false
is_write dd_read = false
is_write dd_write = true

-- dd_uring_submit, for unit `i` of this type and a target. liburing takes the length as an `unsigned`.
unfoldable pub uring_submit : Registered → SubmitType → ℕ → Side → ℕ → ℕ → Sqe
uring_submit r type i side length offset = record {
  writes = is_write type;
  file = idx_of r side;
  fixed_file = true;
  buffer = i;
  length = length % 2 ^ 32;
  offset = offset;
  buf_index = i;
  user_data = i;
}

-- What a submission asks of the kernel: bytes between a descriptor and a unit's buffer.
pub record Transfer : Type 0 where
  pub writes : Bool
  pub fd : ℤ
  pub unit : ℕ
  pub size : ℕ
  pub length : ℕ
  pub offset : ℕ

abbrev pub nth : {A : Type 0} → List A → ℕ → Option A
nth [] i = none
nth (x ∷ xs) zero = some x
nth (x ∷ xs) (suc i) = nth xs i

-- The kernel looks a fixed file and a fixed buffer up in what was registered, and refuses an address or a
-- length outside of that buffer.
abbrev lookup : Sqe → Option ℤ → Option (ℕ × ℕ) → Option Transfer
lookup e (some fd) (some (unit, size)) =
    if e.buffer == unit && leb e.length size
    then some (record {
      writes = e.writes;
      fd = fd;
      unit = unit;
      size = size;
      length = e.length;
      offset = e.offset;
    })
    else none
lookup e _ _ = none

abbrev pub carried_out : Registered → Sqe → Option Transfer
carried_out r e = lookup e (nth r.fds e.file) (nth r.buffers e.buf_index)

-- The target that a caller hands over for an operation. A search is not handed to the ring.
abbrev pub side_of : Operation → Side
side_of read_input = on_input
side_of read_output = on_output
side_of write_output = on_output
side_of seek_data = on_input
side_of seek_hole = on_input

-- The entry of a unit in flight.
abbrev pub entry_of : Registered → ℕ → Io → Option Sqe
entry_of r i io = elim io.flight [
  | none ↦ none
  | some sub ↦ some (uring_submit r io.type i (side_of sub.operation) sub.length sub.offset)
]

-- What the kernel moves for unit `i`.
abbrev pub moved : Registered → Job → ℕ → Option Transfer
moved r s i = elim (entry_of r i (s.ios i)) [ none ↦ none | some e ↦ carried_out r e ]

abbrev pub target_of : Side → Job → Target
target_of on_input s = s.input
target_of on_output s = s.output

abbrev pub has_file : Bool → Bool → Side → Bool
has_file has_input has_output on_input = has_input
has_file has_input has_output on_output = has_output

files_lem :
    (b c : Bool) (s : Job) (n size : ℕ) (side : Side)
    → has_file b c side ≡ true
    → nth (register b c n size s).fds (idx_of (register b c n size s) side)
      ≡ some (target_of side s).fd
unfolding register register_files
files_lem true c s n size on_input e = refl
files_lem false c s n size on_input e = absurd (true≢false (sym e))
files_lem true true s n size on_output e = refl
files_lem false true s n size on_output e = refl
files_lem true false s n size on_output e = absurd (true≢false (sym e))
files_lem false false s n size on_output e = absurd (true≢false (sym e))

abbrev length : {A : Type 0} → List A → ℕ
length [] = 0
length (x ∷ xs) = suc (length xs)

nth-append_last : {A : Type 0} (xs : List A) (y : A) → nth (xs ++ y ∷ []) (length xs) ≡ some y
nth-append_last [] y = refl
nth-append_last (x ∷ xs) y = nth-append_last xs y

nth-append_first :
    {A : Type 0} (xs : List A) (y : A) (i : ℕ) → i < length xs → nth (xs ++ y ∷ []) i ≡ nth xs i
nth-append_first [] y i h = absurd (omega (arith, h))
nth-append_first (x ∷ xs) y zero h = refl
nth-append_first (x ∷ xs) y (suc i) h = nth-append_first xs y i (omega (arith, h))

length-append : {A : Type 0} (xs : List A) (y : A) → length (xs ++ y ∷ []) ≡ suc (length xs)
length-append [] y = refl
length-append (x ∷ xs) y = ap suc (length-append xs y)

length-iovs : (n size : ℕ) → length (iovs n size) ≡ n
unfolding iovs
length-iovs zero size = refl
length-iovs (suc n) size = length-append (iovs n size) (n, size) ∙ ap suc (length-iovs n size)

nth-iovs : (n size i : ℕ) → i < n → nth (iovs n size) i ≡ some (i, size)
unfolding iovs
nth-iovs zero size i h = absurd (omega (arith, h))
nth-iovs (suc n) size i h = elim (Bool-cases (i == n)) [
  | inl e ↦
      let q = (==_iff i n).0 e in
      ap (λ (k : ℕ). nth (iovs n size ++ (n, size) ∷ []) k) (q ∙ sym (length-iovs n size))
      ∙ nth-append_last (iovs n size) (n, size)
      ∙ ap (λ (k : ℕ). some (k, size)) (sym q)
  | inr e ↦
      let l : i < n = ground arith in
      nth-append_first (iovs n size) (n, size) i (omega (arith, length-iovs n size, l))
      ∙ nth-iovs n size i l
]

buffers_lem :
    (b c : Bool) (n size : ℕ) (s : Job) (i : ℕ)
    → i < n
    → nth (register b c n size s).buffers i ≡ some (i, size)
unfolding register
buffers_lem b c n size s i h = nth-iovs n size i h

fits_leb : (n m : ℕ) → n ≤ m → leb n m ≡ true
fits_leb n m h = ground arith

pub entry_lem :
    (b c : Bool) (n size : ℕ) (s : Job) (type : SubmitType) (i : ℕ) (side : Side)
    (length offset : ℕ)
    → has_file b c side ≡ true
    → i < n
    → length ≤ size
    → length < 2 ^ 32
    → (let r = register b c n size s in carried_out r (uring_submit r type i side length offset))
      ≡ some (record {
        writes = is_write type;
        fd = (target_of side s).fd;
        unit = i;
        size = size;
        length = length;
        offset = offset;
      })
unfolding uring_submit
entry_lem b c n size s type i side length offset f h fits short =
    rw
      (
        files_lem b c s n size side f,
        buffers_lem b c n size s i h,
        mod-eq_of_lt short,
        (==_iff i i).1 refl,
        fits_leb length size fits,
      )
      refl
