-- ===== src/Posix/Words.antt =====
-- An array of uint64_t in memory, little-endian: what a file holds of it, and what is read back.
use bdev_ubi.Common.{ℕ, ◌+◌, ◌*◌, ◌/◌, ◌%◌, ◌^◌, ◌<◌, ◌≡◌, arith}

-- The byte at an address of the array's memory.
unfoldable pub bytes_of : (ℕ → ℕ) → ℕ → ℕ
bytes_of words a = words (a / 8) / 256 ^ (a % 8) % 256

-- The element at an index of the array that the memory holds.
unfoldable pub word_at : (ℕ → ℕ) → ℕ → ℕ
word_at mem i =
    mem (8 * i)
    + 256 * mem (8 * i + 1)
    + 65536 * mem (8 * i + 2)
    + 16777216 * mem (8 * i + 3)
    + 4294967296 * mem (8 * i + 4)
    + 1099511627776 * mem (8 * i + 5)
    + 281474976710656 * mem (8 * i + 6)
    + 72057594037927936 * mem (8 * i + 7)

digits :
    (x : ℕ)
    → x < 2 ^ 64
    → x % 256
        + 256 * (x / 256 % 256)
        + 65536 * (x / 65536 % 256)
        + 16777216 * (x / 16777216 % 256)
        + 4294967296 * (x / 4294967296 % 256)
        + 1099511627776 * (x / 1099511627776 % 256)
        + 281474976710656 * (x / 281474976710656 % 256)
        + 72057594037927936 * (x / 72057594037927936 % 256)
      ≡ x
digits x h = omega arith

byte_at :
    (words : ℕ → ℕ) (i j a : ℕ) → j < 8 → a ≡ 8 * i + j → bytes_of words a ≡ words i / 256 ^ j % 256
unfolding bytes_of
byte_at words i j a h e =
    let q : a / 8 ≡ i = omega arith in let r : a % 8 ≡ j = omega arith in rw (q, r)

pub word_at-bytes_of :
    (words : ℕ → ℕ) (i : ℕ) → words i < 2 ^ 64 → word_at (bytes_of words) i ≡ words i
unfolding word_at
word_at-bytes_of words i h = omega (
  arith,
  byte_at words i 0 (8 * i) (omega arith) (omega arith),
  byte_at words i 1 (8 * i + 1) (omega arith) (omega arith),
  byte_at words i 2 (8 * i + 2) (omega arith) (omega arith),
  byte_at words i 3 (8 * i + 3) (omega arith) (omega arith),
  byte_at words i 4 (8 * i + 4) (omega arith) (omega arith),
  byte_at words i 5 (8 * i + 5) (omega arith) (omega arith),
  byte_at words i 6 (8 * i + 6) (omega arith) (omega arith),
  byte_at words i 7 (8 * i + 7) (omega arith) (omega arith),
  digits (words i) h,
)

-- A word depends on its own eight bytes only.
pub word_at_ext :
    (m n : ℕ → ℕ) (i : ℕ) → ((a : ℕ) → a < 8 * i + 8 → m a ≡ n a) → word_at m i ≡ word_at n i
unfolding word_at
word_at_ext m n i h = omega (
  arith,
  h (8 * i) (omega arith),
  h (8 * i + 1) (omega arith),
  h (8 * i + 2) (omega arith),
  h (8 * i + 3) (omega arith),
  h (8 * i + 4) (omega arith),
  h (8 * i + 5) (omega arith),
  h (8 * i + 6) (omega arith),
  h (8 * i + 7) (omega arith),
)
