-- ===== src/Delta/Loaded.antt =====
-- What the two loaders of src/lib/spdk_bs_dev_delta.c, ubi_read_cluster_map and the channel of the
-- READ direction, find in a file, also if the kernel reads less than they ask for.
use bdev_ubi.Common.{
  ℕ, ◌+◌, ◌*◌, ◌≤◌, ◌≡◌, ap, Option, none, some, ltb, ltb→lt, Bool-cases, inl, inr, if◌then◌else◌,
  pos, arith,
}
use bdev_ubi.Posix.{Memory, overwrite, read_file}
use bdev_ubi.Posix.Words.{bytes_of, word_at, word_at_ext}
use bdev_ubi.Delta.{BsDevDelta, IoChannel, delta_read}
use bdev_ubi.Delta.Channel.{ChannelAnswers, create_channel_cb, read_cluster_map}

-- Zeroed memory, after `n` bytes of a file were read into it.
abbrev filled : Memory → ℕ → Memory
filled bytes n = overwrite (bytes_of (λ i. 0)) 0 (λ x. bytes (0 + x)) n

zero_byte : (bytes : Memory) (n x : ℕ) → n ≤ x → filled bytes n x ≡ 0
unfolding overwrite bytes_of
zero_byte bytes n x h = ground arith

zero_word : (bytes : Memory) (n c : ℕ) → n ≤ 8 * c → word_at (filled bytes n) c ≡ 0
unfolding word_at
zero_word bytes n c h = omega (
  arith,
  zero_byte bytes n (8 * c) (omega arith),
  zero_byte bytes n (8 * c + 1) (omega arith),
  zero_byte bytes n (8 * c + 2) (omega arith),
  zero_byte bytes n (8 * c + 3) (omega arith),
  zero_byte bytes n (8 * c + 4) (omega arith),
  zero_byte bytes n (8 * c + 5) (omega arith),
  zero_byte bytes n (8 * c + 6) (omega arith),
  zero_byte bytes n (8 * c + 7) (omega arith),
)

file_word :
    (bytes : Memory) (n c : ℕ) → 8 * c + 8 ≤ n → word_at (filled bytes n) c ≡ word_at bytes c
unfolding overwrite
file_word bytes n c h = word_at_ext (filled bytes n) bytes c (λ a q. ground arith)

-- The entry of a cluster, if the read found `w` whole entries.
abbrev pub entry_of : Memory → ℕ → ℕ → ℕ
entry_of bytes w c = if ltb c w then word_at bytes c else 0

entry_lem : (bytes : Memory) (w c : ℕ) → word_at (filled bytes (8 * w)) c ≡ entry_of bytes w c
entry_lem bytes w c = elim (Bool-cases (ltb c w)) [
  | inl e ↦ rw e (file_word bytes (8 * w) c (omega (arith, ltb→lt c w e)))
  | inr e ↦ rw e (zero_word bytes (8 * w) c (ground arith))
]

-- The entry in a channel's map.
abbrev pub entry_in : Option IoChannel → ℕ → Option ℕ
entry_in none c = none
entry_in (some ch) c = some (ch.cluster_map c)

-- If the file is opened and read, and the ring is set up, then both loaders find the same map, also
-- if the read is short and stops after `w` whole entries: the file's entry for each of the first `w`
-- clusters, and 0 for the others.
pub cluster_map-loaded :
    (dev : BsDevDelta) (a : ChannelAnswers) (fd w c : ℕ)
    → dev.direction ≡ delta_read
    → a.open_rc ≡ pos fd
    → a.read_rc ≡ pos (8 * w)
    → a.ring_rc ≡ pos 0
    → ((read_cluster_map a.open_rc a.file a.read_rc (λ i. 0)).2 c ≡ entry_of a.file.bytes w c)
      × (entry_in (create_channel_cb dev a).1 c ≡ some (entry_of a.file.bytes w c))
unfolding create_channel_cb read_cluster_map read_file
cluster_map-loaded dev a fd w c d o r i =
    (rw (o, r) (entry_lem a.file.bytes w c), rw (d, o, r, i) (ap some (entry_lem a.file.bytes w c)))
