-- ===== src/Delta.antt =====
-- src/lib/spdk_bs_dev_delta.c: the device that a shallow copy writes. A delta file is a map of
-- MAX_CLUSTERS uint64_t, the file position of each cluster or 0, and then the clusters' data in the
-- order of the writes. This file has the device, its channel and `write`; the children have the
-- channel's life cycle, the operations that are not supported, and the proofs.
pub mod Channel
pub mod Ops
pub mod Layout
pub mod Stored
pub mod Loaded
pub mod Failures
pub mod Descriptors
use bdev_ubi.Common.{
  ℕ, ◌+◌, ◌*◌, ◌/◌, ◌%◌, ◌^◌, Bool, true, false, Option, none, some, ltb, ◌==◌, if◌then◌else◌, ℤ,
  pos, neg, is_neg, eio, einval, zero, suc, leb, ◌&&◌,
}
use bdev_ubi.Common.Outcome.{Outcome, done, fault, ◌>>=◌}
use bdev_ubi.Posix.{FilePath, Memory, File, Description, write_file, path_length}

-- MAX_CLUSTERS
abbrev pub max_clusters : ℕ
max_clusters = 67108864

-- sizeof(uint64_t) * MAX_CLUSTERS
abbrev pub map_bytes : ℕ
map_bytes = 536870912

pub data Direction : Type 0 where
  delta_read delta_write : Direction

-- `struct bs_dev_delta`, with the two fields of `base` that the code uses. `directio` is left at
-- calloc's false.
pub record BsDevDelta : Type 0 where
  pub blockcnt : ℕ
  pub blocklen : ℕ
  pub filename : FilePath
  pub direction : Direction
  pub directio : Bool
  pub cluster_size : ℕ

-- `struct bs_dev_delta_io_channel`: the delta file under its descriptor, and the map.
pub record IoChannel : Type 0 where
  pub fd : ℕ
  pub delta_file : Description
  pub cluster_map : ℕ → ℕ
  pub initialized : Bool

-- bs_dev_delta_create. `allocated` is whether calloc succeeds; `none` is the NULL that is returned
-- if not. `cluster_size / blocklen` faults at 0, and the unbounded strcpy faults at a path that does
-- not fit the 1024 bytes of `filename`.
unfoldable pub create : Bool → FilePath → ℕ → ℕ → ℕ → Direction → Outcome (Option BsDevDelta)
create false filename blockcnt blocklen cluster_size direction = done none
create true filename blockcnt blocklen cluster_size direction =
    if blocklen == 0
    then fault
    else if ltb (path_length filename) 1024
    then done (
        some (record {
          blockcnt = blockcnt;
          blocklen = blocklen;
          filename = filename;
          direction = direction;
          directio = false;
          cluster_size = cluster_size / blocklen;
        }))
    else fault

-- `ch->cluster_map[index] = value`
unfoldable pub set_cluster : IoChannel → ℕ → ℕ → Outcome IoChannel
set_cluster ch index value =
    if ltb index max_clusters
    then done (record ch { cluster_map = λ i. if i == index then value else ch.cluster_map i })
    else fault

-- What the kernel answers to the calls of one write: whether lseek fails, and what write returns. The
-- code keeps that in an int, which has room for all that Linux returns (at most 0x7ffff000).
pub record WriteAnswers : Type 0 where
  pub seek_fails : Bool
  pub written : ℤ

-- `dev->blocklen * lba_count`, a product of two uint32_t.
abbrev pub write_size : BsDevDelta → ℕ → ℕ
write_size dev lba_count = dev.blocklen * lba_count % 2 ^ 32

-- The last part of bs_dev_delta_write: the call of write(2), and its check.
unfoldable pub write_data : IoChannel → Memory → ℤ → IoChannel × ℤ
write_data ch payload written =
    if is_neg written
    then (ch, neg eio)
    else (record ch { delta_file = write_file ch.delta_file payload written }, pos 0)

-- Whether the first `n` bytes of a payload are all 0.
unfoldable pub is_zeroed : Memory → ℕ → Bool
is_zeroed payload zero = true
is_zeroed payload (suc n) = (payload n == 0) && is_zeroed payload n

-- The scan of the payload up to a byte that is not 0. Its counter is an int, which overflows behind
-- 2 ^ 31 bytes of zeroes.
unfoldable pub scans_past : ℕ → Memory → ℕ → Bool
scans_past limit payload size = leb limit size && is_zeroed payload limit

unfoldable pub scan_overflows : Memory → ℕ → Bool
scan_overflows payload size = scans_past 2147483648 payload size

-- bs_dev_delta_write: the channel after it, and what it hands to `cb_fn`. The kernel never writes
-- more than it was asked to; that bound is the hypothesis of the theorems. The result of the scan and
-- the payload's first 8 bytes only feed the log; the payload is a buffer that has them.
unfoldable pub write :
    BsDevDelta → IoChannel → Memory → ℕ → ℕ → WriteAnswers → Outcome (IoChannel × ℤ)
unfolding set_cluster write_data
write dev ch payload lba lba_count answers =
    if answers.seek_fails
    then done (ch, neg eio)
    else if dev.cluster_size == 0
    then fault
    else if lba % dev.cluster_size == 0
    then (set_cluster ch (lba / dev.cluster_size) ch.delta_file.offset >>= λ ch'.
        if scan_overflows payload (write_size dev lba_count)
        then fault
        else done (write_data ch' payload answers.written))
    else done (ch, neg einval)
