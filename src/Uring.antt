-- ===== src/Uring.antt =====
-- src/lib/spdk_bs_dev_uring.c: the read-only device over the base image and an optional delta file.
-- This file has the device and where a block lies; the children have its creation, its operations,
-- its channel and the proofs.
pub mod Address
pub mod Create
pub mod Ops
pub mod Channel
pub mod Descriptors
pub mod Reads
pub mod Requests
use Prim.Native.Nat.{bit_and}
use bdev_ubi.Common.{ℕ, ◌+◌, ◌*◌, ◌/◌, ◌%◌, ◌^◌, Bool, ltb, ◌==◌, if◌then◌else◌, ℤ}
use bdev_ubi.Common.Outcome.{Outcome, done, fault, ◌>>=◌}
use bdev_ubi.Posix.{FilePath}
use bdev_ubi.Delta.{max_clusters}

-- `struct bs_dev_uring`, with the two fields of `base` that the code uses.
pub record BsDevUring : Type 0 where
  pub blockcnt : ℕ
  pub blocklen : ℕ
  pub filename : FilePath
  pub snapshot_path : FilePath
  pub cluster_map : ℕ → ℕ
  pub directio : Bool
  pub lba_to_cluster_shift : ℕ
  pub lba_offset_mask : ℕ
  pub lba_to_addr_shift : ℕ

-- `struct bs_dev_uring_io_channel`, its descriptors.
pub record IoChannel : Type 0 where
  pub image_file_fd : ℤ
  pub snapshot_file_fd : ℤ

-- `x << k` on a uint64_t.
abbrev pub shl : ℕ → ℕ → ℕ
shl x k = x * 2 ^ k % 2 ^ 64

-- `x >> k`
abbrev pub shr : ℕ → ℕ → ℕ
shr x k = x / 2 ^ k

-- `uring_dev->cluster_map[index]`
unfoldable pub map_entry : BsDevUring → ℕ → Outcome ℕ
map_entry dev index = if ltb index max_clusters then done (dev.cluster_map index) else fault

-- set_io_opts: the descriptor and the byte offset to read `lba` from. `cluster_id` is a uint32_t.
unfoldable pub set_io_opts : BsDevUring → IoChannel → ℕ → Outcome (ℤ × ℕ)
unfolding map_entry
set_io_opts dev ch lba = do
  cluster_start ← map_entry dev (shr lba dev.lba_to_cluster_shift % 2 ^ 32)
  let lba_offset = bit_and lba dev.lba_offset_mask
  let snapshot_offset = (cluster_start + shl lba_offset dev.lba_to_addr_shift) % 2 ^ 64
  done (
      if cluster_start == 0
      then (ch.image_file_fd, shl lba dev.lba_to_addr_shift)
      else (ch.snapshot_file_fd, snapshot_offset))
