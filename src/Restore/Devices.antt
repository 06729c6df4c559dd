-- ===== src/Restore/Devices.antt =====
-- The two devices of a setup, as the constructors in src/lib/spdk_bs_dev_delta.c and
-- src/lib/spdk_bs_dev_uring.c make them when no call fails.
use native.Mathlib.Nat.{mul-div_left}
use bdev_ubi.Common.{
  ℕ, ◌-◌, ◌*◌, ◌/◌, ◌^◌, ◌<◌, ◌≡◌, ◌≢◌, refl, true, false, some, ◌∷◌, lt→ltb, ◌==◌, pos, arith,
}
use bdev_ubi.Common.Bits.{pow_pos}
use bdev_ubi.Common.Outcome.{done}
use bdev_ubi.Posix.{FilePath, path_length, File, overwrite, read_file}
use bdev_ubi.Posix.Words.{bytes_of, word_at, word_at_ext}
use bdev_ubi.Delta
use bdev_ubi.Delta.{max_clusters, map_bytes, BsDevDelta, delta_write}
use bdev_ubi.Uring
use bdev_ubi.Uring.{BsDevUring, IoChannel, set_io_opts}
use bdev_ubi.Uring.Address
use bdev_ubi.Uring.Address.{set_io_opts_lem}
use bdev_ubi.Uring.Create.{CreateAnswers}
use bdev_ubi.Restore.{Setup, loading, connecting}

-- The map that the new device holds.
unfoldable pub loaded_map : File → ℕ → ℕ
unfolding read_file
loaded_map file =
    word_at (read_file (record { file = file; offset = 0 }) (bytes_of (λ i. 0)) (pos map_bytes))

pub loaded_map_lem :
    (file : File) (c : ℕ) → c < max_clusters → loaded_map file c ≡ word_at file.bytes c
unfolding loaded_map overwrite
loaded_map_lem file c h = word_at_ext _ file.bytes c (λ a q. ground arith)

-- Blocks of 2 ^ b bytes and clusters of 2 ^ k blocks, in an int; paths that fit their fields, the
-- snapshot's not empty; and two different descriptors.
pub record IsSetup (s : Setup) (k b : ℕ) : Type 0 where
  pub first : ℕ
  pub rest : FilePath
  pub named : s.snapshot_path ≡ first ∷ rest
  pub path_fits : path_length (first ∷ rest) < 1024
  pub image_fits : path_length s.image_path < 1024
  pub blocks : s.blocklen ≡ 2 ^ b
  pub clusters : s.cluster_size ≡ 2 ^ k * 2 ^ b
  pub shift_fits : k < 31
  pub block_fits : b < 32
  pub cluster_fits : 2 ^ b * 2 ^ k < 2 ^ 31
  pub distinct : s.image_fd ≢ s.snapshot_fd

-- The two devices of such a setup.
unfoldable pub delta_device : Setup → ℕ → ℕ → BsDevDelta
delta_device s k b = record {
  blockcnt = s.blockcnt;
  blocklen = 2 ^ b;
  filename = s.snapshot_path;
  direction = delta_write;
  directio = false;
  cluster_size = 2 ^ k;
}

unfoldable pub uring_device : Setup → ℕ → ℕ → File → BsDevUring
unfolding loaded_map
uring_device s k b file = record {
  blockcnt = s.image.size / 2 ^ b;
  blocklen = 2 ^ b;
  filename = s.image_path;
  snapshot_path = s.snapshot_path;
  cluster_map = loaded_map file;
  directio = s.directio;
  lba_to_cluster_shift = k;
  lba_offset_mask = 2 ^ k - 1;
  lba_to_addr_shift = b;
}

unfoldable pub uring_channel : Setup → IoChannel
uring_channel s = record { image_file_fd = pos s.image_fd; snapshot_file_fd = pos s.snapshot_fd }

pow-ne-zero : (b : ℕ) → (2 ^ b == 0) ≡ false
pow-ne-zero b = ground (arith, pow_pos b)

module _ (s : Setup) (k b : ℕ) (h : IsSetup s k b) where
  pub delta_created :
      Delta.create true s.snapshot_path s.blockcnt s.blocklen s.cluster_size delta_write
      ≡ done (some (delta_device s k b))
  unfolding Delta.create delta_device
  delta_created = rw (
    h.blocks,
    h.clusters,
    pow-ne-zero b,
    h.named,
    lt→ltb (path_length (h.first ∷ h.rest)) 1024 h.path_fits,
    mul-div_left (2 ^ k) {n = 2 ^ b} (pow_pos b),
  )

  pub uring_created :
      (u64log2 : ℕ → ℕ)
      → ((j : ℕ) → j < 64 → u64log2 (2 ^ j) ≡ j)
      → (file : File)
      → Uring.Create.create u64log2
          (loading s file)
          s.image_path
          (some s.snapshot_path)
          s.blocklen
          s.cluster_size
          s.directio
        ≡ done (some (uring_device s k b file))
  unfolding Uring.Create.create uring_device loaded_map
  uring_created u64log2 log file = rw (
    h.blocks,
    h.clusters,
    pow-ne-zero b,
    h.named,
    mul-div_left (2 ^ k) {n = 2 ^ b} (pow_pos b),
    log k (omega (arith, h.shift_fits)),
    log b (omega (arith, h.block_fits)),
    lt→ltb k 31 h.shift_fits,
    lt→ltb (path_length s.image_path) 1024 h.image_fits,
    lt→ltb (path_length (h.first ∷ h.rest)) 1024 h.path_fits,
  )

  pub channel_created :
      (file : File)
      → (Uring.Channel.create_channel_cb (uring_device s k b file) (connecting s)).1
        ≡ some (uring_channel s)
  unfolding Uring.Channel.create_channel_cb uring_device uring_channel
  channel_created file = rw h.named

  pub fds_differ : (s.image_fd == s.snapshot_fd) ≡ false
  fds_differ = let d = h.distinct in ground arith

  pub device-IsGeometry : (file : File) → Address.IsGeometry (uring_device s k b file) k b
  unfolding uring_device
  device-IsGeometry file = record { cluster_shift = refl; offset_mask = refl; addr_shift = refl }
