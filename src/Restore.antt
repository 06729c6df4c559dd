-- ===== src/Restore.antt =====
-- From src/lib/spdk_bs_dev_delta.c to src/lib/spdk_bs_dev_uring.c: the file that a shallow copy
-- leaves, read again as the snapshot of a new device. This file composes the code of both; its
-- children have the proof.
pub mod Devices
pub mod Roundtrip
use bdev_ubi.Common.{
  ℕ, ◌+◌, ◌*◌, Bool, true, false, Option, none, some, List, [], ◌∷◌, ◌==◌, if◌then◌else◌, ℤ, pos,
  negsuc, ltb,
}
use bdev_ubi.Common.Outcome.{Outcome, done, fault, ◌>>=◌}
use bdev_ubi.Posix.{FilePath, Memory, File}
use bdev_ubi.Delta
use bdev_ubi.Delta.{delta_write, map_bytes}
use bdev_ubi.Delta.Layout.{ClusterWrite, Overlay}
use bdev_ubi.Delta.Stored.{record_snapshot}
use bdev_ubi.Uring
use bdev_ubi.Uring.Create.{CreateAnswers}
use bdev_ubi.Uring.{BsDevUring, IoChannel}
use bdev_ubi.Uring.Ops.{
  RingAnswers, Sqe, read_at, readv_at, Action, prepare, submit, complete, read,
}

-- A ring that has an entry to give, and takes it.
abbrev pub accepting : RingAnswers
accepting = record { has_sqe = true; submit_rc = pos 1 }

-- The byte that an entry reads at position `j` of the buffer, if it reads that far.
abbrev pub byte_at : (ℤ → Memory) → ℕ → Sqe → Option ℕ
byte_at contents j (read_at fd n offset) = if ltb j n then some (contents fd (offset + j)) else none
byte_at contents j (readv_at fd n offset) = none

-- What is read at position `j` of the buffer, by the entries that are submitted.
abbrev pub byte_read : (ℤ → Memory) → ℕ → List Action → Option ℕ
byte_read contents j (prepare sqe ∷ submit ∷ rest) = byte_at contents j sqe
byte_read contents j _ = none

-- Byte `j` of block `lba`, by bs_dev_uring_read; none if nothing is read.
unfoldable pub fetch : BsDevUring → IoChannel → (ℤ → Memory) → ℕ → ℕ → Outcome (Option ℕ)
unfolding read
fetch dev ch contents lba j =
    read dev ch accepting lba 1 >>= λ acts. done (byte_read contents j acts)

-- What is behind the descriptors of a channel: the snapshot file, and the image.
abbrev pub behind : ℕ → Memory → Memory → ℤ → Memory
behind snapshot_fd snapshot image (pos fd) = if fd == snapshot_fd then snapshot else image
behind snapshot_fd snapshot image (negsuc e) = image

-- The arguments of the two constructors, and what the kernel chooses: descriptors, the image, and
-- the file that was at the snapshot's path before.
pub record Setup : Type 0 where
  pub blockcnt : ℕ
  pub blocklen : ℕ
  pub cluster_size : ℕ
  pub image_path : FilePath
  pub snapshot_path : FilePath
  pub directio : Bool
  pub image : File
  pub old_file : File
  pub delta_fd : ℕ
  pub image_fd : ℕ
  pub snapshot_fd : ℕ

-- The answers of a run in which no call fails and none is cut short.
abbrev pub opening : Setup → Delta.Channel.ChannelAnswers
opening s = record {
  open_rc = pos s.delta_fd;
  file = s.old_file;
  read_rc = pos 0;
  write_rc = pos map_bytes;
  ring_rc = pos 0;
}

abbrev pub closing : Delta.Channel.DestroyAnswers
closing = record { seek_fails = false; write_rc = pos map_bytes }

abbrev pub loading : Setup → File → CreateAnswers
loading s file = record {
  allocated = true;
  stat_size = some s.image.size;
  open_rc = pos s.delta_fd;
  file = file;
  read_rc = pos map_bytes;
}

abbrev pub connecting : Setup → Uring.Channel.ChannelAnswers
connecting s = record {
  image_rc = pos s.image_fd;
  snapshot_rc = pos s.snapshot_fd;
  ring_rc = pos 0;
}

-- An optional result that a later step needs.
abbrev pub and_then : {A B : Type 0} → (A → Outcome (Option B)) → Option A → Outcome (Option B)
and_then f none = done none
and_then f (some a) = f a

-- The snapshot file: the delta device is created, and the clusters are written to it.
unfoldable pub snapshot_file : Setup → List ClusterWrite → Outcome (Option File)
snapshot_file s ws =
    Delta.create true s.snapshot_path s.blockcnt s.blocklen s.cluster_size delta_write
    >>= and_then (λ delta. record_snapshot delta (opening s) ws closing)

module _ (u64log2 : ℕ → ℕ) where
  -- Byte `j` of block `lba` of a new device over the image and the snapshot file.
  unfoldable pub read_back : Setup → ℕ → ℕ → File → Outcome (Option ℕ)
  read_back s lba j file =
      Uring.Create.create u64log2 (loading s file) s.image_path (some s.snapshot_path) s.blocklen
        s.cluster_size s.directio
      >>= and_then (λ dev.
        and_then (λ ch. fetch dev ch (behind s.snapshot_fd file.bytes s.image.bytes) lba j)
          (Uring.Channel.create_channel_cb dev (connecting s)).1)

  -- The whole way: write the clusters, and read a byte.
  unfoldable pub write_then_read : Setup → List ClusterWrite → ℕ → ℕ → Outcome (Option ℕ)
  unfolding snapshot_file read_back
  write_then_read s ws lba j = snapshot_file s ws >>= and_then (read_back s lba j)

-- The specification, copy on write: byte `i` of cluster `c` of `size` bytes is the overlay's if it
-- has the cluster, and the image's if not.
abbrev pub overlay_byte : Overlay → Memory → ℕ → ℕ → ℕ → ℕ
overlay_byte o image size c i = elim (o c) [ none ↦ image (c * size + i) | some p ↦ p i ]
