-- ===== src/Tests/Files.antt =====
-- A delta file of three writes, and bytes read back through it: src/lib/spdk_bs_dev_delta.c and
-- src/lib/spdk_bs_dev_uring.c.
use bdev_ubi.Delta.{write}
use bdev_ubi.Delta.Channel.{create_channel_cb, fresh_channel, read_cluster_map}
use bdev_ubi.Delta.Descriptors.{calls_of, channel-closed}
use bdev_ubi.Delta.Loaded.{entry_in, cluster_map-loaded}
use bdev_ubi.Delta.Failures.{Effect, write-Effect}
use bdev_ubi.Posix.Words.{word_at}
use bdev_ubi.Posix.{open_after}
use bdev_ubi.Common.{
  ℕ, zero, suc, ◌/◌, ◌≡◌, refl, false, some, List, [], ◌∷◌, ◌++◌, ◌==◌, neg, ltb, if◌then◌else◌,
  pos, arith,
}
use bdev_ubi.Posix.{File}
use bdev_ubi.Delta.{map_bytes, BsDevDelta, delta_read, delta_write}
use bdev_ubi.Delta.Channel.{ChannelAnswers, DestroyAnswers}
use bdev_ubi.Delta.Layout.{ClusterWrite}
use bdev_ubi.Delta.Stored.{Recorded, record_snapshot-Recorded}
use bdev_ubi.Restore.{Setup}

-- A logarithm, for spdk_u64log2.
abbrev pub halvings : ℕ → ℕ → ℕ
halvings zero x = 0
halvings (suc n) x = let rest = halvings n (x / 2) in if ltb x 2 then 0 else suc rest

abbrev pub log2 : ℕ → ℕ
log2 x = halvings 64 x

abbrev empty_file : File
empty_file = record { bytes = λ a. 0; size = 0 }

-- Cluster 2 is written twice.
abbrev writes : List ClusterWrite
writes =
    record { cluster = 2; payload = λ a. 7 }
    ∷ record { cluster = 5; payload = λ a. 8 }
    ∷ record { cluster = 2; payload = λ a. 9 }
    ∷ []

abbrev delta : BsDevDelta
delta = record {
  blockcnt = 1024;
  blocklen = 512;
  filename = 47 ∷ [];
  direction = delta_write;
  directio = false;
  cluster_size = 8;
}

abbrev answers : ChannelAnswers
answers = record {
  open_rc = pos 3;
  file = empty_file;
  read_rc = pos 0;
  write_rc = pos map_bytes;
  ring_rc = pos 0;
}

abbrev last_answers : DestroyAnswers
last_answers = record { seek_fails = false; write_rc = pos map_bytes }

record_snapshot-Recorded_example : Recorded delta answers writes last_answers
record_snapshot-Recorded_example =
    record_snapshot-Recorded delta answers writes last_answers 3 refl
      (record { nonempty = omega arith; fits = omega arith })
      (record { opens = refl; reserves = refl; rings = refl })
      (record { seeks = refl; stores = refl }) (omega arith, (omega arith, (omega arith, tt)))
      (omega arith)

-- An image of ones.
abbrev setup : Setup
setup = record {
  blockcnt = 1024;
  blocklen = 512;
  cluster_size = 4096;
  image_path = 105 ∷ [];
  snapshot_path = 115 ∷ [];
  directio = false;
  image = record { bytes = λ a. 1; size = 524288 };
  old_file = empty_file;
  delta_fd = 3;
  image_fd = 4;
  snapshot_fd = 5;
}

-- A write whose write(2) fails.
write-Effect_example :
    Effect delta
      (fresh_channel 3 empty_file)
      (λ i. 7)
      16
      (record { seek_fails = false; written = neg 28 })
      (write delta
        (fresh_channel 3 empty_file)
        (λ i. 7)
        16
        8
        (record { seek_fails = false; written = neg 28 }))
write-Effect_example =
    write-Effect delta (fresh_channel 3 empty_file) (λ i. 7) 16 8
      (record { seek_fails = false; written = neg 28 }) (omega arith) (omega arith) (omega arith)

channel-closed_example :
    (open_after 3 false (
        (create_channel_cb delta answers).0
        ++ calls_of delta last_answers (create_channel_cb delta answers).1)
      ≡ false)
    × (open_after 3 false (read_cluster_map (pos 3) empty_file (neg 5) (λ i. 0)).1 ≡ false)
channel-closed_example =
    channel-closed delta answers last_answers (pos 3) (neg 5) empty_file (λ i. 0) 3

-- The kernel reads the entries of clusters 0 and 1 only.
abbrev short_read : ChannelAnswers
short_read = record answers {
  file = record { bytes = λ a. if a == 8 then 5 else 0; size = 24 };
  read_rc = pos 16;
}

cluster_map-loaded_example :
    ((read_cluster_map (pos 3) short_read.file (pos 16) (λ i. 0)).2 1 ≡ 5)
    × (entry_in (create_channel_cb (record delta { direction = delta_read }) short_read).1 1
        ≡ some 5)
unfolding word_at
cluster_map-loaded_example =
    cluster_map-loaded (record delta { direction = delta_read }) short_read 3 2 1 refl refl refl
      refl
