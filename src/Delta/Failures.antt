-- ===== src/Delta/Failures.antt =====
-- What a write of src/lib/spdk_bs_dev_delta.c changes on each of its paths.
use bdev_ubi.Common.{
  ℕ, ◌/◌, ◌%◌, ◌<◌, ◌≡◌, Bool, not, ◌&&◌, ◌==◌, if◌then◌else◌, ℤ, is_neg, is_zero, arith, ◌^◌,
}
use bdev_ubi.Common.Outcome.{Outcome, done, fault}
use bdev_ubi.Posix.{Memory, write_file}
use bdev_ubi.Delta.Layout.{scan_ends}
use bdev_ubi.Delta.{max_clusters, BsDevDelta, IoChannel, WriteAnswers, write, write_size}

-- Whether the call gets as far as the map.
abbrev pub is_accepted : BsDevDelta → ℕ → WriteAnswers → Bool
is_accepted dev lba a = not a.seek_fails && (lba % dev.cluster_size == 0)

-- The effect of a write: it reports success exactly if it was accepted and write(2) did not fail;
-- the file changes exactly then; and the map changes, at the cluster, if it was accepted.
abbrev pub Effect :
    BsDevDelta → IoChannel → Memory → ℕ → WriteAnswers → Outcome (IoChannel × ℤ) → Type 0
Effect dev ch payload lba a fault = ⊥
Effect dev ch payload lba a (done (ch', rc)) =
    (is_zero rc ≡ (is_accepted dev lba a && not (is_neg a.written)))
    × (ch'.delta_file
        ≡ (if is_zero rc then write_file ch.delta_file payload a.written else ch.delta_file))
    × ((i : ℕ)
        → ch'.cluster_map i ≡ (
            if is_accepted dev lba a && (i == lba / dev.cluster_size)
            then ch.delta_file.offset
            else ch.cluster_map i))

-- A write of less than 2 GiB to a device with clusters, at a block whose cluster has an entry in the map,
-- is never undefined. It reports success exactly if the seek succeeds, the block is a cluster's first and
-- write(2) does not fail, and only then the file changes; but the map's entry is set to the file
-- position also if write(2) fails, and then stands for data that the file does not have.
pub write-Effect :
    (dev : BsDevDelta) (ch : IoChannel) (payload : Memory) (lba lba_count : ℕ) (a : WriteAnswers)
    → 0 < dev.cluster_size
    → lba / dev.cluster_size < max_clusters
    → write_size dev lba_count < 2 ^ 31
    → Effect dev ch payload lba a (write dev ch payload lba lba_count a)
unfolding write
write-Effect dev ch payload lba lba_count a z h short =
    ground (arith, scan_ends payload (write_size dev lba_count) short)
