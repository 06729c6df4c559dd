-- ===== src/Uring/Reads.antt =====
-- The request that a read of src/lib/spdk_bs_dev_uring.c hands to the ring.
use native.Mathlib.Nat.{mod-eq_of_lt}
use bdev_ubi.Common.{
  ℕ, ◌+◌, ◌*◌, ◌^◌, ◌≤◌, ◌<◌, ◌≡◌, true, false, [], ◌∷◌, ◌==◌, is_neg, arith, if◌then◌else◌, leb,
}
use bdev_ubi.Common.Outcome.{done}
use bdev_ubi.Delta.{max_clusters}
use bdev_ubi.Uring.{BsDevUring, IoChannel}
use bdev_ubi.Uring.Address.{IsGeometry, set_io_opts_lem}
use bdev_ubi.Uring.Ops.{RingAnswers, read_at, prepare, submit, read}

behind_false : (n m : ℕ) → n < m → leb m n ≡ false
behind_false n m h = ground arith

-- If block `q` of cluster `c` is in the image's range, its address stays below 2 ^ 64, the read is
-- shorter than 4 GiB, and the ring has an entry and takes it, then a read of `lba_count` blocks
-- prepares one entry, of that many blocks, at the block's own position in the image if the map has
-- 0 for the cluster, and `q` blocks behind the map's position in the snapshot file if not, submits
-- it, and leaves the answer to its completion.
pub read-submits :
    (dev : BsDevUring) (ch : IoChannel) (a : RingAnswers) (k b c q lba_count : ℕ)
    → IsGeometry dev k b
    → dev.blocklen ≡ 2 ^ b
    → a.has_sqe ≡ true
    → is_neg a.submit_rc ≡ false
    → c * 2 ^ k + q < dev.blockcnt
    → c < max_clusters
    → q < 2 ^ k
    → (c * 2 ^ k + q) * 2 ^ b < 2 ^ 64
    → dev.cluster_map c + 2 ^ k * 2 ^ b ≤ 2 ^ 64
    → lba_count * 2 ^ b < 2 ^ 32
    → read dev ch a (c * 2 ^ k + q) lba_count
      ≡ done (
          prepare (
            if dev.cluster_map c == 0
            then read_at ch.image_file_fd (lba_count * 2 ^ b) ((c * 2 ^ k + q) * 2 ^ b)
            else read_at ch.snapshot_file_fd (lba_count * 2 ^ b) (dev.cluster_map c + q * 2 ^ b))
          ∷ submit
          ∷ [])
unfolding read
read-submits dev ch a k b c q lba_count g bl hs hr hb hc hq hi hm hl =
    rw
      (
        behind_false (c * 2 ^ k + q) dev.blockcnt hb,
        set_io_opts_lem dev ch k b c q g hc hq hi hm,
        bl,
        mod-eq_of_lt hl,
        hs,
        hr,
      )
      (ground arith)
