-- ===== src/Uring/Address.antt =====
-- src/lib/spdk_bs_dev_uring.c: what `set_io_opts` computes by shifts and masks, against the division of
-- a block number by the cluster size.
use native.Mathlib.Nat.{mul-add-mod_self_right, mul-add-div_right, mod-eq_of_lt, div-eq_of_lt}
use bdev_ubi.Common.{
  ℕ, ◌+◌, ◌-◌, ◌*◌, ◌/◌, ◌%◌, ◌^◌, ◌≤◌, ◌<◌, ◌≡◌, ◌∙◌, ◌==◌, if◌then◌else◌, arith, lt→ltb,
}
use bdev_ubi.Common.Bits.{bit_and-mask, pow_pos}
use bdev_ubi.Common.Outcome.{done}
use bdev_ubi.Delta.{max_clusters}
use bdev_ubi.Uring.{BsDevUring, IoChannel, set_io_opts}

-- Clusters of 2 ^ k blocks, blocks of 2 ^ b bytes.
pub record IsGeometry (dev : BsDevUring) (k b : ℕ) : Type 0 where
  pub cluster_shift : dev.lba_to_cluster_shift ≡ k
  pub offset_mask : dev.lba_offset_mask ≡ 2 ^ k - 1
  pub addr_shift : dev.lba_to_addr_shift ≡ b

div_block : (c q p : ℕ) → q < p → (c * p + q) / p ≡ c
div_block c q p h = mul-add-div_right {m = p} (omega arith) c q ∙ omega (arith, div-eq_of_lt h)

mod_block : (c q p : ℕ) → q < p → (c * p + q) % p ≡ q
mod_block c q p h = mul-add-mod_self_right c p q ∙ mod-eq_of_lt h

block-lt : (q n p limit : ℕ) → q < n → n * p ≤ limit → 0 < p → q * p < limit
block-lt q n p limit h l z = grind arith

-- On a device with clusters of 2 ^ k blocks of 2 ^ b bytes, let `c` be below MAX_CLUSTERS, `q` below
-- 2 ^ k, and let the block's position in the image be below 2 ^ 64 and the cluster that begins at the
-- map's position end there at the latest. Then block `q` of cluster `c` is read from the image at its
-- own position if the map has 0 for the cluster, and from the snapshot file, `q` blocks behind the map's
-- position, if it has not.
pub set_io_opts_lem :
    (dev : BsDevUring) (ch : IoChannel) (k b c q : ℕ)
    → IsGeometry dev k b
    → c < max_clusters
    → q < 2 ^ k
    → (c * 2 ^ k + q) * 2 ^ b < 2 ^ 64
    → dev.cluster_map c + 2 ^ k * 2 ^ b ≤ 2 ^ 64
    → set_io_opts dev ch (c * 2 ^ k + q)
      ≡ done (
          if dev.cluster_map c == 0
          then (ch.image_file_fd, (c * 2 ^ k + q) * 2 ^ b)
          else (ch.snapshot_file_fd, dev.cluster_map c + q * 2 ^ b))
unfolding set_io_opts
set_io_opts_lem dev ch k b c q g hc hq hi hs = rw (
  set_io_opts,
  g.cluster_shift,
  g.offset_mask,
  g.addr_shift,
  div_block c q (2 ^ k) hq,
  bit_and-mask k (c * 2 ^ k + q),
  mod_block c q (2 ^ k) hq,
  mod-eq_of_lt {n = c} {m = 2 ^ 32} (omega arith),
  lt→ltb c max_clusters hc,
  mod-eq_of_lt hi,
  mod-eq_of_lt {n = q * 2 ^ b} {m = 2 ^ 64}
      (block-lt q (2 ^ k) (2 ^ b) (2 ^ 64) hq (omega arith) (pow_pos b)),
  mod-eq_of_lt {n = dev.cluster_map c + q * 2 ^ b} {m = 2 ^ 64}
      (omega (arith, block-lt q (2 ^ k) (2 ^ b) (2 ^ k * 2 ^ b) hq (omega arith) (pow_pos b))),
)
