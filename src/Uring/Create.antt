-- ===== src/Uring/Create.antt =====
-- src/lib/spdk_bs_dev_uring.c: bs_dev_uring_create. `spdk_u64log2` is SPDK's, and a parameter.
use bdev_ubi.Common.{
  ℕ, ◌-◌, ◌/◌, ◌^◌, Bool, true, false, Option, none, some, [], ◌∷◌, ltb, ◌==◌, if◌then◌else◌, ℤ,
  pos, is_zero,
}
use bdev_ubi.Common.Outcome.{Outcome, done, fault, ◌>>=◌}
use bdev_ubi.Posix.{FilePath, path_length, File}
use bdev_ubi.Delta.Channel.{read_cluster_map}
use bdev_ubi.Uring.{BsDevUring}

-- What the allocator and the kernel answer: whether calloc succeeds, the size that stat finds or
-- none if it fails, and the calls of ubi_read_cluster_map on the snapshot file.
pub record CreateAnswers : Type 0 where
  pub allocated : Bool
  pub stat_size : Option ℕ
  pub open_rc : ℤ
  pub file : File
  pub read_rc : ℤ

-- `snapshot_path && snapshot_path[0]`
abbrev pub has_snapshot : Option FilePath → Bool
has_snapshot none = false
has_snapshot (some []) = false
has_snapshot (some (c ∷ cs)) = true

-- `ret`, and the map of the device after it, which calloc has set to 0.
unfoldable pub load_map : Option FilePath → CreateAnswers → ℤ × (ℕ → ℕ)
unfolding read_cluster_map
load_map snapshot_path a =
    let (rc, calls, cluster_map) = read_cluster_map a.open_rc a.file a.read_rc (λ i. 0) in
    if has_snapshot snapshot_path then (rc, cluster_map) else (pos 0, λ i. 0)

-- strcpy into a field of 1024 bytes.
unfoldable pub copy_path : Option FilePath → Outcome FilePath
copy_path none = fault
copy_path (some path) = if ltb (path_length path) 1024 then done path else fault

-- `(1 << shift) - 1` on int, which overflows from 31 on.
unfoldable pub int_mask : ℕ → Outcome ℕ
int_mask shift = if ltb shift 31 then done (2 ^ shift - 1) else fault

module _ (u64log2 : ℕ → ℕ) where
  -- The part after both checks: the geometry and the paths.
  unfoldable pub configure :
      ℕ → (ℕ → ℕ) → FilePath → Option FilePath → ℕ → ℕ → Bool → Outcome BsDevUring
  unfolding copy_path int_mask
  configure size cluster_map filename snapshot_path blocklen cluster_size directio =
      if blocklen == 0 then fault else (do
        let shift = u64log2 (cluster_size / blocklen)
        mask ← int_mask shift
        filename' ← copy_path (some filename)
        snapshot_path' ← copy_path snapshot_path
        done (record {
          blockcnt = size / blocklen;
          blocklen = blocklen;
          filename = filename';
          snapshot_path = snapshot_path';
          cluster_map = cluster_map;
          directio = directio;
          lba_to_cluster_shift = shift;
          lba_offset_mask = mask;
          lba_to_addr_shift = u64log2 blocklen;
        }))

  -- The part after calloc: stat, and the cluster map. `none` is a NULL that is returned.
  unfoldable pub with_stat :
      Option ℕ
      → CreateAnswers
      → FilePath
      → Option FilePath
      → ℕ
      → ℕ
      → Bool
      → Outcome (Option BsDevUring)
  unfolding configure load_map
  with_stat none a filename snapshot_path blocklen cluster_size directio = done none
  with_stat (some size) a filename snapshot_path blocklen cluster_size directio =
      let (rc, cluster_map) = load_map snapshot_path a in
      if is_zero rc
      then (do
        dev ← configure size cluster_map filename snapshot_path blocklen cluster_size directio
        done (some dev))
      else done none

  -- bs_dev_uring_create
  unfoldable pub create :
      CreateAnswers → FilePath → Option FilePath → ℕ → ℕ → Bool → Outcome (Option BsDevUring)
  unfolding with_stat
  create a filename snapshot_path blocklen cluster_size directio =
      if a.allocated
      then with_stat a.stat_size a filename snapshot_path blocklen cluster_size directio
      else done none
