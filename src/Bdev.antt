-- ===== src/Bdev.antt =====
-- src/lib/bdev_ubi.c: the ubi bdev. This file has its state and the closing steps that creation and
-- destruction share; the children have the creation flow, the destruction, the request path, and the
-- proofs.
pub mod Create
pub mod Destruct
pub mod Request
use bdev_ubi.Common.{
  ℕ, Bool, true, false, Option, none, some, List, [], ◌∷◌, ℤ, pos, is_zero, if◌then◌else◌,
}
use bdev_ubi.Common.Outcome.{Outcome, done, fault, ◌>>=◌}
use bdev_ubi.Posix.{FilePath}

-- `struct ubi_bdev`, with the fields of its spdk_bdev that the code sets to more than a constant.
-- `blobstore` is whether the pointer is set, and `blob` the id of the open blob.
pub record UbiBdev : Type 0 where
  pub name : FilePath
  pub blocklen : ℕ
  pub blockcnt : ℕ
  pub optimal_io_boundary : ℕ
  pub image_path : FilePath
  pub snapshot_path : FilePath
  pub alignment_bytes : ℕ
  pub no_sync : Bool
  pub directio : Bool
  pub blobstore : Bool
  pub blobid : ℕ
  pub blob : Option ℕ

-- The asynchronous call that closes the bdev, while it is in flight.
pub data Closing : Type 0 where
  open_or_closed blob_close bs_unload : Closing

-- ubi_destruct_blob_close_cb, on the bdev: the next call. Its error is only logged.
unfoldable pub blob_close_cb : UbiBdev → ℤ → Closing
blob_close_cb b bserrno = if b.blobstore then bs_unload else open_or_closed

-- The first closing step of ubi_finish_create and of ubi_destruct.
unfoldable pub close_blob : UbiBdev → Option ℕ → Closing
unfolding blob_close_cb
close_blob b none = blob_close_cb b (pos 0)
close_blob b (some id) = blob_close
