-- ===== src/Bdev/Request.antt =====
-- src/lib/bdev_ubi.c: the I/O path, and the external snapshot device that the blobstore asks for.
pub mod Status
pub mod Esnap
use bdev_ubi.Common.{
  ℕ, ◌%◌, ◌^◌, Bool, true, false, Option, none, some, ℤ, pos, is_zero, if◌then◌else◌,
}
use bdev_ubi.Common.Outcome.{Outcome, done, fault, ◌>>=◌}
use bdev_ubi.Uring.{BsDevUring}
use bdev_ubi.Uring.Create
use bdev_ubi.Uring.Create.{CreateAnswers}
use bdev_ubi.Bdev.{UbiBdev}

-- `enum spdk_bdev_io_type`: those that the code names, and the others by a number.
pub data IoType : Type 0 where
  read write flush write_zeroes reset unmap : IoType
  other : ℕ → IoType

-- ubi_io_type_supported
unfoldable pub io_type_supported : IoType → Bool
io_type_supported read = true
io_type_supported write = true
io_type_supported flush = true
io_type_supported write_zeroes = false
io_type_supported reset = false
io_type_supported unmap = false
io_type_supported (other n) = false

pub data IoStatus : Type 0 where
  success failed : IoStatus

-- What a submission does: it starts a blob operation at an offset, of a length, or completes.
pub data Submission : Type 0 where
  blob_readv blob_writev : ℕ → ℕ → Submission
  completed : IoStatus → Submission

-- ubi_submit_request
unfoldable pub submit_request : IoType → ℕ → ℕ → Submission
submit_request read offset length = blob_readv offset length
submit_request write offset length = blob_writev offset length
submit_request flush offset length = completed success
submit_request _ offset length = completed failed

-- ubi_blob_io_complete
unfoldable pub blob_io_complete : ℤ → IoStatus
blob_io_complete bserrno = if is_zero bserrno then success else failed

-- ubi_esnap_dev_create: the device that it stores through `bs_dev`. It returns 0 also for NULL.
-- `cluster_size` is what spdk_bs_get_cluster_size answers, which uses the blobstore; that of the bdev is
-- NULL until its creation sets it.
unfoldable pub esnap_dev_create :
    (ℕ → ℕ) → CreateAnswers → UbiBdev → ℕ → Outcome (ℤ × Option BsDevUring)
esnap_dev_create u64log2 a b cluster_size =
    if b.blobstore
    then (do
      dev ←
          Create.create u64log2 a b.image_path (some b.snapshot_path) b.blocklen
            (cluster_size % 2 ^ 32) b.directio
      done (pos 0, dev))
    else fault
