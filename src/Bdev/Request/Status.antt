-- ===== src/Bdev/Request/Status.antt =====
-- The I/O path of src/lib/bdev_ubi.c against a description of it.
use bdev_ubi.Common.{ℕ, ◌≡◌, refl, Bool, true, false, ℤ, is_zero, if◌then◌else◌}
use bdev_ubi.Bdev.Request.{
  IoType, read, write, flush, write_zeroes, reset, unmap, other, io_type_supported, IoStatus,
  success, failed, Submission, blob_readv, blob_writev, completed, submit_request, blob_io_complete,
}

-- The status that a request is completed with, if its blob operation, where it starts one, ends
-- with `bserrno`, and the blob operations that it started.
abbrev pub answer : Submission → ℤ → IoStatus
answer (blob_readv offset length) bserrno = blob_io_complete bserrno
answer (blob_writev offset length) bserrno = blob_io_complete bserrno
answer (completed status) bserrno = status

-- What the request's type says of it: it needs the blob if it moves data.
abbrev pub moves_data : IoType → Bool
moves_data read = true
moves_data write = true
moves_data _ = false

-- A request is completed with success exactly if its type is one that the module says it supports
-- and its blob operation, which only reads and writes have, ends with 0.
pub request_status :
    (t : IoType) (offset length : ℕ) (bserrno : ℤ)
    → answer (submit_request t offset length) bserrno ≡ (
        if io_type_supported t
        then if moves_data t then if is_zero bserrno then success else failed else success
        else failed)
unfolding submit_request io_type_supported blob_io_complete
request_status read offset length bserrno = refl
request_status write offset length bserrno = refl
request_status flush offset length bserrno = refl
request_status write_zeroes offset length bserrno = refl
request_status reset offset length bserrno = refl
request_status unmap offset length bserrno = refl
request_status (other n) offset length bserrno = refl
