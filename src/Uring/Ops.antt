-- ===== src/Uring/Ops.antt =====
-- src/lib/spdk_bs_dev_uring.c: the operations of the uring device.
use bdev_ubi.Common.{
  ℕ, ◌+◌, ◌*◌, ◌%◌, ◌^◌, Bool, true, false, not, Option, none, List, [], ◌∷◌, ltb, leb, ◌==◌,
  if◌then◌else◌, ℤ, pos, neg, is_neg, eio, enotsup,
}
use bdev_ubi.Common.Outcome.{Outcome, done, fault, ◌>>=◌}
use bdev_ubi.Uring.{BsDevUring, IoChannel, set_io_opts, shr, map_entry}

-- The entries that the code prepares for the ring, by io_uring_prep_read (a length in bytes) and
-- io_uring_prep_readv (a number of buffers).
pub data Sqe : Type 0 where
  read_at : ℤ → ℕ → ℕ → Sqe
  readv_at : ℤ → ℕ → ℕ → Sqe

-- What an operation does to its request: it prepares an entry with the request as its data,
-- submits the ring, or calls `cb_fn` with a code.
pub data Action : Type 0 where
  prepare : Sqe → Action
  submit : Action
  complete : ℤ → Action

-- What liburing answers: whether io_uring_get_sqe gives an entry (it gives NULL if the ring is
-- full), and the result of io_uring_submit.
pub record RingAnswers : Type 0 where
  pub has_sqe : Bool
  pub submit_rc : ℤ

-- The second half of both reads: the entry, which is used with no test for NULL, and the submit.
unfoldable pub submit_sqe : RingAnswers → Sqe → Outcome (List Action)
submit_sqe a sqe =
    if a.has_sqe
    then done (prepare sqe ∷ submit ∷ (if is_neg a.submit_rc then complete (neg eio) ∷ [] else []))
    else fault

-- bs_dev_uring_read. The product of the length is one of uint32_t.
unfoldable pub read : BsDevUring → IoChannel → RingAnswers → ℕ → ℕ → Outcome (List Action)
unfolding submit_sqe
read dev ch a lba lba_count = if leb dev.blockcnt lba then done (complete (pos 0) ∷ []) else (do
  (fd, offset) ← set_io_opts dev ch lba
  submit_sqe a (read_at fd (lba_count * dev.blocklen % 2 ^ 32) offset))

-- bs_dev_uring_readv
unfoldable pub readv : BsDevUring → IoChannel → RingAnswers → ℕ → ℕ → ℕ → Outcome (List Action)
unfolding submit_sqe
readv dev ch a iovcnt lba lba_count =
    if leb dev.blockcnt lba
    then done (complete (pos 0) ∷ [])
    else (do (fd, offset) ← set_io_opts dev ch lba; submit_sqe a (readv_at fd iovcnt offset))

-- bs_dev_uring_readv_ext
unfoldable pub readv_ext : BsDevUring → IoChannel → RingAnswers → ℕ → ℕ → ℕ → Outcome (List Action)
unfolding readv
readv_ext dev ch a iovcnt lba lba_count = readv dev ch a iovcnt lba lba_count

-- bs_dev_uring_is_range_valid. The sum is one of uint64_t.
unfoldable pub is_range_valid : BsDevUring → ℕ → ℕ → Outcome Bool
unfolding map_entry
is_range_valid dev lba lba_count =
    if leb dev.blockcnt lba
    then (do m ← map_entry dev (shr lba dev.lba_to_cluster_shift); done (not (m == 0)))
    else done (not (ltb dev.blockcnt ((lba + lba_count) % 2 ^ 64)))

-- bs_dev_uring_is_zeroes
unfoldable pub is_zeroes : BsDevUring → ℕ → ℕ → Outcome Bool
unfolding is_range_valid
is_zeroes dev lba lba_count = do valid ← is_range_valid dev lba lba_count; done (not valid)

-- bs_dev_uring_write
unfoldable pub write : BsDevUring → ℕ → ℕ → List Action
write dev lba lba_count = complete (neg enotsup) ∷ []

-- bs_dev_uring_writev
unfoldable pub writev : BsDevUring → ℕ → ℕ → List Action
writev dev lba lba_count = complete (neg enotsup) ∷ []

-- bs_dev_uring_writev_ext
unfoldable pub writev_ext : BsDevUring → ℕ → ℕ → List Action
writev_ext dev lba lba_count = complete (neg enotsup) ∷ []

-- bs_dev_uring_flush
unfoldable pub flush : BsDevUring → List Action
flush dev = complete (neg enotsup) ∷ []

-- bs_dev_uring_write_zeroes
unfoldable pub write_zeroes : BsDevUring → ℕ → ℕ → List Action
write_zeroes dev lba lba_count = complete (neg enotsup) ∷ []

-- bs_dev_uring_unmap
unfoldable pub unmap : BsDevUring → ℕ → ℕ → List Action
unmap dev lba lba_count = complete (neg enotsup) ∷ []

-- bs_dev_uring_copy
unfoldable pub copy : BsDevUring → ℕ → ℕ → ℕ → List Action
copy dev dst_lba src_lba lba_count = complete (neg enotsup) ∷ []

-- bs_dev_uring_get_base_bdev: always NULL.
unfoldable pub get_base_bdev : BsDevUring → Option ℕ
get_base_bdev dev = none

-- bs_dev_uring_translate_lba: the result, and what it stores through `base_lba`.
unfoldable pub translate_lba : BsDevUring → ℕ → Bool × ℕ
translate_lba dev lba = (true, lba)

-- bs_dev_uring_is_degraded
unfoldable pub is_degraded : BsDevUring → Bool
is_degraded dev = false
