-- ===== src/Delta/Ops.antt =====
-- src/lib/spdk_bs_dev_delta.c: the operations of a delta device besides `write`. One that only
-- calls `cb_fn` is the code that it hands over; one that returns a value is that value.
use bdev_ubi.Common.{ℕ, Bool, true, false, not, ℤ, pos, neg, enotsup, Option, none}
use bdev_ubi.Delta.{BsDevDelta}

-- bs_dev_delta_read
unfoldable pub read : BsDevDelta → ℕ → ℕ → ℤ
read dev lba lba_count = neg enotsup

-- bs_dev_delta_readv
unfoldable pub readv : BsDevDelta → ℕ → ℕ → ℤ
readv dev lba lba_count = neg enotsup

-- bs_dev_delta_readv_ext
unfoldable pub readv_ext : BsDevDelta → ℕ → ℕ → ℤ
unfolding readv
readv_ext dev lba lba_count = readv dev lba lba_count

-- bs_dev_delta_writev: a stub that reports success.
unfoldable pub writev : BsDevDelta → ℕ → ℕ → ℤ
writev dev lba lba_count = pos 0

-- bs_dev_delta_writev_ext
unfoldable pub writev_ext : BsDevDelta → ℕ → ℕ → ℤ
writev_ext dev lba lba_count = pos 0

-- bs_dev_delta_flush
unfoldable pub flush : BsDevDelta → ℤ
flush dev = neg enotsup

-- bs_dev_delta_write_zeroes
unfoldable pub write_zeroes : BsDevDelta → ℕ → ℕ → ℤ
write_zeroes dev lba lba_count = neg enotsup

-- bs_dev_delta_unmap
unfoldable pub unmap : BsDevDelta → ℕ → ℕ → ℤ
unmap dev lba lba_count = neg enotsup

-- bs_dev_delta_get_base_bdev: always NULL.
unfoldable pub get_base_bdev : BsDevDelta → Option ℕ
get_base_bdev dev = none

-- bs_dev_delta_is_range_valid
unfoldable pub is_range_valid : BsDevDelta → ℕ → ℕ → Bool
is_range_valid dev lba lba_count = true

-- bs_dev_delta_is_zeroes
unfoldable pub is_zeroes : BsDevDelta → ℕ → ℕ → Bool
unfolding is_range_valid
is_zeroes dev lba lba_count = not (is_range_valid dev lba lba_count)

-- bs_dev_delta_translate_lba: the result, and what it stores through `base_lba`.
unfoldable pub translate_lba : BsDevDelta → ℕ → Bool × ℕ
translate_lba dev lba = (true, lba)

-- bs_dev_delta_copy
unfoldable pub copy : BsDevDelta → ℕ → ℕ → ℕ → ℤ
copy dev dst_lba src_lba lba_count = neg enotsup

-- bs_dev_delta_is_degraded
unfoldable pub is_degraded : BsDevDelta → Bool
is_degraded dev = false
