-- ===== src/Uring/Requests.antt =====
-- How often the operations of src/lib/spdk_bs_dev_uring.c answer a request.
use bdev_ubi.Common.{
  ℕ, suc, ◌<◌, ◌%◌, ◌^◌, ◌≡◌, refl, true, List, [], ◌∷◌, leb, not, ◌&&◌, is_neg, if◌then◌else◌,
  arith, ◌+◌,
}
use bdev_ubi.Common.Outcome.{Outcome, done, fault}
use bdev_ubi.Delta.{max_clusters}
use bdev_ubi.Uring.{BsDevUring, IoChannel, shr, set_io_opts}
use bdev_ubi.Uring.Ops.{
  Action, prepare, submit, complete, RingAnswers, read, readv, readv_ext, write, writev, writev_ext,
  flush, write_zeroes, unmap, copy,
}

-- The calls of `cb_fn` that a request gets when `prepared` of its entries wait for a submit: those of
-- the operation itself, and one for each entry that a submit hands to the kernel; if that fails, the
-- entry stays in the ring, and a later submit hands it on. An entry that is not submitted has none.
abbrev pub answers_after : ℕ → List Action → ℕ
answers_after prepared [] = 0
answers_after prepared (prepare sqe ∷ rest) = answers_after (suc prepared) rest
answers_after prepared (submit ∷ rest) = prepared + answers_after 0 rest
answers_after prepared (complete rc ∷ rest) = suc (answers_after prepared rest)

abbrev pub answers : List Action → ℕ
answers acts = answers_after 0 acts

abbrev pub Answers : ℕ → Outcome (List Action) → Type 0
Answers n fault = ⊥
Answers n (done acts) = answers acts ≡ n

-- Whether an operation hands an entry to the ring and the ring does not take it.
abbrev pub expected : BsDevUring → RingAnswers → ℕ → ℕ
expected dev a lba = if not (leb dev.blockcnt lba) && is_neg a.submit_rc then 2 else 1

-- For a block whose cluster has an entry in the map, and a ring that has an entry to give, each of
-- the three reads is defined and its request is answered exactly once, at once or by a completion,
-- unless io_uring_submit fails: then the request is answered at once, and again by the completion of
-- the entry that is still in the ring. All other operations answer their request exactly once.
pub operations-Answers :
    (dev : BsDevUring) (ch : IoChannel) (a : RingAnswers) (iovcnt lba lba_count src_lba : ℕ)
    → a.has_sqe ≡ true
    → shr lba dev.lba_to_cluster_shift % 2 ^ 32 < max_clusters
    → Answers (expected dev a lba) (read dev ch a lba lba_count)
      × Answers (expected dev a lba) (readv dev ch a iovcnt lba lba_count)
      × Answers (expected dev a lba) (readv_ext dev ch a iovcnt lba lba_count)
      × (answers (write dev lba lba_count) ≡ 1)
      × (answers (writev dev lba lba_count) ≡ 1)
      × (answers (writev_ext dev lba lba_count) ≡ 1)
      × (answers (flush dev) ≡ 1)
      × (answers (write_zeroes dev lba lba_count) ≡ 1)
      × (answers (unmap dev lba lba_count) ≡ 1)
      × (answers (copy dev lba src_lba lba_count) ≡ 1)
unfolding read readv_ext readv set_io_opts write writev writev_ext flush write_zeroes unmap copy
operations-Answers dev ch a iovcnt lba lba_count src_lba s m =
    (ground arith, ground arith, ground arith, refl, refl, refl, refl, refl, refl, refl)
