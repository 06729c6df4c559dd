-- ===== src/Ring.antt =====
-- Completions of an io_uring, as the pollers of src/lib/spdk_bs_dev_uring.c and
-- src/lib/spdk_bs_dev_delta.c, which share their text, deal with them.
pub mod Poll
use bdev_ubi.Common.{ℕ, List, [], ◌∷◌, if◌then◌else◌, ℤ, pos, neg, is_neg, eio}

-- A completion that the ring hands out: its request, by a number, and the result.
pub record Cqe : Type 0 where
  pub user_data : ℕ
  pub res : ℤ

-- What io_uring_peek_batch_cqe gives: an error (-EAGAIN among them), or up to 64 completions.
pub data Peek : Type 0 where
  failed : ℤ → Peek
  batch : List Cqe → Peek

-- `cb_args->cb_fn(cb_args->channel, cb_args->cb_arg, rc)`, and io_uring_cqe_seen.
pub data PollStep : Type 0 where
  complete : ℕ → ℤ → PollStep
  seen : ℕ → PollStep

-- The loop of the pollers.
unfoldable pub complete_batch : List Cqe → List PollStep
complete_batch [] = []
complete_batch (cqe ∷ rest) =
    complete cqe.user_data (if is_neg cqe.res then neg eio else pos 0)
    ∷ seen cqe.user_data
    ∷ complete_batch rest
