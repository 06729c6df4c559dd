-- ===== src/Ring/Poll.antt =====
-- What the pollers of src/lib/spdk_bs_dev_uring.c and src/lib/spdk_bs_dev_delta.c do for each
-- completion.
use bdev_ubi.Common.{ℕ, List, [], ◌∷◌, ◌≡◌, refl, ap, map, if◌then◌else◌, ℤ, pos, neg, is_neg, eio}
use bdev_ubi.Ring.{Cqe, Peek, failed, batch, PollStep, complete, seen, complete_batch}
use bdev_ubi.Uring
use bdev_ubi.Delta

-- The completions of a peek.
abbrev pub peeked : Peek → List Cqe
peeked (failed rc) = []
peeked (batch cqes) = cqes

-- The calls of `cb_fn` among the steps.
abbrev pub callbacks : List PollStep → List (ℕ × ℤ)
callbacks [] = []
callbacks (complete id rc ∷ steps) = (id, rc) ∷ callbacks steps
callbacks (seen id ∷ steps) = callbacks steps

-- The entries that are given back to the ring.
abbrev pub returned : List PollStep → List ℕ
returned [] = []
returned (complete id rc ∷ steps) = returned steps
returned (seen id ∷ steps) = id ∷ returned steps

abbrev pub verdict : Cqe → ℕ × ℤ
verdict cqe = (cqe.user_data, if is_neg cqe.res then neg eio else pos 0)

batch_callbacks :
    (cqes : List Cqe)
    → (callbacks (complete_batch cqes) ≡ map verdict cqes)
      × (returned (complete_batch cqes) ≡ map (λ cqe. cqe.user_data) cqes)
unfolding complete_batch
batch_callbacks [] = (refl, refl)
batch_callbacks (cqe ∷ rest) =
    let (c, r) = batch_callbacks rest in (ap (◌∷◌ (verdict cqe)) c, ap (◌∷◌ cqe.user_data) r)

-- Both pollers call `cb_fn` once for each completion that was peeked, in order, with -EIO if its
-- result is negative and 0 if not, and give each entry back to the ring once, in order.
pub poll-callbacks :
    (peek : Peek)
    → (callbacks (Uring.Channel.poll peek) ≡ map verdict (peeked peek))
      × (returned (Uring.Channel.poll peek) ≡ map (λ cqe. cqe.user_data) (peeked peek))
      × (Delta.Channel.poll peek ≡ Uring.Channel.poll peek)
unfolding Uring.Channel.poll Delta.Channel.poll
poll-callbacks (failed rc) = (refl, refl, refl)
poll-callbacks (batch cqes) = let (c, r) = batch_callbacks cqes in (c, r, refl)
