-- ===== src/Uring/Channel.antt =====
-- src/lib/spdk_bs_dev_uring.c: the life of a channel of the uring device, and its poller.
use bdev_ubi.Common.{
  ℕ, ◌+◌, List, [], ◌∷◌, ◌++◌, Option, none, some, if◌then◌else◌, ℤ, pos, negsuc, neg, is_zero,
}
use bdev_ubi.Posix.{
  FilePath, Call, opened, closed, free_ctx, ring_init, ring_exit, poller_register,
  poller_unregister, o_rdonly, o_direct,
}
use bdev_ubi.Ring.{Peek, failed, batch, PollStep, complete_batch}
use bdev_ubi.Uring.{BsDevUring, IoChannel}

-- What the kernel and liburing answer while a channel is made.
pub record ChannelAnswers : Type 0 where
  pub image_rc : ℤ
  pub snapshot_rc : ℤ
  pub ring_rc : ℤ

abbrev pub open_flags : BsDevUring → ℕ
open_flags dev = if dev.directio then o_rdonly + o_direct else o_rdonly

-- `close(fd)`, which the code calls on the snapshot's descriptor only if it is not negative.
abbrev pub close_fd : ℤ → List Call
close_fd (pos fd) = closed fd ∷ []
close_fd (negsuc e) = []

-- bs_dev_uring_create_channel_cb from io_uring_queue_init on. The result is none for -1.
unfoldable pub start_ring : IoChannel → ℤ → List Call × Option IoChannel
start_ring ch ring_rc = if is_zero ring_rc then (ring_init ∷ poller_register ∷ [], some ch) else (
  ring_init ∷ (close_fd ch.image_file_fd ++ (close_fd ch.snapshot_file_fd ++ (free_ctx ∷ []))),
  none,
)

-- The snapshot file, which is opened if the device has the path of one.
unfoldable pub open_snapshot : FilePath → ℕ → ℕ → ℤ → ℤ → List Call × Option IoChannel
unfolding start_ring
open_snapshot [] flags image snapshot_rc ring_rc =
    start_ring (record { image_file_fd = pos image; snapshot_file_fd = neg 1 }) ring_rc
open_snapshot (c ∷ cs) flags image (negsuc e) ring_rc = (closed image ∷ free_ctx ∷ [], none)
open_snapshot (c ∷ cs) flags image (pos snapshot) ring_rc =
    let (calls, ch) =
      start_ring (record { image_file_fd = pos image; snapshot_file_fd = pos snapshot }) ring_rc in
    (opened snapshot flags ∷ calls, ch)

-- The image file.
unfoldable pub open_image : ℤ → BsDevUring → ChannelAnswers → List Call × Option IoChannel
unfolding open_snapshot
open_image (negsuc e) dev a = (free_ctx ∷ [], none)
open_image (pos image) dev a =
    let (calls, ch) =
      open_snapshot dev.snapshot_path (open_flags dev) image a.snapshot_rc a.ring_rc in
    (opened image (open_flags dev) ∷ calls, ch)

-- bs_dev_uring_create_channel_cb
unfoldable pub create_channel_cb : BsDevUring → ChannelAnswers → List Call × Option IoChannel
unfolding open_image
create_channel_cb dev a = open_image a.image_rc dev a

-- bs_dev_uring_destroy_channel_cb: `close` is called on the image's descriptor alone.
unfoldable pub destroy_channel_cb : IoChannel → List Call
destroy_channel_cb ch = ring_exit ∷ (close_fd ch.image_file_fd ++ (poller_unregister ∷ []))

-- bs_dev_uring_poll. It is always busy, so its result is left out.
unfoldable pub poll : Peek → List PollStep
poll (failed rc) = []
poll (batch cqes) = complete_batch cqes
