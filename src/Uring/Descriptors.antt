-- ===== src/Uring/Descriptors.antt =====
-- The descriptors that a channel of src/lib/spdk_bs_dev_uring.c opens and closes.
use bdev_ubi.Common.{ℕ, ◌≡◌, ◌≢◌, Bool, false, none, some, ◌++◌, ℤ, pos, negsuc, ◌==◌, arith}
use bdev_ubi.Posix.{open_after}
use bdev_ubi.Uring.{BsDevUring, IoChannel}
use bdev_ubi.Uring.Channel.{ChannelAnswers, create_channel_cb, destroy_channel_cb}

-- Whether `fd` is the descriptor in a field of the channel.
abbrev pub is_fd : ℕ → ℤ → Bool
is_fd fd (pos n) = n == fd
is_fd fd (negsuc e) = false

-- A channel whose creation fails leaves no descriptor open.
pub create_channel_none-closed :
    (dev : BsDevUring) (a : ChannelAnswers) (fd : ℕ)
    → (create_channel_cb dev a).1 ≡ none
    → open_after fd false (create_channel_cb dev a).0 ≡ false
unfolding create_channel_cb
create_channel_none-closed dev a fd h = ground arith

-- A channel that is created and destroyed leaves open the snapshot file's descriptor, and no other:
-- if there is a snapshot file, each channel leaks one descriptor.
pub create-destroy_leaks :
    (dev : BsDevUring) (a : ChannelAnswers) (ch : IoChannel) (fd : ℕ)
    → (create_channel_cb dev a).1 ≡ some ch
    → ch.image_file_fd ≢ ch.snapshot_file_fd
    → open_after fd false ((create_channel_cb dev a).0 ++ destroy_channel_cb ch)
      ≡ is_fd fd ch.snapshot_file_fd
unfolding create_channel_cb destroy_channel_cb
create-destroy_leaks dev a ch fd h d = ground arith
