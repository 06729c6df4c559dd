-- ===== src/Delta/Descriptors.antt =====
-- The descriptors that src/lib/spdk_bs_dev_delta.c opens and closes.
use bdev_ubi.Common.{ℕ, ◌≡◌, false, List, [], ◌++◌, Option, none, some, ℤ, arith}
use bdev_ubi.Posix.{Call, File, open_after}
use bdev_ubi.Delta.{BsDevDelta, IoChannel}
use bdev_ubi.Delta.Channel.{
  ChannelAnswers, DestroyAnswers, create_channel_cb, destroy_channel_cb, read_cluster_map,
}

-- The calls of the destruction, if there is a channel.
abbrev pub calls_of : BsDevDelta → DestroyAnswers → Option IoChannel → List Call
calls_of dev d none = []
calls_of dev d (some ch) = (destroy_channel_cb dev ch d).0

-- Whatever the kernel answers, a channel that is created, and destroyed if its creation succeeds,
-- leaves no descriptor open, and neither does a reading of a cluster map.
pub channel-closed :
    (dev : BsDevDelta) (a : ChannelAnswers) (d : DestroyAnswers) (open_rc read_rc : ℤ) (file : File)
    (cluster_map : ℕ → ℕ) (fd : ℕ)
    → (open_after fd false
          ((create_channel_cb dev a).0 ++ calls_of dev d (create_channel_cb dev a).1)
        ≡ false)
      × (open_after fd false (read_cluster_map open_rc file read_rc cluster_map).1 ≡ false)
unfolding create_channel_cb destroy_channel_cb read_cluster_map
channel-closed dev a d open_rc read_rc file cluster_map fd = ground arith
