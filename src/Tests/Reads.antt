-- ===== src/Tests/Reads.antt =====
-- The devices of src/lib/spdk_bs_dev_uring.c at concrete inputs, and the pollers.
use bdev_ubi.Uring.Ops.{read_at, prepare, submit}
use bdev_ubi.Uring.Reads.{read-submits}
use bdev_ubi.Common.{
  ◌+◌, ◌*◌, ◌^◌, ◌≡◌, refl, ◌∷◌, [], ◌++◌, false, true, pos, neg, eio, ◌==◌, if◌then◌else◌, arith,
}
use bdev_ubi.Common.Outcome.{done}
use bdev_ubi.Posix.{open_after}
use bdev_ubi.Ring.{Peek, batch}
use bdev_ubi.Ring.Poll.{callbacks, returned, poll-callbacks}
use bdev_ubi.Delta
use bdev_ubi.Uring
use bdev_ubi.Uring.{BsDevUring, IoChannel, set_io_opts}
use bdev_ubi.Uring.Address.{IsGeometry, set_io_opts_lem}
use bdev_ubi.Uring.Channel.{ChannelAnswers, create_channel_cb, destroy_channel_cb}
use bdev_ubi.Uring.Descriptors.{create_channel_none-closed, create-destroy_leaks}
use bdev_ubi.Uring.Ops.{read}
use bdev_ubi.Uring.Requests.{answers, Answers, operations-Answers}
use bdev_ubi.Uring.Ops.{
  readv, readv_ext, write, writev, writev_ext, flush, write_zeroes, unmap, copy, RingAnswers,
}

-- 16 blocks of 512 bytes; cluster 2 is in the snapshot file.
abbrev device : BsDevUring
device = record {
  blockcnt = 16;
  blocklen = 512;
  filename = 105 ∷ [];
  snapshot_path = 115 ∷ [];
  cluster_map = λ i. if i == 2 then 536870912 else 0;
  directio = false;
  lba_to_cluster_shift = 3;
  lba_offset_mask = 7;
  lba_to_addr_shift = 9;
}

abbrev channel : IoChannel
channel = record { image_file_fd = pos 4; snapshot_file_fd = pos 5 }

device-IsGeometry : IsGeometry device 3 9
device-IsGeometry = record { cluster_shift = refl; offset_mask = refl; addr_shift = refl }

set_io_opts_lem_example : set_io_opts device channel (2 * 2 ^ 3 + 3) ≡ done (pos 5, 536872448)
set_io_opts_lem_example =
    set_io_opts_lem device channel 3 9 2 3 device-IsGeometry (omega arith) (omega arith)
      (omega arith) (omega arith)

abbrev ring_fails : ChannelAnswers
ring_fails = record { image_rc = pos 4; snapshot_rc = pos 5; ring_rc = neg 12 }

abbrev all_good : ChannelAnswers
all_good = record ring_fails { ring_rc = pos 0 }

create_channel_none-closed_example :
    open_after 5 false (create_channel_cb device ring_fails).0 ≡ false
unfolding create_channel_cb
create_channel_none-closed_example = create_channel_none-closed device ring_fails 5 refl

create-destroy_leaks_example :
    open_after 5 false ((create_channel_cb device all_good).0 ++ destroy_channel_cb channel) ≡ true
unfolding create_channel_cb
create-destroy_leaks_example = create-destroy_leaks device all_good channel 5 refl (ground arith)

abbrev two_done : Peek
two_done =
    batch (record { user_data = 1; res = pos 512 } ∷ record { user_data = 2; res = neg 9 } ∷ [])

poll-callbacks_example :
    (callbacks (Uring.Channel.poll two_done) ≡ (1, pos 0) ∷ (2, neg eio) ∷ [])
    × (returned (Uring.Channel.poll two_done) ≡ 1 ∷ 2 ∷ [])
    × (Delta.Channel.poll two_done ≡ Uring.Channel.poll two_done)
poll-callbacks_example = poll-callbacks two_done

-- Two blocks from block 3 of cluster 1, which the snapshot file does not have.
read-submits_example :
    read device channel (record { has_sqe = true; submit_rc = pos 1 }) (1 * 2 ^ 3 + 3) 2
    ≡ done (prepare (read_at (pos 4) 1024 5632) ∷ submit ∷ [])
read-submits_example =
    read-submits device channel (record { has_sqe = true; submit_rc = pos 1 }) 3 9 1 3 2
      device-IsGeometry refl refl refl (omega arith) (omega arith) (omega arith) (omega arith)
      (omega arith) (omega arith)

abbrev submit_fails : RingAnswers
submit_fails = record { has_sqe = true; submit_rc = neg 11 }

-- The read of a block of the image is answered twice.
operations-Answers_example :
    Answers 2 (read device channel submit_fails 9 1)
    × Answers 2 (readv device channel submit_fails 3 9 1)
    × Answers 2 (readv_ext device channel submit_fails 3 9 1)
    × (answers (write device 9 1) ≡ 1)
    × (answers (writev device 9 1) ≡ 1)
    × (answers (writev_ext device 9 1) ≡ 1)
    × (answers (flush device) ≡ 1)
    × (answers (write_zeroes device 9 1) ≡ 1)
    × (answers (unmap device 9 1) ≡ 1)
    × (answers (copy device 9 0 1) ≡ 1)
operations-Answers_example =
    operations-Answers device channel submit_fails 3 9 1 0 refl (omega arith)
