-- ===== src/Delta/Channel.antt =====
-- src/lib/spdk_bs_dev_delta.c: the life of a delta device's channel, and ubi_read_cluster_map,
-- which the other device calls on a delta file.
use bdev_ubi.Common.{
  ℕ, ◌+◌, Bool, true, false, List, [], ◌∷◌, Option, none, some, if◌then◌else◌, ℤ, pos, negsuc, neg,
  is_neg, is_zero,
}
use bdev_ubi.Posix.{
  File, Description, write_file, read_file, Call, opened, closed, free_ctx, ring_init, ring_exit,
  poller_register, poller_unregister, o_rdonly, o_rdwr, o_creat,
}
use bdev_ubi.Posix.Words.{bytes_of, word_at}
use bdev_ubi.Ring.{Peek, failed, batch, PollStep, complete_batch}
use bdev_ubi.Delta.{Direction, delta_read, delta_write, BsDevDelta, IoChannel}

-- What the kernel and liburing answer while a channel is made: open's result and the file that
-- is behind it, what read and write of the map return, and the result of io_uring_queue_init.
pub record ChannelAnswers : Type 0 where
  pub open_rc : ℤ
  pub file : File
  pub read_rc : ℤ
  pub write_rc : ℤ
  pub ring_rc : ℤ

-- The position of a description after a read that returned `n`.
abbrev pub advance : Description → ℤ → Description
advance d (pos n) = record d { offset = d.offset + n }
advance d (negsuc n) = d

-- The end of bs_dev_delta_create_channel_cb, from io_uring_queue_init on.
unfoldable pub start_ring : IoChannel → ℤ → List Call × Option IoChannel
start_ring ch ring_rc =
    if is_zero ring_rc
    then (ring_init ∷ poller_register ∷ [], some ch)
    else (ring_init ∷ closed ch.fd ∷ free_ctx ∷ [], none)

-- The map is read in the READ direction, and its space is reserved in the WRITE direction. The
-- result is none where the C function returns -1.
unfoldable pub init_map : Direction → IoChannel → ChannelAnswers → List Call × Option IoChannel
unfolding start_ring
init_map delta_read ch a =
    if is_neg a.read_rc
    then (closed ch.fd ∷ free_ctx ∷ [], none)
    else start_ring
        (record ch {
          delta_file = advance ch.delta_file a.read_rc;
          cluster_map = word_at (read_file ch.delta_file (bytes_of ch.cluster_map) a.read_rc);
          initialized = true;
        })
        a.ring_rc
init_map delta_write ch a =
    if is_neg a.write_rc
    then (closed ch.fd ∷ free_ctx ∷ [], none)
    else start_ring
        (record ch { delta_file = write_file ch.delta_file (bytes_of ch.cluster_map) a.write_rc })
        a.ring_rc

-- The channel before the map is dealt with: memset to 0, at the start of the file.
abbrev pub fresh_channel : ℕ → File → IoChannel
fresh_channel fd file = record {
  fd = fd;
  delta_file = record { file = file; offset = 0 };
  cluster_map = λ i. 0;
  initialized = false;
}

-- The flags of the call of open, by direction.
abbrev pub open_flags : Direction → ℕ
open_flags delta_read = o_rdonly
open_flags delta_write = o_rdwr + o_creat

-- The part that depends on the result of open.
unfoldable pub with_file : ℤ → BsDevDelta → ChannelAnswers → List Call × Option IoChannel
unfolding init_map
with_file (negsuc e) dev a = (free_ctx ∷ [], none)
with_file (pos fd) dev a =
    let (calls, ch) = init_map dev.direction (fresh_channel fd a.file) a in
    (opened fd (open_flags dev.direction) ∷ calls, ch)

-- bs_dev_delta_create_channel_cb: the calls it makes, and the channel unless it returns -1.
unfoldable pub create_channel_cb : BsDevDelta → ChannelAnswers → List Call × Option IoChannel
unfolding with_file
create_channel_cb dev a = with_file a.open_rc dev a

-- lseek(fd, 0, SEEK_SET), and write of the map: what the kernel answers while a channel is
-- destroyed. A failed seek is only logged, and the map then goes where the position is.
pub record DestroyAnswers : Type 0 where
  pub seek_fails : Bool
  pub write_rc : ℤ

-- The delta file after the map was written.
unfoldable pub store_map : Direction → IoChannel → DestroyAnswers → File
store_map delta_read ch a = ch.delta_file.file
store_map delta_write ch a =
    let d = if a.seek_fails then ch.delta_file else record ch.delta_file { offset = 0 } in
    (write_file d (bytes_of ch.cluster_map) a.write_rc).file

-- bs_dev_delta_destroy_channel_cb: the calls it makes, and the delta file that it leaves.
unfoldable pub destroy_channel_cb : BsDevDelta → IoChannel → DestroyAnswers → List Call × File
unfolding store_map
destroy_channel_cb dev ch a =
    (ring_exit ∷ closed ch.fd ∷ poller_unregister ∷ [], store_map dev.direction ch a)

-- ubi_read_cluster_map: the return value, the calls it makes, and the map after it. The arguments
-- are the result of open with the file behind it, and the result of read.
unfoldable pub read_cluster_map : ℤ → File → ℤ → (ℕ → ℕ) → ℤ × List Call × (ℕ → ℕ)
read_cluster_map (negsuc e) file read_rc cluster_map = (neg 1, [], cluster_map)
read_cluster_map (pos fd) file read_rc cluster_map =
    let start : Description = record { file = file; offset = 0 } in
    let calls = opened fd o_rdonly ∷ closed fd ∷ [] in
    if is_neg read_rc
    then (neg 1, calls, cluster_map)
    else (pos 0, calls, word_at (read_file start (bytes_of cluster_map) read_rc))

-- bs_dev_delta_poll. It is always busy, so its result is left out.
unfoldable pub poll : Peek → List PollStep
poll (failed rc) = []
poll (batch cqes) = complete_batch cqes
