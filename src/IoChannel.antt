-- ===== src/IoChannel.antt =====
-- src/lib/bdev_ubi_io_channel.c: the per-thread channel of a ubi bdev. Its state is what the module
-- holds of SPDK: registered pollers and blobstore channels.
use bdev_ubi.Common.{
  ℕ, ◌+◌, ◌-◌, ◌≡◌, refl, Bool, true, false, ℤ, pos, neg, is_zero, enomem, if◌then◌else◌, arith,
}

pub record Held : Type 0 where
  pub pollers : ℕ
  pub bs_channels : ℕ

-- ubi_create_channel_cb. `allocated` is whether spdk_bs_alloc_io_channel gives a channel.
unfoldable pub create_channel_cb : Bool → Held → Held × ℤ
create_channel_cb allocated h =
    let h' = record h { pollers = h.pollers + 1 } in
    if allocated then (record h' { bs_channels = h.bs_channels + 1 }, pos 0) else (h', neg enomem)

-- ubi_destroy_channel_cb
unfoldable pub destroy_channel_cb : Held → Held
destroy_channel_cb h = record h { pollers = h.pollers - 1; bs_channels = h.bs_channels - 1 }

-- The values of a poller's result.
pub data PollResult : Type 0 where
  poller_idle poller_busy : PollResult

-- ubi_io_poll
unfoldable pub io_poll : PollResult
io_poll = poller_idle

-- What a thread holds after a channel was created, and destroyed again if it was created.
abbrev pub open_and_close : Bool → Held → Held
open_and_close allocated h =
    let (h', rc) = create_channel_cb allocated h in if is_zero rc then destroy_channel_cb h' else h'

-- A channel that is created and destroyed leaves nothing behind; one whose creation fails leaves
-- its poller registered.
pub open_and_close_lem :
    (allocated : Bool) (h : Held)
    → open_and_close allocated h ≡ (if allocated then h else record h { pollers = h.pollers + 1 })
unfolding create_channel_cb destroy_channel_cb
open_and_close_lem true h = ground arith
open_and_close_lem false h = refl
