-- ===== src/Bdev/Destruct.antt =====
-- src/lib/bdev_ubi.c: ubi_destruct. It starts two chains of asynchronous calls, the closing of the
-- blob and its blobstore and the removal of the io device, and SPDK completes them in any order.
pub mod Order
use bdev_ubi.Common.{
  ℕ, ◌+◌, Bool, true, false, List, [], ◌∷◌, Option, none, some, ltb, ◌&&◌, not, if◌then◌else◌, ℤ,
  is_zero,
}
use bdev_ubi.Common.Outcome.{Outcome, done, fault, ◌>>=◌}
use bdev_ubi.Bdev.{
  UbiBdev, Closing, open_or_closed, blob_close, bs_unload, blob_close_cb, close_blob,
}

-- A bdev that is being destroyed: whether it is on the module's list, the two chains, and how often
-- it was freed.
pub record State : Type 0 where
  pub ubi_bdev : UbiBdev
  pub listed : Bool
  pub closing : Closing
  pub unregistering : Bool
  pub frees : ℕ

abbrev pub alive : UbiBdev → State
alive b = record {
  ubi_bdev = b;
  listed = true;
  closing = open_or_closed;
  unregistering = false;
  frees = 0;
}

-- ubi_destruct
unfoldable pub destruct : State → State
unfolding close_blob
destruct s = record s {
  listed = false;
  closing = close_blob s.ubi_bdev s.ubi_bdev.blob;
  unregistering = true;
}

pub data Event : Type 0 where
  blob_closed unloaded : ℤ → Event
  unregistered : Event

-- ubi_destruct_blob_close_cb, which reads the bdev.
unfoldable pub on_blob_closed : Closing → ℤ → State → Outcome State
unfolding blob_close_cb
on_blob_closed blob_close rc s =
    if ltb 0 s.frees then fault else done (record s { closing = blob_close_cb s.ubi_bdev rc })
on_blob_closed _ rc s = done s

-- ubi_destruct_bs_unload_cb, which reads the bdev for the log of an error.
unfoldable pub on_unloaded : Closing → ℤ → State → Outcome State
on_unloaded bs_unload rc s =
    if ltb 0 s.frees && not (is_zero rc)
    then fault
    else done (record s { closing = open_or_closed })
on_unloaded _ rc s = done s

-- _device_unregister_cb
unfoldable pub device_unregister_cb : State → State
device_unregister_cb s = record s { unregistering = false; frees = s.frees + 1 }

-- An event whose call is not in flight does not happen.
unfoldable pub deliver : State → Event → Outcome State
unfolding on_blob_closed on_unloaded device_unregister_cb
deliver s (blob_closed rc) = on_blob_closed s.closing rc s
deliver s (unloaded rc) = on_unloaded s.closing rc s
deliver s unregistered = done (if s.unregistering then device_unregister_cb s else s)

unfoldable pub run : State → List Event → Outcome State
run s [] = done s
run s (e ∷ es) = do s' ← deliver s e; run s' es
