-- ===== src/Bdev/Destruct/Order.antt =====
-- The orders in which the destruction of a ubi bdev, src/lib/bdev_ubi.c, can end.
use bdev_ubi.Common.{
  ℕ, ◌≡◌, true, false, [], ◌∷◌, some, ℤ, is_zero, if◌then◌else◌, Bool-cases, inl, inr,
}
use bdev_ubi.Common.Outcome.{done, fault}
use bdev_ubi.Bdev.{UbiBdev, open_or_closed}
use bdev_ubi.Bdev.Destruct.{
  State, alive, destruct, blob_closed, unloaded, unregistered, deliver, run,
}

-- The bdev is freed once, is off the list, and nothing is in flight.
abbrev pub destroyed : UbiBdev → State
destroyed b = record {
  ubi_bdev = b;
  listed = false;
  closing = open_or_closed;
  unregistering = false;
  frees = 1;
}

-- For a bdev with an open blob and a blobstore, whatever the results of closing and unloading: if
-- the device is unregistered last, the destruction ends with the bdev freed once; if it is
-- unregistered between the two, it so ends if the unloading succeeds, and is a use after free if
-- not; and if it is unregistered first, the callback of the close is a use after free.
pub destruct_orders :
    (b : UbiBdev) (id : ℕ) (rc rc' : ℤ)
    → b.blob ≡ some id
    → b.blobstore ≡ true
    → (run (destruct (alive b)) (blob_closed rc ∷ unloaded rc' ∷ unregistered ∷ [])
        ≡ done (destroyed b))
      × (run (destruct (alive b)) (blob_closed rc ∷ unregistered ∷ unloaded rc' ∷ [])
          ≡ (if is_zero rc' then done (destroyed b) else fault))
      × (run (destruct (alive b)) (unregistered ∷ blob_closed rc ∷ unloaded rc' ∷ []) ≡ fault)
unfolding run deliver destruct
destruct_orders b id rc rc' e f = elim (Bool-cases (is_zero rc')) [
  | inl z ↦ (rw (e, f), rw (e, f, z), rw e)
  | inr z ↦ (rw (e, f), rw (e, f, z), rw e)
]
