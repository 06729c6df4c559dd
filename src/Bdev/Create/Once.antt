-- ===== src/Bdev/Create/Once.antt =====
-- What holds of a creation of src/lib/bdev_ubi.c at every moment, whatever SPDK answers.
use bdev_ubi.Common.{
  ℕ, suc, ◌≡◌, ◌≢◌, Bool, true, false, List, [], ◌∷◌, Option, none, some, ℤ, pos, is_zero, arith,
  ◌==◌, if◌then◌else◌, Bool-cases, inl, inr,
}
use bdev_ubi.Common.Outcome.{Outcome, done, fault}
use bdev_ubi.Bdev.{UbiBdev, Closing, open_or_closed, close_blob}
use bdev_ubi.Bdev.Create.{Pending, idle, State, Answers, finish_create}
use bdev_ubi.Bdev.Create.Flow.{Event, ready, opened, created, snapshotted}

-- The status that the caller was told last.
abbrev pub status_of : List ℤ → ℤ
status_of [] = pos 0
status_of (rc ∷ rcs) = rc

abbrev pub count : List ℤ → ℕ
count [] = 0
count (rc ∷ rcs) = suc (count rcs)

-- What is to be closed of a bdev.
abbrev pub close_of : Option UbiBdev → Closing
close_of none = open_or_closed
close_of (some b) = close_blob b b.blob

abbrev pub HasBdev : Option UbiBdev → Type 0
HasBdev none = ⊥
HasBdev (some b) = Unit {0}

-- While a call is in flight nobody was told, and only the io device is registered.
pub record IsLive (s : State) : Type 0 where
  pub silent : s.replies ≡ []
  pub kept : s.context_frees ≡ 0
  pub device : s.io_device ≡ true
  pub registered : s.registerd ≡ true
  pub unlisted : s.listed ≡ false
  pub unregistered : s.bdev_registered ≡ false
  pub untouched : s.closing ≡ open_or_closed
  pub held : HasBdev s.ubi_bdev

-- At the end the caller was told once, the context was freed once, and the bdev is registered, on
-- the list and has its io device if the status is 0; if not, it is neither, and is being closed.
pub record IsFinished (s : State) : Type 0 where
  pub told : count s.replies ≡ 1
  pub freed : s.context_frees ≡ 1
  pub device : s.io_device ≡ is_zero (status_of s.replies)
  pub listing : s.listed ≡ is_zero (status_of s.replies)
  pub shut :
      s.closing ≡ (if is_zero (status_of s.replies) then open_or_closed else close_of s.ubi_bdev)
  pub registration : s.bdev_registered ≡ is_zero (status_of s.replies)

abbrev pub Phase : Pending → State → Type 0
Phase idle s = IsFinished s
Phase _ s = IsLive s

abbrev pub Inv : State → Type 0
Inv s = Phase s.pending s

abbrev pub Ensures : Outcome State → Type 0
Ensures fault = ⊥
Ensures (done s) = Inv s

ne→false : (n : ℕ) → n ≢ 0 → (n == 0) ≡ false
ne→false n h = ground arith

pub finish-Inv :
    (a : Answers) (b : UbiBdev) (status : ℤ) (s : State)
    → a.io_unit_size ≢ 0
    → s.pending ≡ idle
    → s.ubi_bdev ≡ some b
    → IsLive s
    → Ensures (finish_create a status s)
unfolding finish_create close_blob
finish-Inv a b status s z p e h = elim (Bool-cases (is_zero status)) [
  | inl good ↦ elim (Bool-cases (is_zero a.register_bdev)) [
    | inl r ↦ rw (e, good, ne→false a.io_unit_size z, r, p) (ground arith)
    | inr r ↦ rw (e, good, ne→false a.io_unit_size z, r, p) (ground arith)
  ]
  | inr bad ↦ rw (e, bad, p) (ground arith)
]

-- The bdev, the format flag and the call in flight are free.
pub IsLive-move :
    (s : State) (b : UbiBdev) (f : Bool) (p : Pending)
    → IsLive s
    → IsLive (record s { ubi_bdev = some b; format_bdev = f; pending = p })
IsLive-move s b f p h = record {
  silent = h.silent;
  kept = h.kept;
  device = h.device;
  registered = h.registered;
  unlisted = h.unlisted;
  unregistered = h.unregistered;
  untouched = h.untouched;
  held = tt;
}

-- No blob is NULL where a callback gets one.
abbrev pub HasBlobs : List Event → Type 0
HasBlobs [] = Unit {0}
HasBlobs (opened none rc ∷ es) = ⊥
HasBlobs (opened (some id) rc ∷ es) = HasBlobs es
HasBlobs (ready rc ∷ es) = HasBlobs es
HasBlobs (created id rc ∷ es) = HasBlobs es
HasBlobs (snapshotted rc ∷ es) = HasBlobs es
