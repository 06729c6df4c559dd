-- ===== src/Rpc/Once.antt =====
-- The responses of bdev_ubi_snapshot, from src/lib/bdev_ubi_rpc.c, to the end of the snapshot that
-- it starts in src/lib/bdev_ubi_snapshot.c.
use mathlib.Core.Bool.{true≢false}
use bdev_ubi.Common.{
  ℕ, suc, ◌≤◌, ◌<◌, ◌≡◌, ◌≢◌, refl, ap, ◌∙◌, List, [], ◌∷◌, ◌++◌, Option, none, some, ◌&&◌, true,
  sym,
}
use bdev_ubi.Common.Outcome.{Outcome, done, fault, ◌>>=◌}
use bdev_ubi.Posix.{FilePath, path_length}
use bdev_ubi.Snapshot
use bdev_ubi.Snapshot.{
  SnapshotBdev, Effect, replied, destroyed_bs_dev, freed_channel, freed_path, freed_context,
  Blobstore, started, Found, missing, foreign, ubi,
}
use bdev_ubi.Snapshot.Run.{Event, run, run_snapshot}
use bdev_ubi.Snapshot.Once.{replies}
use bdev_ubi.Snapshot.Progress.{completions, Ends, run_snapshot-Ends}
use bdev_ubi.Rpc.{Response, responses, rpc_bdev_ubi_snapshot}

abbrev pub length : List Response → ℕ
length [] = 0
length (r ∷ rs) = suc (length rs)

length-responses : (es : List Effect) → length (responses es) ≡ replies es
length-responses [] = refl
length-responses (replied rc ∷ es) = ap suc (length-responses es)
length-responses (destroyed_bs_dev ∷ es) = length-responses es
length-responses (freed_channel ∷ es) = length-responses es
length-responses (freed_path ∷ es) = length-responses es
length-responses (freed_context ∷ es) = length-responses es

-- All that is sent: at once, and in the run of the snapshot that was started, if one was.
abbrev pub sent :
    Blobstore
    → Outcome (List Response × Option Snapshot.State)
    → List Event
    → Outcome (List Response)
sent bs fault es = fault
sent bs (done (now, none)) es = done now
sent bs (done (now, some s)) es = run bs s es >>= λ t. done (responses t.effects ++ now)

abbrev pub SentOnce : Outcome (List Response) → Type 0
SentOnce fault = ⊥
SentOnce (done rs) = length rs ≡ 1

-- What a name stands for is no bdev of another module, and has blocks.
abbrev pub IsOurs : Found → Type 0
IsOurs missing = Unit {0}
IsOurs foreign = ⊥
IsOurs (ubi b) = b.blocklen ≢ 0

append_nil : (rs : List Response) → length (rs ++ []) ≡ length rs
append_nil [] = refl
append_nil (r ∷ rs) = ap suc (append_nil rs)

Ends-SentOnce :
    (bs : Blobstore) (o : Outcome Snapshot.State)
    → (bs.has_channel && bs.delta_allocated) ≡ true
    → Ends bs o
    → SentOnce (o >>= λ t. done (responses t.effects ++ []))
Ends-SentOnce bs fault given h = true≢false (sym given ∙ h)
Ends-SentOnce bs (done s) given h =
    append_nil (responses s.effects) ∙ (length-responses s.effects ∙ h.1.0)

by_bdev :
    (bs : Blobstore) (found : Found) (path : FilePath) (es : List Event)
    → (bs.has_channel && bs.delta_allocated) ≡ true
    → IsOurs found
    → path_length path < 1024
    → 6 ≤ completions es
    → SentOnce (sent bs (Snapshot.snapshot found path >>= λ r. done (responses r.0, r.1)) es)
unfolding Snapshot.snapshot run_snapshot
by_bdev bs missing path es given z h n = refl
by_bdev bs foreign path es given z h n = absurd z
by_bdev bs (ubi b) path es given z h n =
    Ends-SentOnce bs (run bs (started b path) es) given (run_snapshot-Ends bs b path es z h n)

-- A bdev_ubi_snapshot request whose path has less than 1024 characters, for any name that stands for
-- no bdev or for one of this module with blocks that are not empty, is answered exactly once after any
-- events with at least six completions, whatever their results, if the channel and the delta device
-- can be allocated; so is one that cannot be decoded.
pub rpc_bdev_ubi_snapshot-SentOnce :
    (bs : Blobstore) (get_by_name : FilePath → Found) (name path : FilePath) (es : List Event)
    → (bs.has_channel && bs.delta_allocated) ≡ true
    → IsOurs (get_by_name name)
    → path_length path < 1024
    → 6 ≤ completions es
    → SentOnce (sent bs (rpc_bdev_ubi_snapshot get_by_name (some (name, path))) es)
      × SentOnce (sent bs (rpc_bdev_ubi_snapshot get_by_name none) es)
unfolding rpc_bdev_ubi_snapshot
rpc_bdev_ubi_snapshot-SentOnce bs get_by_name name path es given z h n =
    (by_bdev bs (get_by_name name) path es given z h n, refl)
