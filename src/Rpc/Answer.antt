-- ===== src/Rpc/Answer.antt =====
-- What a client of src/lib/bdev_ubi_rpc.c is told.
use bdev_ubi.Common.{
  ℕ, ◌≡◌, ◌≢◌, refl, sym, ◌∙◌, Bool, true, false, Option, none, some, List, [], ◌∷◌, map, ℤ,
  is_zero, arith,
}
use bdev_ubi.Common.Outcome.{Outcome, done, fault, ◌>>=◌}
use bdev_ubi.Posix.{FilePath}
use bdev_ubi.Bdev.Create.{
  Answers, State, Pending, idle, bs_init, bs_load, iter_first, create_blob, create_snapshot,
  open_blob,
}
use bdev_ubi.Bdev.Create.Flow.{Event, run_create}
use bdev_ubi.Bdev.Create.Once.{Phase, Ensures, IsLive, HasBlobs, status_of, count}
use bdev_ubi.Bdev.Create.Total.{run_create-Ensures}
use bdev_ubi.Rpc.{
  RpcConstructUbi, defaults, Response, error, named, create_done, opts_of, string_of,
  rpc_bdev_ubi_create, internal_error,
}

abbrev pub is_named : Response → Bool
is_named (named name) = true
is_named _ = false

-- At most one response was sent, and it reports success exactly if the bdev is on the list.
abbrev pub Agrees : Outcome (Bool × List Response) → Type 0
Agrees fault = ⊥
Agrees (done (listed, [])) = listed ≡ false
Agrees (done (listed, r ∷ [])) = listed ≡ is_named r
Agrees (done (listed, r ∷ q ∷ rs)) = ⊥

is_named-create_done : (name : FilePath) (rc : ℤ) → is_named (create_done name rc) ≡ is_zero rc
unfolding create_done
is_named-create_done name rc = ground arith

live-Agrees :
    (name : FilePath) (s : State)
    → IsLive s
    → Agrees (done (s.listed, map (create_done name) s.replies))
live-Agrees name s h = rw h.silent h.unlisted

finished-Agrees :
    (name : FilePath) (listed : Bool) (rs : List ℤ)
    → count rs ≡ 1
    → listed ≡ is_zero (status_of rs)
    → Agrees (done (listed, map (create_done name) rs))
finished-Agrees name listed [] c h = absurd (omega arith)
finished-Agrees name listed (rc ∷ []) c h = h ∙ sym (is_named-create_done name rc)
finished-Agrees name listed (rc ∷ rc' ∷ rs) c h = absurd (omega arith)

state-Agrees :
    (name : FilePath) (p : Pending) (s : State)
    → Phase p s
    → Agrees (done (s.listed, map (create_done name) s.replies))
state-Agrees name idle s h = finished-Agrees name s.listed s.replies h.told h.listing
state-Agrees name bs_init s h = live-Agrees name s h
state-Agrees name bs_load s h = live-Agrees name s h
state-Agrees name iter_first s h = live-Agrees name s h
state-Agrees name create_blob s h = live-Agrees name s h
state-Agrees name create_snapshot s h = live-Agrees name s h
state-Agrees name open_blob s h = live-Agrees name s h

bind-Agrees :
    (o : Outcome State) (name : FilePath)
    → Ensures o
    → Agrees (o >>= λ s. done (s.listed, map (create_done name) s.replies))
bind-Agrees fault name h = h
bind-Agrees (done s) name h = state-Agrees name s.pending s h

-- Whatever the parameters of a bdev_ubi_create request, if SPDK's io units are not empty, the id of
-- an open blob can be read and no blob is NULL where a callback gets one, then at every moment at
-- most one response was sent, and none reports success unless the bdev is on the module's list;
-- once it is on the list, the one response reports success.
pub rpc_bdev_ubi_create-Agrees :
    (a : Answers) (get_id : Option ℕ → Outcome ℕ)
    (decode : RpcConstructUbi → Option RpcConstructUbi) (es : List Event)
    → a.io_unit_size ≢ 0
    → ((id : ℕ) → get_id (some id) ≡ done id)
    → HasBlobs es
    → Agrees (rpc_bdev_ubi_create a get_id decode es)
unfolding rpc_bdev_ubi_create
rpc_bdev_ubi_create-Agrees a get_id decode es z k b = by_request (decode defaults)
  where
    by_request :
        (o : Option RpcConstructUbi)
        → Agrees (elim o [
          | none ↦ done (false, error internal_error ∷ [])
          | some req ↦ run_create a get_id (some (opts_of req)) es >>= λ s.
              done (s.listed, map (create_done (string_of req.name)) s.replies)
        ])
    by_request none = refl
    by_request (some req) =
        bind-Agrees (run_create a get_id (some (opts_of req)) es) (string_of req.name)
          (run_create-Ensures a get_id (opts_of req) es z k b)
