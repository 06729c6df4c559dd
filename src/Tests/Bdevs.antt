-- ===== src/Tests/Bdevs.antt =====
-- Bdevs of src/lib/bdev_ubi.c, their requests and channels, and the RPC methods, at concrete inputs.
use bdev_ubi.Bdev.Request.Esnap.{IsDone, esnap-IsDone}
use bdev_ubi.Common.{
  ℕ, ◌≡◌, refl, ◌∷◌, [], false, true, none, some, List, Option, pos, neg, eio, arith,
}
use bdev_ubi.Common.Outcome.{Outcome, done, fault}
use bdev_ubi.Posix.{o_rdonly}
use bdev_ubi.Uring
use bdev_ubi.Uring.{BsDevUring}
use bdev_ubi.Uring.Create.{CreateAnswers}
use bdev_ubi.Uring.Channel.{open_flags}
use bdev_ubi.Bdev.{UbiBdev, open_or_closed}
use bdev_ubi.Bdev.Create.{
  Opts, State, Answers, idle, create, finish_create, bs_init_complete, blob_open_complete, new_bdev,
  with_base,
}
use bdev_ubi.Bdev.Create.Flow.{Event, ready, opened, created, snapshotted, deliver, run_create}
use bdev_ubi.Bdev.Create.Once.{Ensures}
use bdev_ubi.Bdev.Create.Total.{run_create-Ensures}
use bdev_ubi.Bdev.Create.Finish.{completions, Finished, run_create-Finished}
use bdev_ubi.Bdev.Destruct.{alive, destruct, run, blob_closed, unloaded, unregistered}
use bdev_ubi.Bdev.Destruct.Order.{destroyed, destruct_orders}
use bdev_ubi.Bdev.Request
use bdev_ubi.Bdev.Request.{failed, submit_request, esnap_dev_create}
use bdev_ubi.Bdev.Request.Status.{answer, request_status}
use bdev_ubi.Bdev.Request.Esnap.{esnap-o_rdonly}
use bdev_ubi.IoChannel.{Held, open_and_close, open_and_close_lem}
use bdev_ubi.Rpc.{RpcConstructUbi, rpc_bdev_ubi_create}
use bdev_ubi.Rpc.Answer.{Agrees, rpc_bdev_ubi_create-Agrees}
use bdev_ubi.Tests.Files.{log2}

abbrev pub get_id : Option ℕ → Outcome ℕ
get_id none = fault
get_id (some id) = done id

abbrev pub answers : Answers
answers = record {
  allocated = true;
  name_copied = true;
  create_bs_dev = pos 0;
  base_blocklen = 512;
  base_blockcnt = 4096;
  num_io_units = 2048;
  io_unit_size = 512;
  register_bdev = pos 0;
}

abbrev opts : Opts
opts = record {
  name = 110 ∷ [];
  image_path = 105 ∷ [];
  snapshot_path = none;
  base_bdev_name = 98 ∷ [];
  no_sync = false;
  directio = true;
  format_bdev = false;
}

abbrev formatting : Opts
formatting = record opts { format_bdev = true }

-- A creation on a formatted base bdev: the last call fails.
abbrev late_failure : List Event
late_failure =
    ready (pos 0) ∷ created 6 (pos 0) ∷ snapshotted (pos 0) ∷ opened (some 6) (neg eio) ∷ []

run_create-Ensures_example : Ensures (run_create answers get_id (some formatting) late_failure)
run_create-Ensures_example =
    run_create-Ensures answers get_id formatting late_failure (λ e. absurd (omega (arith, e)))
      (λ id. refl) tt

-- A request of a name, an image and a base bdev alone.
abbrev decode : RpcConstructUbi → Option RpcConstructUbi
decode req = some (record req {
  name = some (110 ∷ []);
  image_path = some (105 ∷ []);
  base_bdev_name = some (98 ∷ []);
})

rpc_bdev_ubi_create-Agrees_example : Agrees (rpc_bdev_ubi_create answers get_id decode late_failure)
rpc_bdev_ubi_create-Agrees_example =
    rpc_bdev_ubi_create-Agrees answers get_id decode late_failure (λ e. absurd (omega (arith, e)))
      (λ id. refl) tt

-- The bdev after a creation that loads the blobstore.
abbrev bdev : UbiBdev
bdev = record {
  name = 110 ∷ [];
  blocklen = 512;
  blockcnt = 2048;
  optimal_io_boundary = 8;
  image_path = 105 ∷ [];
  snapshot_path = [];
  alignment_bytes = 4096;
  no_sync = false;
  directio = false;
  blobstore = true;
  blobid = 6;
  blob = some 6;
}

abbrev created_state : State
created_state = record {
  ubi_bdev = some bdev;
  registerd = true;
  format_bdev = false;
  pending = idle;
  io_device = true;
  bdev_registered = true;
  listed = true;
  closing = open_or_closed;
  replies = pos 0 ∷ [];
  context_frees = 1;
}

abbrev load_events : List Event
load_events = ready (pos 0) ∷ opened (some 6) (pos 0) ∷ []

created_state-run : run_create answers get_id (some opts) load_events ≡ done created_state
unfolding run_create create new_bdev with_base deliver bs_init_complete blob_open_complete
    finish_create
created_state-run = refl

abbrev image_answers : CreateAnswers
image_answers = record {
  allocated = true;
  stat_size = some 8192;
  open_rc = neg 1;
  file = record { bytes = λ a. 0; size = 0 };
  read_rc = pos 0;
}

abbrev image_device : BsDevUring
image_device = record {
  blockcnt = 16;
  blocklen = 512;
  filename = 105 ∷ [];
  snapshot_path = [];
  cluster_map = λ i. 0;
  directio = false;
  lba_to_cluster_shift = 3;
  lba_offset_mask = 7;
  lba_to_addr_shift = 9;
}

image_device-made : esnap_dev_create log2 image_answers bdev 4096 ≡ done (pos 0, some image_device)
unfolding esnap_dev_create Uring.Create.create
image_device-made = refl

esnap-o_rdonly_example : open_flags image_device ≡ o_rdonly
esnap-o_rdonly_example =
    esnap-o_rdonly answers get_id (some opts) load_events created_state bdev log2 image_answers 4096
      image_device created_state-run refl image_device-made

destruct_orders_example :
    (run (destruct (alive bdev)) (blob_closed (pos 0) ∷ unloaded (neg eio) ∷ unregistered ∷ [])
      ≡ done (destroyed bdev))
    × (run (destruct (alive bdev)) (blob_closed (pos 0) ∷ unregistered ∷ unloaded (neg eio) ∷ [])
        ≡ fault)
    × (run (destruct (alive bdev)) (unregistered ∷ blob_closed (pos 0) ∷ unloaded (neg eio) ∷ [])
        ≡ fault)
destruct_orders_example = destruct_orders bdev 6 (pos 0) (neg eio) refl refl

request_status_example : answer (submit_request Request.unmap 0 8) (pos 0) ≡ failed
unfolding Request.io_type_supported
request_status_example = request_status Request.unmap 0 8 (pos 0)

abbrev nothing_held : Held
nothing_held = record { pollers = 0; bs_channels = 0 }

open_and_close_lem_example :
    open_and_close false nothing_held ≡ record { pollers = 1; bs_channels = 0 }
open_and_close_lem_example = open_and_close_lem false nothing_held

esnap-IsDone_example : IsDone (esnap_dev_create log2 image_answers bdev 4096)
esnap-IsDone_example =
    esnap-IsDone answers get_id (some opts) load_events created_state bdev log2 image_answers 4096
      created_state-run refl refl (λ e. absurd (omega (arith, e))) (omega arith)

run_create-Finished_example : Finished (
    run_create answers get_id
      (some formatting)
      (completions true (pos 0) 6 (pos 0) (neg eio) 6 (pos 0)))
run_create-Finished_example =
    run_create-Finished answers get_id formatting (pos 0) 6 (pos 0) (neg eio) 6 (pos 0)
      (λ e. absurd (omega (arith, e))) (λ id. refl)
