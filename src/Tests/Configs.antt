-- ===== src/Tests/Configs.antt =====
-- A saved configuration, and a decoder of the parameters of bdev_ubi_create.
use bdev_ubi.Common.{◌≡◌, refl, true, false, Option, none, some, List, [], ◌∷◌, if◌then◌else◌}
use bdev_ubi.Common.Outcome.{done}
use bdev_ubi.Bdev.{UbiBdev}
use bdev_ubi.Rpc.{RpcConstructUbi, error, internal_error, rpc_bdev_ubi_create}
use bdev_ubi.Rpc.Config.{
  Key, name_key, image_path_key, base_bdev_key, format_bdev_key, no_sync_key, directio_key,
  snapshot_path_key, stripe_size_kb_key, copy_on_read_key, Value, string_value, bool_value,
  uint32_value, Member, bdev_ubi_create, rpc_construct_ubi_decoders, has_required,
  write_config_json, Requires, saved_config-refused,
}
use bdev_ubi.Tests.Bdevs.{answers, get_id}

-- One field of a request.
abbrev put : Key → Value → RpcConstructUbi → RpcConstructUbi
put name_key (string_value x) req = record req { name = some x }
put image_path_key (string_value x) req = record req { image_path = some x }
put base_bdev_key (string_value x) req = record req { base_bdev_name = some x }
put snapshot_path_key (string_value x) req = record req { snapshot_path = some x }
put format_bdev_key (bool_value x) req = record req { format_bdev = x }
put no_sync_key (bool_value x) req = record req { no_sync = x }
put directio_key (bool_value x) req = record req { directio = x }
put copy_on_read_key (bool_value x) req = record req { copy_on_read = x }
put stripe_size_kb_key (uint32_value x) req = record req { stripe_size_kb = x }
put _ _ req = req

abbrev fill : List Member → RpcConstructUbi → RpcConstructUbi
fill [] req = req
fill (m ∷ ms) req = fill ms (put m.key m.value req)

abbrev decode_params : List Member → RpcConstructUbi → Option RpcConstructUbi
decode_params ms req =
    if has_required rpc_construct_ubi_decoders ms then some (fill ms req) else none

decode_params-Requires : Requires decode_params
decode_params-Requires ms req e = rw e refl

abbrev a_bdev : UbiBdev
a_bdev = record {
  name = 117 ∷ [];
  blocklen = 512;
  blockcnt = 2048;
  optimal_io_boundary = 0;
  image_path = 47 ∷ 105 ∷ [];
  snapshot_path = [];
  alignment_bytes = 4096;
  no_sync = true;
  directio = false;
  blobstore = true;
  blobid = 1;
  blob = some 1;
}

saved_config-refused_example :
    ((write_config_json a_bdev).method ≡ bdev_ubi_create)
    × (rpc_bdev_ubi_create answers get_id (decode_params (write_config_json a_bdev).params) []
        ≡ done (false, error internal_error ∷ []))
saved_config-refused_example =
    saved_config-refused decode_params decode_params-Requires a_bdev answers get_id []
