-- ===== src/Lib.antt =====
-- A model of the ubi bdev of SPDK: block devices over an image file, whose clusters are copied on
-- write into a blobstore, and whose snapshots are files that a later bdev can start from.
--
-- The parts, and the files that model them:
-- - src/lib/spdk_bs_dev_delta.c, the device that a shallow copy writes: Delta.antt has the structs,
--   bs_dev_delta_create (`create`) and bs_dev_delta_write (`write`), Delta/Channel.antt the callbacks
--   of a channel and ubi_read_cluster_map, Delta/Ops.antt the operations besides `write`.
--   Delta/Layout.antt and Delta/Stored.antt have the file's layout and what a run leaves in it,
--   Delta/Loaded.antt what is found in a file's map, Delta/Failures.antt the paths of a write, and
--   Delta/Descriptors.antt what is opened and closed.
-- - src/lib/spdk_bs_dev_uring.c, the read-only device over the image and such a file: Uring.antt has
--   the structs and `set_io_opts`, Uring/Create.antt bs_dev_uring_create, Uring/Ops.antt the
--   operations, Uring/Channel.antt the callbacks of a channel. The proofs are in Uring/Address.antt,
--   Uring/Reads.antt, Uring/Requests.antt and Uring/Descriptors.antt.
-- - The pollers of both devices share their loop, which is in Ring.antt.
-- - Restore.antt composes both devices: clusters are written to a file, and a byte is read through a
--   new device over it.
-- - src/lib/bdev_ubi_snapshot.c, a chain of asynchronous calls that makes a snapshot: Snapshot.antt
--   has one function for each callback, on a state that holds the bdev's snapshot_status, the context
--   and the call in flight. Snapshot/Run.antt has the blobstore's side.
-- - src/lib/bdev_ubi.c: Bdev.antt has the bdev, Bdev/Create.antt bdev_ubi_create with its callbacks and
--   ubi_finish_create, Bdev/Create/Flow.antt the blobstore's side of it, Bdev/Destruct.antt
--   ubi_destruct, and Bdev/Request.antt the I/O path and ubi_esnap_dev_create.
-- - src/lib/bdev_ubi_io_channel.c: IoChannel.antt.
-- - src/lib/bdev_ubi_rpc.c, the JSON-RPC methods over the others: Rpc.antt. Rpc/Config.antt has the table
--   of decoders of bdev_ubi_create, and ubi_write_config_json of src/lib/bdev_ubi.c, which has to fit it.
-- - src/app/spdk_dd.c, the program that copies between files and bdevs: Dd.antt has the structs,
--   Dd/Copy.antt the chain of populate, read and write, Dd/Seek.antt the search in sparse inputs,
--   Dd/Events.antt the pollers and callbacks, Dd/Flags.antt and Dd/Setup.antt the options, and
--   Dd/Prepare.antt dd_run, Dd/Uring.antt what is registered with io_uring and submitted to it,
--   and Dd/Progress.antt the line of dd_show_progress. The proofs: Dd/Invariant.antt and its
--   children have the invariant of a copy, Dd/Run.antt what it gives for every order of
--   completions, Dd/Accepted.antt, Dd/Whole.antt and Dd/Inside.antt follow dd_run, Dd/Checks.antt
--   has main's checks, Dd/Drains.antt and Dd/Stop.antt the end after an error, Dd/Closed.antt and
--   its children what dd_exit closes, Dd/Hangs.antt, Dd/Holes.antt and Dd/Partial.antt the runs
--   that go wrong, Dd/Names.antt the flags.
-- - include/bdev_ubi.h and include/bdev_ubi_internal.h: their structs stand with the code that uses
--   them.
--
-- How the model stands to the code. A C function is a function of the state before, and of the answers
-- that the kernel, liburing or SPDK give to its calls; its result is the state after. Undefined
-- behaviour that the code does not exclude (a NULL that is used, a division by 0, an index or a copy
-- out of range, a signed overflow) is `fault` of Common/Outcome.antt, and `undefined` in the steps of
-- dd_run. Asynchronous calls are a field of the state that
-- names the callback in flight; a list of events runs the callbacks in any order and with any results,
-- and an event whose call is not in flight changes nothing. Posix.antt has files, descriptions and the
-- log of calls, Posix/Words.antt arrays of uint64_t in memory. Unsigned integers are natural numbers
-- with the wrap-around written out where the code can reach it; return codes are the integers of
-- Common/Int.antt.
--
-- Bounds: runs are by recursion on the list of events or of writes, so there is no fuel; the
-- loop of dd_show_progress has the four steps that the code leaves it. MAX_CLUSTERS is 2 ^ 26, so a cluster map takes 2 ^ 29 bytes. Paths have at most 1023 characters and the NUL.
--
-- Not modelled: log lines, the module's table, the decoder tables of the other methods, wrappers
-- that only pass a device to SPDK, src/app/vhost_ubi.c (a main function), the programs under
-- src/test, and of src/app/spdk_dd.c dd_free, the names of files and bdevs, and the registration
-- of pollers. spdk_u64log2, spdk_blob_get_id, SPDK_CEIL_DIV and the decoder of RPC parameters are
-- parameters; a bdev and the kernel move the bytes that a completion reports, at the position that
-- was asked for: the writes of spdk_dd to a file that is opened with O_APPEND are not modelled. lseek may
-- answer anything at any time, also for a descriptor that is closed. The devices run on
-- one thread.
pub mod Common
pub mod Posix
pub mod Ring
pub mod Delta
pub mod Uring
pub mod Restore
pub mod Snapshot
pub mod Bdev
pub mod IoChannel
pub mod Rpc
pub mod Dd
pub mod Tests
