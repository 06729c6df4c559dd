-- ===== src/Dd/Accepted.antt =====
-- What dd_run of src/app/spdk_dd.c leaves to its last loop when it does not return before it. Models no
-- code of its own.
pub mod Attempts
pub mod Quiet
pub mod Sized
pub mod Outputs
pub mod Units
