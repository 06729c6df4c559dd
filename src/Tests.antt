-- ===== src/Tests.antt =====
-- Runs of the model at concrete inputs, and the theorems applied to them. Models no code.
mod Files
mod Reads
mod Snapshots
mod Bdevs
mod Copies
mod Options
mod Configs
