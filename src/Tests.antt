-- ===== src/Tests.antt =====
-- Runs of the model on concrete inputs, and the theorems at concrete data.
mod Lines
mod Runs
mod Backends
mod Devices
mod Groups
mod Unrolled
