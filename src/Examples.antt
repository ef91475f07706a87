-- ===== src/Examples.antt =====
-- Runs of the theorems at concrete inputs.
mod Pools
mod Objects
mod Lists
mod Tasks
mod Devices
mod Texts
mod Commands
mod Programs
mod Runs
