-- ===== src/Tests.antt =====
-- The theorems at concrete inputs, and runs of the code.
mod Devices
mod Blocks
mod Directories
mod Files
mod Contents
mod Daemon
