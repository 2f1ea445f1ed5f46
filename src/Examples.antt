-- ===== src/Examples.antt =====
-- Tests of the definitions, and each theorem with hypotheses at a concrete input. `Stub` is a small
-- Lua and a host to run them on.
mod Stub
mod Console
mod Calls
mod Run
mod Scripts
mod Kernels
mod Lifecycle
