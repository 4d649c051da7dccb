-- ===== src/Examples.antt =====
-- The theorems at concrete inputs.
mod Samples
mod Wire
mod Exchange
mod Client
mod Model
mod Working
mod Interface
mod Saved
mod Screen
mod Panel
mod Cells
mod Desk
mod Threads
