-- ===== src/Tests.antt =====
-- The theorems at concrete inputs, and runs of the code.
mod Wire
mod Rpc
mod Ota
mod Entity
mod Switch
mod Board
mod Api
mod Network
mod Update
mod Contract
mod Bridge
mod Frames
