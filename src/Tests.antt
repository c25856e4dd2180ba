-- ===== src/Tests.antt =====
-- The theorems at concrete inputs.
mod Frames
mod Lists
mod Web
mod Runs
mod Tasks
mod Strings
mod Device
mod Cloud
mod Client
mod Flash
mod Pages
