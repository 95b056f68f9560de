-- ===== src/Tests.antt =====
-- Runs of the model on concrete inputs.
pub mod Schedulers
pub mod Stalls
pub mod Threads
pub mod Configs
pub mod System
pub mod Forwards
pub mod Turns
pub mod Strangers
pub mod Routes
pub mod Answers
pub mod Packets
