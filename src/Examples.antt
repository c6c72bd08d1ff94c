-- ===== src/Examples.antt =====
-- Runs of the models on concrete inputs.
mod Wire
mod Sessions
mod Dialing
mod Accepting
mod Ending
mod Timing
mod Finality
mod Connections
mod Secure
