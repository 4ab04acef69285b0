-- ===== src/Tests.antt =====
-- Runs of the model at fixed inputs, and the theorems at inputs that meet their hypotheses.
mod Util
mod Source
mod Message
mod Neighbour
mod Resend
mod Route
mod Consider
mod Config
mod Receive
mod Kernel
mod Request
