-- ===== src/Tests.antt =====
-- Runs on concrete inputs, and each theorem of the list in Lib.antt at an input that meets its
-- hypotheses.
mod Registries
mod Relays
mod Streams
mod Routes
mod Pushes
mod Capped
mod Bearers
mod Kernels
mod Readers
mod Feeds
mod Deadlines
mod Resumes
mod Shows
