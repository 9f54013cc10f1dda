-- ===== src/Tests.antt =====
-- Runs of the program's parts, each at a concrete input.
mod Caching
mod Samples
mod Timing
mod Services
mod Wire
mod Browsing
mod Resolving
