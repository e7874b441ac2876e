-- ===== src/Examples.antt =====
-- The theorems at concrete inputs, over the libraries in memory.
mod Runs
mod Variants
mod Soundness
mod Api
mod Queue
mod Quota
mod Willing
mod Cached
mod Limits
mod Threads
mod Identity
mod Changes
mod Drained
mod Stuck
mod Order
mod Pool
mod Delivery
mod Metrics
mod Settings
mod Errors
