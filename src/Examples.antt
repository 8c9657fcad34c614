-- ===== src/Examples.antt =====
-- The theorems applied to small states.
mod Codecs
mod Addresses
mod Control
mod Ids
mod Batch
mod Pool
mod Polling
mod Subscription
mod Registry
mod Network
mod Timing
mod Keys
