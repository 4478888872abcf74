-- ===== src/Tests.antt =====
-- Concrete inputs: a run of each component, and the theorems applied at an input.
mod Requests
mod Blocks
mod Queues
mod Stops
mod Steps
mod Replies
mod Drafts
mod Transfers
mod Schedulers
mod Outputs
mod Counts
mod Handovers
mod Heads
mod Verdicts
mod Messages
mod Clients
mod Workers
mod Batches
