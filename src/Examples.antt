-- ===== src/Examples.antt =====
-- Runs on concrete inputs, and each theorem at an input that meets its conditions.
mod Order
mod BaseCase
mod Config
mod Classifier
mod Sampling
mod StateMachine
mod LocalClassification
mod BucketPointers
mod Scheduler
mod Synchronization
mod Sequential
mod BlockPermutation
mod CleanupMargins
mod Partitioning
mod SequentialSorter
