-- ===== src/Lib.antt =====
-- The in-place (parallel) super scalar samplesort, ips4o. A sorter draws a random sample of a range,
-- sorts it, builds a decision tree from splitters picked out of it, moves each element to the bucket
-- that the tree gives, and recurs into the buckets; small ranges are sorted by insertion. The library
-- under include/ips4o does this in place, in blocks, sequentially or with several threads;
-- ips4o_state_machine.hpp is a second sorter, for one thread, that keeps a stack of tasks in place of
-- the recursion and copies the buckets.
--
-- Which file models what (the children of a module hold its proofs):
-- - BaseCase: include/ips4o/base_case.hpp, `insertionSort`, `baseCaseSort` and `sortSimpleCases`. Both
--   sorters call these; in the state machine they stand once more as text of its handlers.
-- - Config: include/ips4o/config.hpp, the parameters and the sizes computed from them, and `log2` of
--   include/ips4o/utils.hpp.
-- - Classifier: include/ips4o/classifier.hpp, `build` and the classification of one element and of a
--   range in unrolled rounds.
-- - Sampling: include/ips4o/sampling.hpp, `selectSample`, and `buildClassifier` from the sorted sample
--   on. It calls Config for the number of buckets and Classifier for the tree.
-- - LocalClassification: include/ips4o/local_classification.hpp, `classifyLocally` over the buffers of
--   include/ips4o/buffers.hpp, and `sequentialClassification`, which sets the pointers of BucketPointers.
-- - BucketPointers: include/ips4o/bucket_pointers.hpp, the packed pair of pointers and its two variants.
-- - BlockPermutation: include/ips4o/block_permutation.hpp, `computeOverflowBucket` and `permuteBlocks` for
--   one thread, on the pointers of BucketPointers and, in Composed, on what LocalClassification leaves.
-- - CleanupMargins: include/ips4o/cleanup_margins.hpp, `saveMargins` and `writeMargins`.
-- - Partitioning: include/ips4o/partitioning.hpp, `partition` by one thread behind `buildClassifier`, which
--   runs LocalClassification, BlockPermutation and CleanupMargins one after the other.
-- - Sequential: include/ips4o/sequential.hpp, what follows a partition: the ranges of the recursion, and
--   the tasks (include/ips4o/task.hpp) that go to the queue of Scheduler.
-- - SequentialSorter: include/ips4o/sequential.hpp, `sequential`, `sequential_rec` and `SequentialSorter`.
--   `buildClassifier` sorts its sample by `sequential`, so the whole of it, and of `partition`, stands here,
--   with the recursive call as a parameter, on the parts in Sampling and Partitioning. What a call leaves for
--   the next one is the `LocalData` of include/ips4o/memory.hpp.
-- - Scheduler: include/ips4o/scheduler.hpp, `PrivateQueue` as a structure, and `getJob`, `offerJob` and
--   `addJob` as steps of threads that interleave.
-- - Synchronization: include/ips4o/synchronization.hpp, `barrier` as steps of threads that interleave.
-- - StateMachine: ips4o_state_machine.hpp, each `handle_*` and the loop of `run`.
-- - Prelude: what the modules share. Examples: runs on concrete inputs.
--
-- Elements are of any type, and the comparator is a function to the Booleans; where a theorem needs it to
-- be a strict weak order, it says so. Iterators are indices, arrays are lists (the storages of a fixed
-- size functions from the index; where the classifier is built, their size is compared), and `none` is undefined behaviour, mostly an access outside of a range,
-- so a result `some` says that there is none. Objects are values: moving from one leaves a copy, and
-- construction and destruction in raw storage are not seen. Sizes are numbers; where a width matters
-- (`log2`, the bucket pointers) the bound or the wrap-around is written out. The random generator is a
-- parameter, of which only the range of a draw is known. The concurrent queue is a list with a push at the
-- back and a pop at the front, which are atomic. Threads interleave sequentially consistently.
--
-- Fuel: the layout of the decision tree recurs on the height that is left, which is `log_buckets` at
-- the root; the bits of a word are 64; the unrolled rounds take fuel above the length of the range;
-- the loops of the block permutation take fuel above the number of blocks; the sequential sorter takes
-- fuel above the number of elements, since each call is for fewer; the splitters of the state machine
-- are picked with fuel for each element of the sample; `run` takes a number of rounds, and says when
-- it has not come to an end.
--
-- Not modelled: `parallelClassification` and the movement of empty blocks; the block permutation and
-- the partition by several threads; the drivers of the parallel sorter; `single` and `critical` of the
-- barrier; aligned allocation (include/ips4o/memory.hpp); the thread pools and the affinity of
-- threads, which call the operating system; the entry points that choose between the sorters; timers
-- and logs; test.cpp and src/example.cpp.
pub mod Prelude
pub mod BaseCase
pub mod Config
pub mod Classifier
pub mod Sampling
pub mod StateMachine
pub mod LocalClassification
pub mod BucketPointers
pub mod BlockPermutation
pub mod CleanupMargins
pub mod Partitioning
pub mod Scheduler
pub mod Synchronization
pub mod Sequential
pub mod SequentialSorter
mod Examples
