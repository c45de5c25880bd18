-- ===== src/Lib.antt =====
-- A verification library for puls-engine, the scheduler of a cluster that serves language models.
--
-- The program's parts and the files that model them (paths from the repository's root):
--   puls-engine/core/spec.h, core/operating_point.h      OperatingPoint
--   puls-engine/core/steering.cpp                        Steering (Decode, Prefill, Age)
--   puls-engine/core/request_source.h                    RequestSource
--   puls-engine/core/node_scheduler.cpp                  Node (Defs)
--   puls-engine/runtime/runtime.cpp                      Runtime (Defs, Demo)
--   puls-engine/scheduler/request.h, queue.cpp           Queue (Defs)
--   puls-engine/scheduler/cache.cpp                      Cache (Defs)
--   puls-engine/core/global_scheduler.cpp                Cluster (Defs, Onpoint)
--   puls-engine/core/optime.cpp                          Optime
--   puls-engine/core/derive.cpp                          Derive (Defs)
--   puls-engine/scheduler/preposition.cpp                Sim (Preposition)
--   puls-engine/sim/prepo.cpp                            Sim (Preposition, Ttft, Prepo)
--   puls-engine/sim/baseline.cpp                         Sim (Baseline, Pools)
--   puls-engine/sim/lifecycle.cpp                        Sim (Lifecycle)
--   puls-engine/sim/csched.cpp                           Sim (Csched)
--   puls-engine/sim/harness.h                            Sim (Harness, Pending, Settings)
--   puls-engine/sim/sim.cpp                              Cluster (Measure), Sim (Churn)
--   puls-engine/sim/metrics.h, kpi.h                     Sim (Metrics, Kpi)
--   puls-engine/core/workload.cpp, sim/workload_mt.cpp   Sim (Workload)
--   puls-engine/analysis/efficiency.cpp                  Analysis (Efficiency)
--   puls-engine/analysis/max_model.cpp                   Analysis (MaxModel)
-- Functions keep their names in the source's spelling. `Double` holds what the code does with a
-- `double`, a parameter of every model; `Scan` is the loop that selects a best candidate, which the
-- steering, the queues, the cache and the cold start share. `Prelude` has the shared helpers, and
-- `Examples` the runs on concrete inputs.
--
-- How the parts interact: a node composes its batches by `steer_decode_set`, two of them over one list
-- of `used` marks, and refills its pool from a `RequestSource`, which the runtime's queue implements
-- (`queue_source`). The global scheduler gates a draw of lengths, places it on nodes and heals them
-- from the same interface. The simulations share the global queue, the cache and the books: a refill
-- pulls from the queue by the composer's ideal and books each admission through the cache.
--
-- Numbers: counts, lengths, rounds and byte counts are natural numbers of any size, so overflow of
-- `int` and `long long` is outside the model; differences that may be negative are integers. A
-- `double` is a value of any type with the operations of `Double`; a theorem that needs more assumes
-- `IsOrdered`, that `<` is irreflexive and transitive, which IEEE 754 grants, or for the
-- bisections `IsHalving`, that a midpoint halves a gap up to one unit of rounding. A negative index, id or
-- prompt that stands for nothing is `none`, and the start value -1 of a running maximum is `none`.
--
-- Loops: the steering loops recur on the picks or tokens left, which the source counts up; a scan
-- recurs on the pool. `enforce_budget` has as fuel the number of entries, enough since each pass
-- takes an entry out of HBM. `warm_fill` has the source's own guard as its fuel, and
-- the bisections the source's 200 and 24 rounds. A refill has `decode_count_target` as fuel, enough
-- since each pass fills a slot. `gated_sample` draws until a sample is inside, which no bound
-- ensures: its fuel is an argument. A spill has the length of the list as fuel.
-- The main loops of the drivers recur on the rounds left. A node of the lifecycle takes as many finished
-- prefills as are waiting at most, and the cold starts fill a pool by as many passes as it has free
-- slots. The boundary sweep has the source's 4000 steps.
--
-- The state: `used` marks, pools and indices are passed in and returned. The hash map of the cache is
-- an association list, its arrays by node are functions. `std::sort` is an insertion sort, which
-- agrees with it on numbers, and `std::shuffle` is a parameter.
--
-- Not modelled: printing and the tables of settings that `main` of the drivers and of the analysis
-- programs go through, the command lines, the random generators and the sampler of lengths (a
-- parameter), the tests, and the hardware under rtl.
pub mod Prelude
pub mod Double
pub mod Scan
pub mod OperatingPoint
pub mod Steering
pub mod RequestSource
pub mod Node
pub mod Runtime
pub mod Queue
pub mod Cache
pub mod Cluster
pub mod Optime
pub mod Derive
pub mod Sim
pub mod Examples
pub mod Analysis
