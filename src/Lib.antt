-- ===== src/Lib.antt =====
-- go-dispatch runs cron jobs on a group of nodes so that each activation of a job runs on one of
-- them. Every node has a scheduler (cron), which starts the jobs, and a node pool (nodepool), which
-- knows the nodes alive from its driver and keeps them on a consistent hash ring (consistenthash).
-- Before a job runs, the node asks its pool whether it is the host of the job's name.
--
-- The files and the code they model:
--   Points      consistenthash/consistenthash.go: search and delSlice, the binary searches.
--   Ring        consistenthash/consistenthash.go: the ring, its loads and the choice of a host. The
--               record Consistent is the struct; the maps are association lists, which the theorems
--               take to hold each key once. The children prove, of Add and Remove, of Get
--               (Ring/Owner), of GetLeast (Ring/Least) and of the loads (Ring/Loads). Ring/Complete
--               is a ring that has every point of its hosts, Ring/Canonical what two such rings
--               share, and Ring/Edits is on any sequence of calls of Add and Remove. Ring/Wip is
--               GetLeastv2wip.
--   NodePool    nodepool/nodepool.go: updateHashRing, diffNodes, GetHost, IsEligible,
--               DecreaseLoadByKey, ResetLoads; in NodePool/Life the rounds of waitingForHashRing,
--               Stop, and Start up to its wait for the steady state, which is in NodePool/Starting.
--               The pointer to the ring is an Option, and a call that changes the ring gives the
--               pool with the new one. NodePool/Complete and NodePool/Converging follow a pool
--               until it comes to rest, and NodePool/Serving until Start returns. NodePool/Counting
--               is on IsEligible in the mode that counts loads, with Ring/Bounded.
--   Fields      cron/parser.go and cron/spec.go: getField, getRange, getBits and the bounds.
--   Parser      cron/parser.go: Parse, normalizeFields, parseDescriptor; Parser/Standard
--               ParseStandard; cron/constantdelay.go: Every, and in Parser/Delay its Next.
--   Calendar    the calendar of the time package, as far as Next uses it.
--   Spec        cron/spec.go: Next, one definition per loop. A `goto WRAP` is the error Jump of a
--               loop.
--   Cron        cron/cron.go and cron/chain.go: the scheduler. `handle` is one case of the `select`
--               of run and the sorting that follows; a client's call on a running scheduler is the
--               message that it sends. Skip and Delay are SkipIfStillRunning and
--               DelayIfStillRunning, as the steps that the calls of one job take, and Recover is
--               that wrapper. Waiting is startJob and the context of Stop, as steps of their
--               goroutines. Setup is cron/option.go and New.
--   Driver      driver: the options, the life of a driver and its beats; Redis is redisdriver.go
--               and ZSet is rediszsetdriver.go. The client of Redis is the parameter Client. Alive
--               and Beating are on histories of beats, where the client keeps the laws SetLaws, or
--               KeyLaws.
--   Dcron       dcron/dcron.go: addJob, Remove and CleanJobs, the table of the named jobs. In Node
--               a node that asks its pool before it runs a job (allowThisNodeRun, Run of
--               job_warpper.go, reRunRecentJobs), with the recent jobs behind the interface of
--               irecentjobpacker.go. Packer is dcron/recentjobpacker.go, over the parameter Heap
--               for container/heap, and Packer/Fills makes it such recent jobs. Setup has the
--               options and the constructors. Share and Cluster are on several nodes that are at
--               rest, and Lives on such nodes from the start of their pools on.
--   Base        shared types and lemmas: lists, maps, sorting, integers, words and texts.
--   Tests       the theorems at concrete inputs.
--
-- A call ends as an Outcome: with a value, with an error that it returns, with a run-time panic, or
-- out of the model's fuel. The binary searches have fuel for one round more than the slice is long,
-- and the loop of GetLeast, which has no bound in the source, has fuel for one round per point,
-- that of GetLeastv2wip for one more: the searches halve the slice, and the loop has seen every
-- point by then. The loops of the packer have fuel for one round more than the heap has jobs. The
-- loops of getBits have fuel for one round for each bit up to the last. The loops of Next have fuel
-- for 12 months, 31 days, 24 hours, 60 minutes and 60 seconds, after which each has met its
-- wrap-around, and Next starts again at most once for each second up to its last year, since each
-- round is later.
--
-- The hash of a key, xxhash, is the parameter `sum64`; the time zones and the durations of the
-- parser are parameters too. The numbers of the source are kept: an int64 load is wrapped (wrap64),
-- a uint64 word is taken modulo 2^64. The averages and bounds of the loads are floats in the
-- source; the model computes them in integers, which is exact for totals below 2^50 and not above.
-- Default loads are in hundredths. Texts are lists of bytes, and the parser's texts are ASCII. An
-- error of the parser carries what its message is about, but not the reason that an error of the
-- standard library adds. A driver's timeout is in nanoseconds, and a key of Redis lives for whole
-- seconds of it, one at least. Where a call reads the clock twice, the model has two readings.
-- Where two rings are compared, the hosts are
-- known ones of which no two replicas share a point (NoCollisions of Ring/Complete): which of two
-- hosts has a shared point depends on the order in which they came. What sort.Sort does with equal
-- entries is left open by Go; the model keeps their order.
--
-- Not modelled: zones whose offset changes; when the ticker of a driver ticks; the locks, each call
-- being one step; when waitingForHashRing receives the message of Stop, which `stop_chan` counts;
-- what the jobs of the scheduler do, of which its `started` holds the calls; the loggers and the
-- examples.
pub mod Base
pub mod Points
pub mod Ring
pub mod NodePool
pub mod Fields
pub mod Calendar
pub mod Spec
pub mod Parser
pub mod Cron
pub mod Dcron
pub mod Tests
pub mod Driver
