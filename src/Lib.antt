-- ===== src/Lib.antt =====
-- The core of the aleph indexer framework: the parts of packages/core and packages/framework
-- that keep the state of an indexer and decide what is fetched, saved and merged. Each part is
-- a module.
--
-- Time: packages/framework/src/utils/time.ts. Time.Range has `DateRange`; Time.Merge is
--   `mergeDateRangesFromIterable`, as a fold of one step (merge_step) over the ranges that are
--   read, and the code after the loop (merge_end); Time.Clip is `clipDateRanges` (clip_entry
--   for one round of its loop) and `clipDateRangesFromIterable`, on a table with the decimal
--   texts of the dates as keys (Time.Decimal). The indexer saves the new ranges of a merge and
--   deletes the old ones.
-- Fetcher: `BaseHistoryFetcher` of
--   packages/framework/src/services/fetcher/src/baseHistoryFetcher.ts. Fetcher.History has its
--   state and options, Fetcher.History.Job one run of a job (`_runJob` is run_job, a round of
--   it run_round), Fetcher.History.Query the queries. What `handleFetch` answers, and the
--   functions of the options, are given. Each run of a job is one step of Runs, in which the
--   two jobs come in any order. Fetcher.Entities is the entityFetcher.ts of the fetcher
--   service, whose handlers are those of three pools of Jobs.Pool.
-- Jobs: `JobRunner` of packages/core/src/utils/concurrence/jobRunner.ts, which calls
--   `_runJob`. The ticks of a run say how the calls end, how long they take and whether
--   somebody stops the runner. Jobs.Debounced and Jobs.Mutex are `DebouncedJob` and `Mutex` of
--   utils/concurrence/common.ts; Jobs.Pool is `PendingWorkPool` of
--   utils/concurrence/pendingWork.ts (`runJob` is run_job, the generator of its chunks
--   run_chunks), for which the handler and what it sees of the outside are parameters.
-- Indexer: packages/framework/src/services/indexer/src. Indexer.Requests is the
--   entityFetcher.ts of the indexer with its stores in dal (the checks of the stores are
--   check_pending and check_response), on top of Storage.Entity; Indexer.Requests.Runs has its
--   handlers as steps in any order. Indexer.Account is accountEntityIndexer.ts: the states of
--   the ranges of an account (Account.Rows), the ranges that it requests (Account.Fetch,
--   Account.Rounds), on top of Time.Clip, their processing (Account.Process) and the
--   compaction (Account.Compaction), on top of Time.Merge.
-- Storage: `EntityStorage` of packages/core/src/storage/entityStorage.ts, with `save` and
--   `remove` of entityIndexStorage.ts, over the main sublevel. Storage.Entity.Count is about
--   its count; Storage.Keys has the keys of an entity (`getAllSubkeysStartingFrom`,
--   `getKeyChunk`).
-- RateLimit: packages/core/src/utils/ratelimit. RateLimit.Accurate and RateLimit.Sparse are
--   the two limits over time, RateLimit.Limiter is the interface with the limit on
--   concurrence, `ComposeRateLimit` and `RateLimitClient`.
-- Stream: packages/core/src/utils/stream.ts, storage/utils.ts and `BufferExec` of
--   utils/concurrence/common.ts. Stream.Merge is `mergeShuffledSortedStreams`, Stream.Shuffle
--   `mergeShuffledStreams`, Stream.Buffer are the buffers and the backup of a store.
-- Common: the list helpers of packages/core/src/utils/common.ts, and `NonceTimestamp` of
--   packages/framework/src/services/indexer/src/nonce.ts.
-- Prelude: what the modules share.
--
-- Numbers are natural numbers; milliseconds, weights and dates are whole and small enough for
-- the numbers of the source to be exact, and the rounding of fractions is not modelled beyond
-- the hundredths of RateLimit.Sparse, of which a timer leaves out those beyond whole
-- milliseconds. Where a subtraction could be negative, the comment at the definition says why
-- it is not, or what the code does there.
--
-- Six loops are on fuel. `_runJob` calls itself once at most, so 2 is enough; the merge of
-- streams makes at most one round more than there are values; the rounds over shuffled streams
-- are at most the calls that the iterators get; the loop of `drain` makes at most as many
-- rounds as there are items. A run of a pool has one round more than works at most, where the
-- size of its chunks is not 0 (at 0 it does not end), and the rounds of requests of an account
-- are at most the milliseconds of its history. The loop of retries of the entity fetcher need
-- not end, and what is stated of it holds for all fuel. The rounds of
-- `RateLimitClient.acquire` and of `JobRunner.run` depend on the outside, and are given as
-- lists.
--
-- Not modelled: the interleavings inside an operation (an operation is one step), the
-- secondary indexes of the entity storage, the start and stop of the jobs of a fetcher, the
-- pool of fetchers, works that arrive during a run of a pool, the states of the entities that
-- the indexer asks the fetcher for, the packages for the single blockchains but for the
-- filters by date, and what only calls libraries (LevelDB, moleculer, luxon, the RPC clients).
-- The stores are taken to save and read without errors, and the order of their keys is given
-- by LevelDB; a save of a row puts it in its place by key.
pub mod Prelude
pub mod Common
pub mod Jobs
pub mod Fetcher
pub mod Indexer
pub mod RateLimit
pub mod Storage
pub mod Stream
pub mod Time
