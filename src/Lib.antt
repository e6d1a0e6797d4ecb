-- ===== src/Lib.antt =====
-- ocis-cli, the command-line client of ownCloud Infinite Scale: a model of its synchronization core
-- (internal/sync), of the runs that carry a plan out (internal/app/sync), of the pool of goroutines
-- behind recursive transfers (internal/transfer), of the reader of server events
-- (internal/eventstream), and of the delays between attempts (internal/retry), with theorems.
--
-- The program. A synchronization run takes a snapshot of a local and of a remote tree, which are
-- maps from relative paths to fingerprints (`Entry`), filters both by include and exclude patterns,
-- and plans one action for each path. `Build` plans a push or a pull from one tree to the other,
-- and `BuildBidirectional` reconciles two trees through the baseline saved by the last run. The
-- services of internal/app/sync carry the plan out and save a new state; a named job runs a stored
-- request, and a journal that an interrupted run left is retried or removed. A recursive transfer
-- collects its tasks first and runs them on a pool of goroutines.
--
-- The files, and the code that they model.
--   Base            helpers: numbers of 64 bits, texts, sorting, maps, sets, results.
--   GoPath          `path.Dir`, `path.Base` and `path.Clean` on slash-separated names, and the loop
--                   over the parents of a name.
--   Sync/Platform   what the planner takes from libraries, as parameters: Unicode case folding and
--                   normalization, RFC 3339 parsing, and `path.Match`.
--   Sync/Errors     the directions, and the errors that the planners return.
--   Sync/Entry      internal/sync/model.go: `Entry`, `Equal`, `Converged`, `timestampsEquivalent`.
--   Sync/Pattern    internal/sync/model.go: `Filter`, `NormalizePatterns`, `excluded`, `matchesAny`.
--   Sync/State      internal/sync/model.go: `Binding`, `State`, `NewState`, `unionPaths`.
--   Sync/Action     internal/sync/model.go: `Action`, `Plan`, `sortActions`, and the counters.
--   Sync/OneWay     internal/sync/model.go: `Build` and `planPath`.
--   Sync/Identity   internal/sync/path_identity.go: `ValidatePathIdentity`.
--   Sync/TwoWay     internal/sync/bidirectional.go: `BuildBidirectional`; Paths plans one path,
--                   Subtrees protects changed directories, Moves finds renames.
--   Run/Trees       internal/app/sync: the calls that change a tree, and the world as a parameter.
--   Run/Names       internal/app/sync/service.go and helpers.go: `syncLocalPath`, `syncRemotePath`.
--   Run/Verify      internal/app/sync/service.go: `verifyRemoteSyncEntry`, `verifyLocalSyncEntry`.
--   Run/Apply       internal/app/sync/service.go: `applySyncPlan`, `applySyncAction`.
--   Run/Plans, Run/Frame   the theorems about carrying a plan out.
--   Run/Journal     internal/app/sync/bidirectional.go: `applyBidirectionalSyncPlan`, and the journal
--                   of internal/syncrecovery/store.go.
--   Run/Difference  internal/app/sync/bidirectional.go: `firstSyncSnapshotDifference`.
--   Run/Conflicts   internal/app/sync/conflict.go: `resolveBidirectionalConflicts`; Outcomes says
--                   what becomes of an action.
--   Run/Request     internal/app/sync/service.go: `validateSyncRequest`, `prepareSyncRequest`.
--   Run/Snapshots   internal/app/sync/service.go: `snapshotLocal`, `snapshotRemote`.
--   Run/Session     internal/app/sync: `runPreparedSync` and `runPreparedBidirectionalSync`; Collect
--                   reads the trees, OneWay and TwoWay are the runs, Kept, Laws and Dry the theorems.
--   Run/Ids         internal/app/sync/state.go: `resolveSyncStateID`, `uniqueSyncStateID`,
--                   `removeSyncState`; internal/syncstate/store.go: `Keys`.
--   Run/Jobs        internal/app/sync/job.go and internal/syncjob/store.go: named jobs; Store holds
--                   the document and its checks, Commands the commands, Laws and Guards theorems.
--   Run/Recovery    internal/app/sync/recovery.go: retrying and removing a journal.
--   Retry           internal/retry/retry.go: `After`, `Delay`.
--   Transfer/Pool   internal/transfer/transfer.go: `runTasks` as steps; Counts, Signals, Bytes,
--                   Settled and Sums hold what every interleaving keeps, Weight and Ends that it
--                   ends, Results what it returns.
--   Transfer/Gather internal/transfer/transfer.go: `collectDownloads`, `SafeLocalChild`.
--   EventStream     internal/eventstream/client.go: `decode`, with `bufio.Scanner` as a parameter;
--                   Bounds for the size of an event, Lines and RoundTrip for reading back what a
--                   server writes.
-- A child module named Laws, or for what it proves, holds the theorems about its parent, and Tests
-- holds runs on small trees.
--
-- How state and operations correspond. A Go map is a list of pairs that is read by its first entry
-- of a key, and a loop over a map runs over the list. The planners change no state but their own
-- slices, which are lists here; an assignment to `actions[i]` is a function on the list. Errors are
-- values of a result type, and the panic of `planPath` on a path of neither tree is one of them.
-- `int64` is an integer with the wrap-around written out. Texts are sequences of characters: names
-- that are no valid UTF-8 are outside the model, and the order of texts is by code points, which for
-- UTF-8 is Go's order of bytes. Times are nanoseconds since a fixed instant, as natural numbers.
--
-- The goroutines of a transfer share one state, and each step of one of them is a constructor of a
-- relation on it; a theorem about all reachable states holds for every interleaving. A task's `run`
-- ends with no error or with one, and a goroutine whose `run` failed stands at the `select` on the
-- channel of errors until a step takes it on.
--
-- The planners see the two trees that the patterns leave, and the theorems about plans are about
-- these: what the patterns leave out is in no theorem. Tests/TwoWay and Tests/OneWay have plans that
-- remove a directory with content which the patterns leave out.
--
-- A run of a plan, of a job or of a recovery passes on a world, of which the network, the file
-- system and the stores of states, jobs and recovery journals are parameters; what it returns is the
-- world it leaves and its error.
--
-- Fuel. The loop over the parents of a name runs on fuel, one more round than the name has
-- components, which is enough since each round drops one. The loop of `uniqueSyncStateID` has as
-- many rounds as the key has bytes left, as in the code. All other loops are recursion on lists.
--
-- Not modelled. `Binding.Key` and SHA-256 (hashes), and the JSON form of the records. The walks of
-- the two trees are read as data: what the file system and the server answer to one scan.
-- `sort.Slice` keeps no order of equal elements, where the model's sort keeps the given one. The
-- walk of an upload, the network clients, the stores on disk, and the command line are left out:
-- they are I/O around the parts above, or not yet translated. Texts of errors are left out but for
-- the names in them, and so is the output of a run.
pub mod Base
pub mod GoPath
pub mod Sync
pub mod Run
pub mod Transfer
pub mod EventStream
pub mod Retry
mod Tests
