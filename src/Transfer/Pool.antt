-- ===== src/Transfer/Pool.antt =====
-- internal/transfer/transfer.go: `runTasks`, a pool of goroutines that run the tasks of a transfer,
-- as steps that interleave in any order.
pub mod Counts
pub mod Signals
pub mod Weight
pub mod Ends
pub mod Bytes
pub mod Settled
pub mod Sums
pub mod Results
use ocis_cli.Base.{
  ℕ, suc, ◌<◌, String, Bool, true, false, ◌||◌, List, [], ◌∷◌, ◌++◌, Option, none, some, ◌≡◌,
  if◌then◌else◌,
}
use ocis_cli.Base.{length, ltb, is_some, All}
use ocis_cli.Base.Int.{ℤ, pos, pos_part, sub_ℕ, leb_ℤ, add_64}
use ocis_cli.Base.Seq.{get_elem?, set, replicate}
use ocis_cli.Base.Result.{Result, ok, err}

-- `task`. What `run` does is not under the pool's control: it reports progress and ends, in steps.
pub record Task : Type 0 where
  pub source : String
  pub destination : String
  pub size : ℤ

pub record Progress : Type 0 where
  pub operation : String
  pub source : String
  pub destination : String
  pub completed_bytes : ℤ
  pub total_bytes : ℤ
  pub completed_files : ℕ
  pub total_files : ℕ
  pub started_at : ℕ

-- Where a goroutine stands: it waits for work, runs the task of an index, stands at the channel of
-- errors with the error of that task, has put it there and is about to call `cancel`, or has
-- returned.
pub data Worker (Error : Type 0) : Type 0 where
  waiting : Worker Error
  running : ℕ → Worker Error
  failing : ℕ → Error → Worker Error
  canceling returned : Worker Error

-- The error of a task with its source, or the context's own error.
pub data TransferError (Error : Type 0) : Type 0 where
  task_failed : String → Error → TransferError Error
  context_done : TransferError Error

-- The state of one call of `runTasks`.
pub record Pool (Error : Type 0) : Type 0 where
  -- The index that the send loop sends next, and whether the queue is still open.
  pub next : ℕ
  pub is_open : Bool
  pub workers : List (Worker Error)
  -- `failures`, a channel of one place.
  pub failure : Option (String × Error)
  -- `cancel` was called, or the caller's context has ended.
  pub is_canceled : Bool
  pub is_stopped : Bool
  -- `reportedBytes`: never negative.
  pub reported : List ℕ
  pub completed_bytes : ℤ
  pub completed_files : ℕ
  -- What `options.Progress` was given, the last one first.
  pub shown : List Progress

-- `workers`
unfoldable pub worker_count : ℤ → ℕ → ℕ
worker_count concurrency files =
    if leb_ℤ concurrency (pos 0)
    then (if ltb files 1 then files else 1)
    else if ltb files (pos_part concurrency)
    then files
    else pos_part concurrency

-- `totalBytes`
unfoldable pub total_bytes : List Task → ℤ → ℤ
total_bytes [] total = total
total_bytes (t ∷ later) total = total_bytes later (add_64 total t.size)

abbrev pub or_zero : Option ℕ → ℕ
or_zero none = 0
or_zero (some n) = n

-- The arguments of `runTasks`; `has_progress` is `options.Progress != nil`.
pub record Transfer : Type 0 where
  pub operation : String
  pub tasks : List Task
  pub concurrency : ℤ
  pub has_progress : Bool
  pub started_at : ℕ

module _ {Error : Type 0} (X : Transfer) where
  -- Before the first goroutine runs.
  unfoldable pub start : Pool Error
  unfolding worker_count
  start = record {
    next = 0;
    is_open = true;
    workers = replicate (worker_count X.concurrency (length X.tasks)) waiting;
    failure = none;
    is_canceled = false;
    is_stopped = false;
    reported = replicate (length X.tasks) 0;
    completed_bytes = pos 0;
    completed_files = 0;
    shown = [];
  }

  -- `report`, which holds a lock from its first line to its last.
  unfoldable pub report : ℕ → Task → ℤ → Bool → Pool Error → Pool Error
  unfolding total_bytes
  report index current bytes file_completed p =
      let delta = sub_ℕ (pos_part bytes) (or_zero (get_elem? p.reported index)) in
      let total_completed = add_64 p.completed_bytes delta in
      let files = if file_completed then suc p.completed_files else p.completed_files in
      record p {
        reported = set p.reported index (pos_part bytes);
        completed_bytes = total_completed;
        completed_files = files;
        shown =
            if X.has_progress
            then record {
              operation = X.operation;
              source = current.source;
              destination = current.destination;
              completed_bytes = total_completed;
              total_bytes = total_bytes X.tasks (pos 0);
              completed_files = files;
              total_files = length X.tasks;
              started_at = X.started_at;
            }
              ∷ p.shown
            else p.shown;
      }

  -- The goroutine at a place goes on to a new state.
  abbrev pub becomes : ℕ → Worker Error → Pool Error → Pool Error
  becomes k v p = record p { workers = set p.workers k v }

  -- `<-ctx.Done()` does not block.
  abbrev pub is_done : Pool Error → Bool
  is_done p = p.is_canceled || p.is_stopped

  -- The steps that the pool takes by itself, and the end of a task's `run`.
  pub data Advance (p : Pool Error) : Pool Error → Type 0 where
    -- The send loop hands the next task to a goroutine that waits; the queue has no buffer.
    send :
        (k : ℕ) (t : Task)
        → p.is_open ≡ true
        → get_elem? X.tasks p.next ≡ some t
        → get_elem? p.workers k ≡ some waiting
        → Advance p (becomes k (running p.next) (record p { next = suc p.next }))
    -- `break sendLoop`
    break_off :
        p.is_open ≡ true
        → p.next < length X.tasks
        → is_done p ≡ true
        → Advance p (record p { is_open = false })
    -- The loop ends; the queue is closed.
    close : p.is_open ≡ true → p.next ≡ length X.tasks → Advance p (record p { is_open = false })
    -- `run` returns no error, and the goroutine reports the whole size.
    complete :
        (k i : ℕ) (t : Task)
        → get_elem? p.workers k ≡ some (running i)
        → get_elem? X.tasks i ≡ some t
        → Advance p (becomes k waiting (report i t t.size true p))
    -- `run` returns an error, which leads to the `select`.
    run_fails :
        (k i : ℕ) (e : Error)
        → get_elem? p.workers k ≡ some (running i)
        → Advance p (becomes k (failing i e) p)
    -- `case failures <- …`, which needs a free place.
    fail :
        (k i : ℕ) (t : Task) (e : Error)
        → get_elem? p.workers k ≡ some (failing i e)
        → get_elem? X.tasks i ≡ some t
        → p.failure ≡ none
        → Advance p (becomes k canceling (record p { failure = some (t.source, e) }))
    -- `default`: an error is in the channel already.
    fail_silently :
        (k i : ℕ) (e : Error)
        → get_elem? p.workers k ≡ some (failing i e)
        → is_some p.failure ≡ true
        → Advance p (becomes k returned p)
    cancel :
        (k : ℕ)
        → get_elem? p.workers k ≡ some canceling
        → Advance p (becomes k returned (record p { is_canceled = true }))
    -- The queue is closed, and a goroutine that waits on it returns.
    leave :
        (k : ℕ)
        → p.is_open ≡ false
        → get_elem? p.workers k ≡ some waiting
        → Advance p (becomes k returned p)

  pub data Step (p : Pool Error) : Pool Error → Type 0 where
    advance : {q : Pool Error} → Advance p q → Step p q
    -- A task that runs calls its `progress`.
    progress :
        (k i : ℕ) (t : Task) (bytes : ℤ)
        → get_elem? p.workers k ≡ some (running i)
        → get_elem? X.tasks i ≡ some t
        → Step p (report i t bytes false p)
    -- The caller's context ends.
    stop : Step p (record p { is_stopped = true })

  pub data Reach : Pool Error → Type 0 where
    -- With no tasks, `runTasks` returns at once and without an error.
    begin : 0 < length X.tasks → Reach start
    later : {p q : Pool Error} → Reach p → Step p q → Reach q

  -- Where a step is the end of a `run`, it ends as a table of errors says.
  abbrev pub Agrees : (ℕ → Option Error) → {p q : Pool Error} → Advance p q → Type 0
  Agrees errors (complete k i t w e) = errors i ≡ none
  Agrees errors (run_fails k i x w) = errors i ≡ some x
  Agrees errors _ = Unit

  -- Steps of the pool, with their number.
  pub data Advances (errors : ℕ → Option Error) : ℕ → Pool Error → Pool Error → Type 0 where
    done : {p : Pool Error} → Advances errors 0 p p
    next_advance :
        {n : ℕ} {p q r : Pool Error} (a : Advance p q)
        → Agrees errors a
        → Advances errors n q r
        → Advances errors (suc n) p r

  -- `wait.Wait()` returns.
  pub data IsOver (p : Pool Error) : Type 0 where
    over : p.is_open ≡ false → All (λ v. v ≡ returned) p.workers → IsOver p

  -- What `runTasks` returns then.
  unfoldable pub outcome : Pool Error → Result (TransferError Error) (Unit {0})
  outcome p = elim p.failure [
    | some (source, e) ↦ err (task_failed source e)
    | none ↦ if is_done p then err context_done else ok tt
  ]
