-- ===== src/Operations.antt =====
-- pkg/jobs/operations.go: Get, Counts, ListDead, Cancel and Redrive.
pub mod Refinement
pub mod Counting
use gotth_jobs.Common.{
  ℤ, pos, pos_part, neg_part, Bool, true, false, not, ◌||◌, Option, none, some, List, [], ◌∷◌, ◌++◌,
  if◌then◌else◌, ltb_ℤ, eqb_ℤ, wrap64, sub_ℕ, ◌+◌,
}
use gotth_jobs.Bytes.{Bytes}
use gotth_jobs.Types.{
  State, dead, canceled, Job, Counts, DeadCursor, Time, zero_job, max_queue_bytes, max_dead_page,
}
use gotth_jobs.Errors.{
  Err, sentinel, is, no_rows, not_found, state_conflict, invalid_error, wrapped, plain_error, check,
  ◌<|>◌, Result, ok, failed, ◌>>=◌,
}
use gotth_jobs.Rows.{RawRow, scan_job}
use gotth_jobs.Values.{validate_name, is_postgresql_timestamp}
use gotth_jobs.Values.Identifiers.{validate_job_id}
use gotth_jobs.Postgres.{
  Context, Database, PostgreSql, Action, CountsRow, RowSet, get_statement, cancel_statement,
  redrive_statement, transact,
}
use gotth_jobs.Lifecycle.{usable, guarded, with_database}

abbrev is_canceled : State → Bool
is_canceled canceled = true
is_canceled _ = false

abbrev is_dead : State → Bool
is_dead dead = true
is_dead _ = false

got : Result Job → Job × Option Err
got (ok job) = (job, none)
got (failed err) =
    if is err no_rows
    then (zero_job, some (sentinel not_found))
    else (zero_job, some (wrapped "get job" err))

-- `int64` addition
unfoldable pub add64 : ℤ → ℤ → ℤ
unfolding wrap64
add64 a b = wrap64 (sub_ℕ (pos_part a + pos_part b) (neg_part a + neg_part b))

abbrev zero_counts : Counts
zero_counts = record {
  pending = pos 0;
  running = pos 0;
  succeeded = pos 0;
  dead = pos 0;
  canceled = pos 0;
}

unfoldable pub known_total : CountsRow → ℤ
unfolding add64
known_total r = add64 (add64 (add64 (add64 r.pending r.running) r.succeeded) r.dead) r.canceled

unfoldable pub counted : Result CountsRow → Counts × Option Err
unfolding known_total
counted (failed err) = (zero_counts, some (wrapped "count jobs" err))
counted (ok r) =
    if not (eqb_ℤ r.total (known_total r))
    then (zero_counts, some (plain_error "count jobs: corrupt stored state totals"))
    else (
      record {
        pending = r.pending;
        running = r.running;
        succeeded = r.succeeded;
        dead = r.dead;
        canceled = r.canceled;
      },
      none,
    )

-- The loop of ListDead, with the jobs so far in front.
scan_dead : List Job → List RawRow → Result (List Job)
scan_dead jobs [] = ok jobs
scan_dead jobs (row ∷ rest) = elim (scan_job row) [
  | failed err ↦ failed (wrapped "scan dead job" err)
  | ok job ↦ elim (is_dead job.state) [
    | true ↦ scan_dead (jobs ++ job ∷ []) rest
    | false ↦ failed (plain_error "dead-letter query returned state")
  ]
]

-- rows.Err() after the loop
iterated : Option Err → List Job → List Job × Option Err
iterated none jobs = (jobs, none)
iterated (some err) jobs = ([], some (wrapped "iterate dead jobs" err))

listed_rows : Option Err → Result (List Job) → List Job × Option Err
unfolding iterated
listed_rows rows_err (failed err) = ([], some err)
listed_rows rows_err (ok jobs) = iterated rows_err jobs

unfoldable pub listed : Result RowSet → List Job × Option Err
unfolding scan_dead listed_rows
listed (failed err) = ([], some (wrapped "list dead jobs" err))
listed (ok set) = listed_rows set.err (scan_dead [] set.fetched)

-- The checks of an optional cursor, and the two arguments for it.
unfoldable pub validate_cursor : Option DeadCursor → Option Err
validate_cursor none = none
validate_cursor (some cursor) =
    check (not (is_postgresql_timestamp cursor.finished_at))
      (invalid_error "dead-letter cursor time is invalid")
    <|> cursor_id (validate_job_id cursor.id)
  where
    cursor_id : Option Err → Option Err
    cursor_id none = none
    cursor_id (some err) = some (invalid_error "dead-letter cursor ID is invalid")

abbrev pub cursor_time : Option DeadCursor → Option Time
cursor_time none = none
cursor_time (some cursor) = some cursor.finished_at

abbrev pub cursor_job : Option DeadCursor → Bytes
cursor_job none = []
cursor_job (some cursor) = cursor.id

module _ {S : Type 0} (database : Database S) where
  -- The read of Cancel when the update has changed no row.
  pub cancel_read : Result Job → Job × Option Err
  cancel_read (ok job) =
      if is_canceled job.state then (job, none) else (zero_job, some (sentinel state_conflict))
  cancel_read (failed err) =
      if is err no_rows
      then (zero_job, some (sentinel not_found))
      else (zero_job, some (wrapped "read unmodified job after cancel" err))

  unfoldable pub canceled_row : Bytes → Result Job → S → (Job × Option Err) × S
  unfolding cancel_read
  canceled_row id (ok job) s = ((job, none), s)
  canceled_row id (failed err) s =
      if is err no_rows
      then (let (row, s') = database.query_job (get_statement id) s in
          (cancel_read (row >>= scan_job), s'))
      else ((zero_job, some (wrapped "cancel job" err)), s)

  unfoldable pub cancel_job : Bytes → Action S Job
  unfolding canceled_row
  cancel_job id s =
      let (row, s') = database.query_job (cancel_statement id) s in
      canceled_row id (row >>= scan_job) s'

  pub redrive_read : Result Job → Option Err
  redrive_read (ok job) = some (sentinel state_conflict)
  redrive_read (failed err) =
      if is err no_rows
      then some (sentinel not_found)
      else some (wrapped "read unmodified job after redrive" err)

  unfoldable pub redriven_row : Bytes → Result Job → S → (Job × Option Err) × S
  unfolding redrive_read
  redriven_row id (ok job) s = ((job, none), s)
  redriven_row id (failed err) s =
      if is err no_rows
      then (let (row, s') = database.query_job (get_statement id) s in
          ((zero_job, redrive_read (row >>= scan_job)), s'))
      else ((zero_job, some (wrapped "redrive job" err)), s)

  unfoldable pub redrive_job : Bytes → Action S Job
  unfolding redriven_row
  redrive_job id s =
      let (row, s') = database.query_job (redrive_statement id) s in
      redriven_row id (row >>= scan_job) s'

module _ {S : Type 0} (repository : Option (PostgreSql S)) (ctx : Option Context) where
  unfoldable pub get : Bytes → Action S Job
  unfolding usable got
  get id = with_database zero_job (usable repository ctx) λ database.
      guarded zero_job (validate_job_id id) λ s.
        (let (row, s') = database.query_job (get_statement id) s in (got (row >>= scan_job), s'))

  unfoldable pub counts : Bytes → Action S Counts
  unfolding usable counted
  counts queue = with_database zero_counts (usable repository ctx) λ database.
      guarded zero_counts (validate_name "queue" queue max_queue_bytes)
        λ s. (let (row, s') = database.query_counts queue s in (counted row, s'))

  unfoldable pub list_dead : Bytes → Option DeadCursor → ℤ → Action S (List Job)
  unfolding usable validate_cursor listed
  list_dead queue cursor limit = with_database [] (usable repository ctx) λ database.
      guarded []
        (validate_name "queue" queue max_queue_bytes
          <|> (check (ltb_ℤ limit (pos 1) || ltb_ℤ (pos max_dead_page) limit)
                (invalid_error "dead-letter limit must be between 1 and 100")
              <|> validate_cursor cursor))
        λ s.
          (let (set, s') =
              database.query_dead queue (cursor_time cursor) (cursor_job cursor) limit s in
            (listed set, s'))

  unfoldable pub cancel : Bytes → Action S Job
  unfolding usable cancel_job transact
  cancel id = with_database zero_job (usable repository ctx) λ database.
      guarded zero_job (validate_job_id id)
        (transact database zero_job ctx (cancel_job database id))

  unfoldable pub redrive : Bytes → Action S Job
  unfolding usable redrive_job transact
  redrive id = with_database zero_job (usable repository ctx) λ database.
      guarded zero_job (validate_job_id id)
        (transact database zero_job ctx (redrive_job database id))
