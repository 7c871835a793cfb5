-- ===== src/Postgres.antt =====
-- pkg/jobs/postgres.go: the database surface and the transaction wrapper. The database is pgx and
-- PostgreSql, a parameter: a record of operations on a state that the model does not look into.
pub mod Outcomes
use gotth_jobs.Common.{ℤ, Bool, Option, none, some, List, if◌then◌else◌, true, false}
use gotth_jobs.Bytes.{Bytes}
use gotth_jobs.Types.{Time}
use gotth_jobs.Rows.{RawRow}
use gotth_jobs.Errors.{
  Err, sentinel, join, is, tx_closed, commit_outcome_unknown, invalid_error, wrapped, Result,
}

-- A context, with what its `Err` returns.
pub record Context : Type 0 where
  pub err : Option Err

-- The statements that return a job, with their arguments in the order of `$1`, `$2`, …
pub data JobStatement : Type 0 where
  enqueue_statement :
      Bytes → Bytes → Bytes → Option Bytes → Bytes → Bytes → ℤ → Option Time → JobStatement
  claim_statement : Bytes → Bytes → Bytes → ℤ → JobStatement
  complete_statement : Bytes → Bytes → JobStatement
  fail_statement : Bytes → Bytes → Bytes → Bool → ℤ → JobStatement
  cancel_statement : Bytes → JobStatement
  redrive_statement : Bytes → JobStatement
  get_statement : Bytes → JobStatement

pub record CountsRow : Type 0 where
  pub pending : ℤ
  pub running : ℤ
  pub succeeded : ℤ
  pub dead : ℤ
  pub canceled : ℤ
  pub total : ℤ

-- The rows of a query, and what `Err` returns after the last one.
pub record RowSet : Type 0 where
  pub fetched : List RawRow
  pub err : Option Err

-- The interface `Database` and the transactions that it opens. A query gives the row that `Scan`
-- reads, or the error of `Scan`; `no_rows` is pgx.ErrNoRows.
pub record Database (S : Type 0) : Type 0 where
  pub begin_tx : S → Option Err × S
  pub commit : S → Option Err × S
  pub rollback : S → Option Err × S
  pub query_job : JobStatement → S → Result RawRow × S
  pub query_idempotent_job : Bytes → Bytes → S → Result (Option Bytes × RawRow) × S
  pub query_heartbeat : Bytes → Bytes → ℤ → S → Option Err × S
  pub query_lease_state : Bytes → S → Result (Option Bytes) × S
  pub query_isolation : S → Result Bytes × S
  pub query_counts : Bytes → S → Result CountsRow × S
  pub query_dead : Bytes → Option Time → Bytes → ℤ → S → Result RowSet × S

-- `database` is `none` where it is like nil.
pub record PostgreSql (S : Type 0) : Type 0 where
  pub database : Option (Database S)

-- What package reflect sees of a value in an interface: there is none, or its kind and, for the kinds
-- that have one, whether it is nil.
pub data Kind : Type 0 where
  chan_kind func_kind interface_kind map_kind pointer_kind slice_kind other_kind : Kind

pub data Reflected : Type 0 where
  nil_interface : Reflected
  of_kind : Kind → Bool → Reflected

-- nilLike
unfoldable pub nil_like : Reflected → Bool
nil_like nil_interface = true
nil_like (of_kind chan_kind is_nil) = is_nil
nil_like (of_kind func_kind is_nil) = is_nil
nil_like (of_kind interface_kind is_nil) = is_nil
nil_like (of_kind map_kind is_nil) = is_nil
nil_like (of_kind pointer_kind is_nil) = is_nil
nil_like (of_kind slice_kind is_nil) = is_nil
nil_like (of_kind other_kind is_nil) = false

-- NewPostgreSQL, of a database with what reflect sees of it.
unfoldable pub new_postgresql :
    {S : Type 0} → Reflected → Database S → Option (PostgreSql S) × Option Err
unfolding nil_like
new_postgresql seen database =
    if nil_like seen
    then (none, some (invalid_error "database is required"))
    else (some (record { database = some database }), none)

-- A Go function that returns a value and an error, and works on the database's state.
abbrev pub Action : Type 0 → Type 0 → Type 0
Action S T = S → (T × Option Err) × S

-- The deferred rollback may add its error to one that is there.
unfoldable pub join_rollback : Option Err → Option Err → Option Err
unfolding is
join_rollback none rollback_err = none
join_rollback (some err) none = some err
join_rollback (some err) (some rollback_err) =
    if is rollback_err tx_closed
    then some err
    else some (join err (wrapped "rollback job transaction" rollback_err))

module _ {S T : Type 0} (database : Database S) where
  -- The deferred function runs on every path after the transaction has begun.
  unfoldable pub deferred : T → Option Err → S → (T × Option Err) × S
  unfolding join_rollback
  deferred value err s =
      let (rollback_err, s') = database.rollback s in ((value, join_rollback err rollback_err), s')

  unfoldable pub committed : T → Option Err × S → (T × Option Err) × S
  unfolding deferred
  committed value (none, s) = deferred value none s
  committed value (some commit_err, s) =
      deferred value
        (some
          (join (sentinel commit_outcome_unknown) (wrapped "commit job transaction" commit_err)))
        s

  unfoldable pub operated : (T × Option Err) × S → (T × Option Err) × S
  unfolding committed
  operated ((value, some err), s) = deferred value (some err) s
  operated ((value, none), s) = committed value (database.commit s)

  unfoldable pub begun : T → Action S T → Option Err × S → (T × Option Err) × S
  unfolding operated
  begun zero operation (some begin_err, s) =
      ((zero, some (wrapped "begin job transaction" begin_err)), s)
  begun zero operation (none, s) = operated (operation s)

  -- `zero` is the zero value of the result type.
  unfoldable pub transact : T → Option Context → Action S T → Action S T
  unfolding begun
  transact zero none operation s = ((zero, some (invalid_error "context is required")), s)
  transact zero (some ctx) operation s = begun zero operation (database.begin_tx s)
