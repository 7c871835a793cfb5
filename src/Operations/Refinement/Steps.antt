-- ===== src/Operations/Refinement/Steps.antt =====
-- The steps of Cancel and Redrive inside their transactions: the UPDATE, and a read if it found no row.
use gotth_jobs.Common.{◌≡◌, refl, ◌∙◌, Option, none, some}
use gotth_jobs.Bytes.{Bytes}
use gotth_jobs.Types.{Job, zero_job}
use gotth_jobs.Errors.{Err, Result, ok, failed, sentinel, no_rows, is}
use gotth_jobs.Table.{Table}
use gotth_jobs.Table.Statements.{Session}
use gotth_jobs.Postgres.{Database, get_statement}
use gotth_jobs.Engine.Serving.{Serves}
use gotth_jobs.Engine.Serving.Updates.{Reads}
use gotth_jobs.Operations.{cancel_read, canceled_row, redrive_read, redriven_row}
use gotth_jobs.Lifecycle.Refinement.Transaction.{Leaves}

module _ {S : Type 0} (database : Database S) (session : Session) (refused : Err)
    (serves : Serves database session refused) (id : Bytes) where
  -- The UPDATE answered a row.
  pub canceled_row-ok :
      (x : Result Job) (job : Job) (s : S) (base t : Table)
      → x ≡ ok job
      → serves.committed s ≡ base
      → serves.copy s ≡ some t
      → Leaves database session refused serves (canceled_row database id x s) base (job, none) t
  unfolding canceled_row
  canceled_row-ok (ok j) job s base t e b c = record { answer = cc e; below = b; copy = c }
  canceled_row-ok (failed err) job s base t e b c = cc

  pub redriven_row-ok :
      (x : Result Job) (job : Job) (s : S) (base t : Table)
      → x ≡ ok job
      → serves.committed s ≡ base
      → serves.copy s ≡ some t
      → Leaves database session refused serves (redriven_row database id x s) base (job, none) t
  unfolding redriven_row
  redriven_row-ok (ok j) job s base t e b c = record { answer = cc e; below = b; copy = c }
  redriven_row-ok (failed err) job s base t e b c = cc

  -- It answered none, and the read answered `y`.
  pub canceled_row-read :
      (x y : Result Job) (s : S) (base t : Table) (result : Job × Option Err)
      → x ≡ failed (sentinel no_rows)
      → serves.committed s ≡ base
      → (o : serves.copy s ≡ some t)
      → Reads database session refused serves s t o (get_statement id) y t
      → cancel_read database y ≡ result
      → Leaves database session refused serves (canceled_row database id x s) base result t
  unfolding canceled_row is
  canceled_row-read x y s base t result e b o g k =
      rw e record { answer = rw g.read k; below = g.below ∙ b; copy = g.copy }

  pub redriven_row-read :
      (x y : Result Job) (s : S) (base t : Table) (err : Option Err)
      → x ≡ failed (sentinel no_rows)
      → serves.committed s ≡ base
      → (o : serves.copy s ≡ some t)
      → Reads database session refused serves s t o (get_statement id) y t
      → redrive_read database y ≡ err
      → Leaves database session refused serves (redriven_row database id x s) base (zero_job, err) t
  unfolding redriven_row is
  redriven_row-read x y s base t err e b o g k =
      rw e record { answer = rw g.read (rw k refl); below = g.below ∙ b; copy = g.copy }
