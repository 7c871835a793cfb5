-- ===== src/Lifecycle/Refinement/Transaction.antt =====
-- A transaction whose operation does what an abstract operation does, does it as a whole.
use gotth_jobs.Common.{◌≡◌, refl, Option, none, some, ◌∙◌}
use gotth_jobs.Errors.{Err}
use gotth_jobs.Table.{Table}
use gotth_jobs.Table.Statements.{Session}
use gotth_jobs.Postgres.{
  Context, Database, Action, transact, begun, operated, committed, deferred, join_rollback,
}
use gotth_jobs.Engine.Serving.{Serves}

-- A call answers what the abstract operation answers, and commits the table that it leaves.
abbrev pub Performs :
    {S T : Type 0} → (S → Table) → (T × Option Err) × S → (T × Option Err) × Table → Type 0
Performs committed called specified = (called.0 ≡ specified.0) × (committed called.1 ≡ specified.1)

module _ {S T : Type 0} (database : Database S) (session : Session) (refused : Err)
    (serves : Serves database session refused) where
  -- An operation in a transaction returned `result` and left the copy `t`, on the committed `base`.
  pub record Leaves (r : (T × Option Err) × S) (base : Table) (result : T × Option Err) (t : Table)
      : Type 0 where
    pub answer : r.0 ≡ result
    pub below : serves.committed r.1 ≡ base
    pub copy : serves.copy r.1 ≡ some t

  committed_stores :
      (value : T) (r : Option Err × S) (t : Table)
      → r.0 ≡ none
      → serves.committed r.1 ≡ t
      → serves.copy r.1 ≡ none
      → ((committed database value r).0 ≡ (value, none))
        × (serves.committed (committed database value r).1 ≡ t)
  unfolding committed deferred join_rollback
  committed_stores value (none, s) t h b c = (refl, serves.stays s c ∙ b)
  committed_stores value (some e, s) t h b c = cc

  pub operated_stores :
      (r : (T × Option Err) × S) (base : Table) (value : T) (t : Table)
      → Leaves r base (value, none) t
      → ((operated database r).0 ≡ (value, none)) × (serves.committed (operated database r).1 ≡ t)
  unfolding operated
  operated_stores ((v, none), s) base value t l =
      let (stored, table, closed) = serves.commits s t l.copy in
      let (same, kept) = committed_stores v (database.commit s) t stored table closed in
      (same ∙ l.answer, kept)
  operated_stores ((v, some e), s) base value t l = cc (l.answer)

  pub operated_forgets :
      (r : (T × Option Err) × S) (base : Table) (value : T) (err : Err) (t : Table)
      → Leaves r base (value, some err) t
      → ((operated database r).0 ≡ (value, some err))
        × (serves.committed (operated database r).1 ≡ base)
  unfolding operated deferred join_rollback
  operated_forgets ((v, none), s) base value err t l = cc (l.answer)
  operated_forgets ((v, some e), s) base value err t l =
      let (clean, kept) = serves.rolls_back s t l.copy in (rw clean l.answer, kept ∙ l.below)

  begun_stores :
      (zero value : T) (operation : Action S T) (r : Option Err × S) (base t : Table)
      → r.0 ≡ none
      → Leaves (operation r.1) base (value, none) t
      → ((begun database zero operation r).0 ≡ (value, none))
        × (serves.committed (begun database zero operation r).1 ≡ t)
  unfolding begun
  begun_stores zero value operation (none, s) base t h l =
      operated_stores (operation s) base value t l
  begun_stores zero value operation (some e, s) base t h l = cc

  begun_forgets :
      (zero value : T) (err : Err) (operation : Action S T) (r : Option Err × S) (base t : Table)
      → r.0 ≡ none
      → Leaves (operation r.1) base (value, some err) t
      → ((begun database zero operation r).0 ≡ (value, some err))
        × (serves.committed (begun database zero operation r).1 ≡ base)
  unfolding begun
  begun_forgets zero value err operation (none, s) base t h l =
      operated_forgets (operation s) base value err t l
  begun_forgets zero value err operation (some e, s) base t h l = cc

  -- An operation without an error: its copy becomes the committed table.
  pub transact_stores :
      (zero value : T) (ctx : Context) (operation : Action S T) (s : S) (t : Table)
      → Leaves (operation (database.begin_tx s).1) (serves.committed s) (value, none) t
      → ((transact database zero (some ctx) operation s).0 ≡ (value, none))
        × (serves.committed (transact database zero (some ctx) operation s).1 ≡ t)
  unfolding transact
  transact_stores zero value ctx operation s t l =
      begun_stores zero value operation (database.begin_tx s) (serves.committed s) t
        (serves.begins s).0 l

  -- An operation with an error: the committed table stays.
  pub transact_forgets :
      (zero value : T) (err : Err) (ctx : Context) (operation : Action S T) (s : S) (t : Table)
      → Leaves (operation (database.begin_tx s).1) (serves.committed s) (value, some err) t
      → ((transact database zero (some ctx) operation s).0 ≡ (value, some err))
        × (serves.committed (transact database zero (some ctx) operation s).1 ≡ serves.committed s)
  unfolding transact
  transact_forgets zero value err ctx operation s t l =
      begun_forgets zero value err operation (database.begin_tx s) (serves.committed s) t
        (serves.begins s).0 l
