-- ===== src/Postgres/Outcomes.antt =====
-- What the answer of transact says of the transaction.
use gotth_jobs.Common.{◌≡◌, ◌≢◌, Bool-cases, inl, inr, refl, true, Option, none, some, arith, ap}
use gotth_jobs.Errors.{
  Err, is, error_is, sentinel, join, wrapped, commit_outcome_unknown, tx_closed,
}
use gotth_jobs.Postgres.{
  Context, Database, Action, join_rollback, deferred, committed, operated, begun, transact,
}

never_lost : (err : Err) (rollback_err : Option Err) → join_rollback (some err) rollback_err ≢ none
unfolding join_rollback
never_lost err none h = cc
never_lost err (some r) h = elim (Bool-cases (is r tx_closed)) [
  | inl e ↦ cc (rw e at h)
  | inr e ↦ cc (rw e at h)
]

-- The rollback adds an error, and takes none away.
join_rollback-is :
    (err : Err) (rollback_err : Option Err)
    → is err commit_outcome_unknown ≡ true
    → error_is (join_rollback (some err) rollback_err) commit_outcome_unknown ≡ true
unfolding join_rollback is error_is
join_rollback-is err none h = h
join_rollback-is err (some r) h = ground arith

abbrev unknown_outcome : Err → Err
unknown_outcome e = join (sentinel commit_outcome_unknown) (wrapped "commit job transaction" e)

module _ {S T : Type 0} (database : Database S) (zero : T) (operation : Action S T) where
  -- A transaction that began, whose operation returned `value`, and that was committed.
  abbrev pub IsCommitted : T → S → S → Type 0
  IsCommitted value s s' =
      (begun_at : S) × (done_at : S) × (stored_at : S) × (database.begin_tx s ≡ (none, begun_at))
      × (operation begun_at ≡ ((value, none), done_at))
      × (database.commit done_at ≡ (none, stored_at))
      × ((database.rollback stored_at).1 ≡ s')

  committed-none :
      (value v : T) (r : Option Err × S) (s' : S)
      → committed database value r ≡ ((v, none), s')
      → (value ≡ v) × (r.0 ≡ none) × ((database.rollback r.1).1 ≡ s')
  unfolding committed deferred
  committed-none value v (none, s) s' h =
      (ap (λ (y : (T × Option Err) × S). y.0.0) h, refl, ap (λ (y : (T × Option Err) × S). y.1) h)
  committed-none value v (some e, s) s' h = absurd (
      never_lost (unknown_outcome e) (database.rollback s).0
        (ap (λ (y : (T × Option Err) × S). y.0.1) h))

  operated-none :
      (r : (T × Option Err) × S) (v : T) (s' : S)
      → operated database r ≡ ((v, none), s')
      → (stored_at : S) × (r.0 ≡ (v, none))
        × (database.commit r.1 ≡ (none, stored_at))
        × ((database.rollback stored_at).1 ≡ s')
  unfolding operated deferred
  operated-none ((value, some e), s) v s' h =
      absurd (never_lost e (database.rollback s).0 (ap (λ (y : (T × Option Err) × S). y.0.1) h))
  operated-none ((value, none), s) v s' h =
      let (same, stored, last) = committed-none value v (database.commit s) s' h in
      (
        (database.commit s).1,
        ap (λ (x : T). (x, none)) same,
        ap (λ x. (x, (database.commit s).1)) stored,
        last,
      )

  begun-none :
      (s : S) (r : Option Err × S) (v : T) (s' : S)
      → database.begin_tx s ≡ r
      → begun database zero operation r ≡ ((v, none), s')
      → IsCommitted v s s'
  unfolding begun
  begun-none s (some e, s1) v s' b h = cc
  begun-none s (none, s1) v s' b h =
      let (stored_at, same, stored, last) = operated-none (operation s1) v s' h in
      (s1, (operation s1).1, stored_at, b, ap (λ x. (x, (operation s1).1)) same, stored, last)

  -- transact returns a value without an error only if the transaction began, the operation returned
  -- that value without an error, and the commit succeeded.
  pub transact-IsCommitted :
      (ctx : Option Context) (s : S) (v : T) (s' : S)
      → transact database zero ctx operation s ≡ ((v, none), s')
      → IsCommitted v s s'
  unfolding transact
  transact-IsCommitted none s v s' h = cc
  transact-IsCommitted (some ctx) s v s' h = begun-none s (database.begin_tx s) v s' refl h

  -- When the commit fails after an operation without an error, transact returns the value of the
  -- operation with an error that is ErrCommitOutcomeUnknown, whatever the rollback says.
  pub transact-unknown :
      (ctx : Context) (s begun_at done_at : S) (value : T) (commit_err : Err)
      → database.begin_tx s ≡ (none, begun_at)
      → operation begun_at ≡ ((value, none), done_at)
      → (database.commit done_at).0 ≡ some commit_err
      → ((transact database zero (some ctx) operation s).0.0 ≡ value)
        × (error_is (transact database zero (some ctx) operation s).0.1 commit_outcome_unknown
            ≡ true)
  unfolding transact begun operated committed deferred is
  transact-unknown ctx s begun_at done_at value commit_err b o c =
      rw (b, o) (after (database.commit done_at) c)
    where
      after :
          (r : Option Err × S)
          → r.0 ≡ some commit_err
          → ((committed database value r).0.0 ≡ value)
            × (error_is (committed database value r).0.1 commit_outcome_unknown ≡ true)
      after (none, x) c = cc
      after (some e, x) c =
          (refl, join_rollback-is (unknown_outcome e) (database.rollback x).0 refl)
