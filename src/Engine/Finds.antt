-- ===== src/Engine/Finds.antt =====
-- What becomes of one row under a statement: a property that the statement's own change of the row
-- keeps is found again in the table after it.
use gotth_jobs.Postgres.{
  claim_statement, complete_statement, fail_statement, cancel_statement, redrive_statement,
  get_statement, enqueue_statement,
}
use gotth_jobs.Engine.{execute, insert_sql, Statement, job_statement, heartbeat_statement}
use gotth_jobs.Common.{
  ℕ, ℤ, ◌≡◌, refl, subst, Bool, true, false, In, inl, inr, Bool-cases, if◌then◌else◌, arith, ◌∙◌,
  Option, some, negsuc, pos, none,
}
use gotth_jobs.Bytes.{Bytes}
use gotth_jobs.Table.{Row, Table, IsConsistent}
use gotth_jobs.Table.Update.{update, update_rows}
use gotth_jobs.Table.Statements.{
  Session, id_among, insert_row, heartbeat_sql, complete_sql, fail_sql, cancel_sql, redrive_sql,
  holds_lease, heartbeat_row, complete_row, fail_row, cancelable, cancel_row, redrivable,
  redrive_row,
}
use gotth_jobs.Table.Statements.Claim.{
  claim_row, claim_sql, exhausted_row, candidate_rows, expired_rows, claimable, expired_exhausted,
}
use gotth_jobs.Table.Statements.Disjoint.{
  in-update, candidate→claimable, expired→exhausted, candidate-not_expired, id_among-id,
  update-cases, claim_sql-cases,
}

-- A row of the table has the property.
abbrev pub Finds : (Row → Type 0) → Table → Type 0
Finds P t = (x : Row) × In x t × P x

either_row :
    (P : Row → Type 0) (b : Bool) (x r : Row) → (b ≡ true → P x) → P r → P (if b then x else r)
either_row P true x r h k = h refl
either_row P false x r h k = k

module _ (P : Row → Type 0) where
  -- The row of the table after an update that comes from a row before.
  replaced-Finds :
      (p : Row → Bool) (f : Row → Row) (t : Table) (r : Row)
      → P r
      → (p r ≡ true → P (f r))
      → In r t
      → Finds P (update_rows p f t)
  replaced-Finds p f t r h step m =
      ((if p r then f r else r), in-update p f t r m, either_row P (p r) (f r) r step h)

  update-Finds :
      (p : Row → Bool) (f : Row → Row) (t : Table) (r : Row)
      → P r
      → (p r ≡ true → P (f r))
      → In r t
      → Finds P (update p f t).1
  update-Finds p f t r h step m = elim (update-cases p f t) [
    | inl e ↦ rw e (r, m, h)
    | inr e ↦ rw e (replaced-Finds p f t r h step m)
  ]

  module _ (session : Session) (queue token worker : Bytes) (micros : ℤ) (t : Table)
      (c : IsConsistent t) where
    abbrev expired : Row → Bool
    expired = id_among (expired_rows session queue t)

    abbrev candidate : Row → Bool
    candidate = id_among (candidate_rows session queue t)

    abbrev after_expiry : Table
    after_expiry = update_rows expired (exhausted_row session) t

    stays_dead : (r : Row) → In r t → expired r ≡ true → candidate (exhausted_row session r) ≡ false
    unfolding exhausted_row
    stays_dead r m e = elim (Bool-cases (candidate r)) [
      | inl h ↦ cc (e, candidate-not_expired session queue t c.unique r m h)
      | inr h ↦ id_among-id (candidate_rows session queue t) _ r refl ∙ h
    ]

    in_after :
        (r x : Row)
        → In r t
        → (if expired r then exhausted_row session r else r) ≡ x
        → In x after_expiry
    in_after r x m e =
        subst (λ y. In y after_expiry) e (in-update expired (exhausted_row session) t r m)

    -- A row that dies with its last attempt is not claimed; any other is at most claimed.
    claim_both :
        (r : Row)
        → P r
        → (expired_exhausted session queue r ≡ true → P (exhausted_row session r))
        → (claimable session queue r ≡ true → P (claim_row session token worker micros r))
        → In r t
        → Finds P (update_rows candidate (claim_row session token worker micros) after_expiry)
    claim_both r h dies lives m = elim (Bool-cases (expired r)) [
      | inl e ↦ (
        exhausted_row session r,
        subst
            (λ x. In x (update_rows candidate (claim_row session token worker micros) after_expiry))
            (rw (stays_dead r m e))
            (in-update candidate (claim_row session token worker micros) after_expiry
              (exhausted_row session r) (in_after r (exhausted_row session r) m (rw e))),
        dies (expired→exhausted session queue t c.unique r m e),
      )
      | inr e ↦
          replaced-Finds candidate (claim_row session token worker micros) after_expiry r h
            (λ k. lives (candidate→claimable session queue t c.unique r m k))
            (in_after r r m (rw e))
    ]

    claim_sql-Finds :
        (r : Row)
        → P r
        → (expired_exhausted session queue r ≡ true → P (exhausted_row session r))
        → (claimable session queue r ≡ true → P (claim_row session token worker micros r))
        → In r t
        → Finds P (claim_sql session queue token worker micros t).1
    claim_sql-Finds r h dies lives m = elim (claim_sql-cases session queue token worker micros t) [
      | inl e ↦ rw e (r, m, h)
      | inr e ↦ rw e (claim_both r h dies lives m)
    ]

in-insert_row : (new : Row) (t : Table) (r : Row) → In r t → In r (insert_row new t).1
unfolding insert_row
in-insert_row new t r m = ground arith

in-insert_sql :
    (session : Session) (id queue kind : Bytes) (payload : Option Bytes) (key fingerprint : Bytes)
    (maximum : ℤ) (available : Option ℕ) (t : Table) (r : Row)
    → In r t
    → In r (insert_sql session id queue kind payload key fingerprint maximum available t).1
unfolding insert_sql
in-insert_sql session id queue kind none key fp maximum available t r m = m
in-insert_sql session id queue kind (some p) key fp (negsuc n) available t r m = m
in-insert_sql session id queue kind (some p) key fp (pos n) available t r m = in-insert_row _ t r m

-- The property survives each change that the statement can make to the row.
abbrev pub Survives : (Row → Type 0) → Session → Statement → Row → Type 0
Survives P session (job_statement (enqueue_statement id q k p key fp m a)) r = Unit
Survives P session (job_statement (claim_statement queue token worker micros)) r =
    (expired_exhausted session queue r ≡ true → P (exhausted_row session r))
    × (claimable session queue r ≡ true → P (claim_row session token worker micros r))
Survives P session (job_statement (complete_statement id token)) r =
    holds_lease session id token r ≡ true → P (complete_row session r)
Survives P session (job_statement (fail_statement id token message permanent micros)) r =
    holds_lease session id token r ≡ true → P (fail_row session message permanent micros r)
Survives P session (job_statement (cancel_statement id)) r =
    cancelable id r ≡ true → P (cancel_row session r)
Survives P session (job_statement (redrive_statement id)) r =
    redrivable id r ≡ true → P (redrive_row session r)
Survives P session (job_statement (get_statement id)) r = Unit
Survives P session (heartbeat_statement id token micros) r =
    holds_lease session id token r ≡ true → P (heartbeat_row session micros r)

pub execute-Finds :
    (P : Row → Type 0) (session : Session) (s : Statement) (t : Table) (r : Row)
    → IsConsistent t
    → In r t
    → P r
    → Survives P session s r
    → Finds P (execute session s t).1
unfolding execute heartbeat_sql complete_sql fail_sql cancel_sql redrive_sql
execute-Finds P session (job_statement (enqueue_statement id q k p key fp m a)) t r c i h v =
    (r, in-insert_sql session id q k p key fp m _ t r i, h)
execute-Finds P session (job_statement (claim_statement queue token worker micros)) t r c i h
      (d, l) =
    claim_sql-Finds P session queue token worker micros t c r h d l i
execute-Finds P session (job_statement (complete_statement id token)) t r c i h v =
    update-Finds P _ _ t r h v i
execute-Finds P session (job_statement (fail_statement id token message permanent micros)) t r c i h
      v =
    update-Finds P _ _ t r h v i
execute-Finds P session (job_statement (cancel_statement id)) t r c i h v =
    update-Finds P _ _ t r h v i
execute-Finds P session (job_statement (redrive_statement id)) t r c i h v =
    update-Finds P _ _ t r h v i
execute-Finds P session (job_statement (get_statement id)) t r c i h v = (r, i, h)
execute-Finds P session (heartbeat_statement id token micros) t r c i h v =
    update-Finds P _ _ t r h v i
