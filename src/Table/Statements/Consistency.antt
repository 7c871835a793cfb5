-- ===== src/Table/Statements/Consistency.antt =====
-- Every statement keeps the table consistent, and none of them is refused by a constraint.
use gotth_jobs.Common.{
  ◌≡◌, ◌≢◌, refl, sym, ◌≤◌, ℤ, Bool, true, false, [], ◌∷◌, arith, length, In, All, All-of,
  Bool-cases, inl, inr, if◌then◌else◌, every, ◌∙◌, ap, subst,
}
use gotth_jobs.Bytes.{Bytes, bytes_eq_iff}
use gotth_jobs.Table.{Row, Table, IsConsistent, between, HasNewId}
use gotth_jobs.Values.Identifiers.{valid_lease_token}
use gotth_jobs.Table.Update.{
  Answer, constraint_violation, update, update_rows, Keeps, update-IsConsistent,
}
use gotth_jobs.Table.Statements.{
  Session, holds_lease, heartbeat_row, heartbeat_sql, complete_row, complete_sql, fail_row,
  fail_sql, cancelable, cancel_row, cancel_sql, redrivable, redrive_row, redrive_sql, id_among,
  insert_row,
}
use gotth_jobs.Table.Statements.Claim.{
  claimable, claim_row, claim_sql, exhausted_row, candidate_rows, expired_rows,
}
use gotth_jobs.Table.Statements.Checks.{
  heartbeat_row-checked, complete_row-checked, fail_row-checked, cancel_row-checked,
  redrive_row-checked, exhausted_row-checked, claim_row-checked,
}
use gotth_jobs.Table.Statements.Disjoint.{
  candidate→claimable, expired→exhausted, candidate-not_expired, id_among-id,
}

-- A statement was not refused, and left a consistent table.
abbrev pub Accepted : Answer × Table → Type 0
Accepted (answer, t) = (answer ≢ constraint_violation) × IsConsistent t

Accepted-update :
    (p : Row → Bool) (f : Row → Row) (t : Table)
    → All (Keeps p f) t
    → ((r : Row) → (f r).id ≡ r.id)
    → IsConsistent t
    → Accepted (update p f t)
Accepted-update p f t keep same c =
    let (answered, kept) = update-IsConsistent p f t keep same c in rw answered ((λ e. cc), kept)

module _ (session : Session) (t : Table) (c : IsConsistent t) where
  pub heartbeat_sql-Accepted :
      (id token : Bytes) (micros : ℤ) → Accepted (heartbeat_sql session id token micros t)
  unfolding heartbeat_sql
  heartbeat_sql-Accepted id token micros =
      Accepted-update _ _ t
        (All-of (Keeps (holds_lease session id token) (heartbeat_row session micros)) t
          (λ r _. heartbeat_row-checked session id token micros r))
        (λ r. refl) c

  pub complete_sql-Accepted : (id token : Bytes) → Accepted (complete_sql session id token t)
  unfolding complete_sql
  complete_sql-Accepted id token =
      Accepted-update _ _ t
        (All-of (Keeps (holds_lease session id token) (complete_row session)) t
          (λ r _. complete_row-checked session id token r))
        (λ r. refl) c

  pub fail_sql-Accepted :
      (id token message : Bytes) (permanent : Bool) (micros : ℤ)
      → length message ≤ 4096
      → Accepted (fail_sql session id token message permanent micros t)
  unfolding fail_sql
  fail_sql-Accepted id token message permanent micros short =
      Accepted-update _ _ t
        (All-of (Keeps (holds_lease session id token) (fail_row session message permanent micros)) t
          (λ r _. fail_row-checked session id token message permanent micros r short))
        (λ r. refl) c

  pub cancel_sql-Accepted : (id : Bytes) → Accepted (cancel_sql session id t)
  unfolding cancel_sql
  cancel_sql-Accepted id =
      Accepted-update _ _ t
        (All-of (Keeps (cancelable id) (cancel_row session)) t
          (λ r _. cancel_row-checked session id r))
        (λ r. refl) c

  pub redrive_sql-Accepted : (id : Bytes) → Accepted (redrive_sql session id t)
  unfolding redrive_sql
  redrive_sql-Accepted id =
      Accepted-update _ _ t
        (All-of (Keeps (redrivable id) (redrive_row session)) t
          (λ r _. redrive_row-checked session id r))
        (λ r. refl) c

-- The rows after an update, with the row that each comes from.
pub in-update_rows :
    (p : Row → Bool) (f : Row → Row) (t : Table) (x : Row)
    → In x (update_rows p f t)
    → (r : Row) × In r t × ((if p r then f r else r) ≡ x)
unfolding update_rows
in-update_rows p f [] x m = absurd m
in-update_rows p f (r ∷ t) x (inl e) = (r, inl refl, e)
in-update_rows p f (r ∷ t) x (inr m) = let (s, n, e) = in-update_rows p f t x m in (s, inr n, e)

module _ (session : Session) (queue : Bytes) (t : Table) (c : IsConsistent t) where
  expire-Keeps : All (Keeps (id_among (expired_rows session queue t)) (exhausted_row session)) t
  expire-Keeps = All-of _ t λ r m h k.
      exhausted_row-checked session queue r (expired→exhausted session queue t c.unique r m h) k

  -- A row that has the candidate's identifier after the exhausted ones are dead is the candidate.
  still_claimable :
      (r x : Row)
      → In r t
      → (if id_among (expired_rows session queue t) r then exhausted_row session r else r) ≡ x
      → id_among (candidate_rows session queue t) x ≡ true
      → claimable session queue x ≡ true
  unfolding exhausted_row
  still_claimable r x m e h = elim (Bool-cases (id_among (expired_rows session queue t) r)) [
    | inl q ↦
        let e' : exhausted_row session r ≡ x = rw q at e in
        let same : r.id ≡ x.id = ap (λ (y : Row). y.id) e' in
        cc (
          q,
          candidate-not_expired session queue t c.unique r m
              (id_among-id (candidate_rows session queue t) r x same ∙ h),
        )
    | inr q ↦
        let e' : r ≡ x = rw q at e in
        subst (λ y. claimable session queue y ≡ true) e'
          (candidate→claimable session queue t c.unique r m
            (subst (λ y. id_among (candidate_rows session queue t) y ≡ true) (sym e') h))
  ]

  pub claim_sql-Accepted :
      (token worker : Bytes) (micros : ℤ)
      → valid_lease_token token ≡ true
      → between 1 256 (length worker) ≡ true
      → Accepted (claim_sql session queue token worker micros t)
  unfolding claim_sql
  claim_sql-Accepted token worker micros ht hw =
      let (answered, kept) =
        update-IsConsistent (id_among (expired_rows session queue t)) (exhausted_row session) t
          expire-Keeps (λ r. refl) c in
      let (answered', kept') =
        update-IsConsistent (id_among (candidate_rows session queue t))
          (claim_row session token worker micros) _
          (All-of _ _ λ x n h k.
            let (r, m, e) =
              in-update_rows (id_among (expired_rows session queue t)) (exhausted_row session) t x
                n in
            claim_row-checked session queue token worker micros x ht hw (still_claimable r x m e h)
              k)
          (λ r. refl) kept in
      rw answered (rw answered' ((λ e. cc), kept'))

HasNewId-id_among : (t : Table) (r : Row) → id_among t r ≡ false → HasNewId r.id t
unfolding id_among
HasNewId-id_among [] r h = tt
HasNewId-id_among (s ∷ t) r h =
    ((λ e. ground (arith, bytes_eq_iff r.id s.id)), HasNewId-id_among t r (ground arith))

-- An insertion keeps the table consistent, also where it is refused.
pub insert_row-IsConsistent :
    (new : Row) (t : Table) → IsConsistent t → IsConsistent (insert_row new t).1
unfolding insert_row every
insert_row-IsConsistent new t c = ground (arith, HasNewId-id_among t new)
