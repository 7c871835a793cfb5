-- ===== src/Table/Statements/Disjoint.antt =====
-- The rows that the CTEs of `claimSQL` lock, and that its two updates touch different rows.
use gotth_jobs.Common.{
  if◌then◌else◌, ℕ, ◌≡◌, refl, sym, ap, subst, ◌∙◌, Bool, true, false, not, inl, inr, List, [], ◌∷◌,
  arith, In, All-at, in-select, in-order_by, in-take, Bool-cases, ◌≢◌, ◌||◌, ℤ, ◌⊎◌, map, select,
  every,
}
use gotth_jobs.Bytes.{Bytes, bytes_eq, bytes_eq→eq}
use gotth_jobs.Table.{Row, Table, HasUniqueIds, satisfies_checks}
use gotth_jobs.Table.Statements.{Session, id_among}
use gotth_jobs.Table.Statements.Claim.{
  lockable, unlocked, ordered, claimable, expired_exhausted, candidate_rows, expired_rows, or_zero,
  due_at, claim_sql, exhausted_row, claim_row,
}
use gotth_jobs.Table.Update.{update, update_rows, constraint_violation, rows}

-- Two rows of a table with one identifier are one row.
pub unique_row : (t : Table) (r s : Row) → HasUniqueIds t → In r t → In s t → r.id ≡ s.id → r ≡ s
unique_row [] r s u m n e = absurd m
unique_row (x ∷ t) r s u (inl p) (inl q) e = sym p ∙ q
unique_row (x ∷ t) r s u (inl p) (inr n) e =
    absurd (All-at (λ y. x.id ≢ y.id) t s u.0 n (ap (λ (y : Row). y.id) p ∙ e))
unique_row (x ∷ t) r s u (inr m) (inl q) e =
    absurd (All-at (λ y. x.id ≢ y.id) t r u.0 m (ap (λ (y : Row). y.id) q ∙ sym e))
unique_row (x ∷ t) r s u (inr m) (inr n) e = unique_row t r s u.1 m n e

pub id_among→in :
    (l : List Row) (r : Row) → id_among l r ≡ true → (s : Row) × In s l × (r.id ≡ s.id)
unfolding id_among
id_among→in [] r h = cc
id_among→in (s ∷ l) r h = elim (Bool-cases (bytes_eq r.id s.id)) [
  | inl e ↦ (s, inl refl, bytes_eq→eq r.id s.id e)
  | inr e ↦ let (x, m, i) = id_among→in l r (rw e at h) in (x, inr m, i)
]

pub id_among-id : (l : List Row) (r s : Row) → r.id ≡ s.id → id_among l r ≡ id_among l s
unfolding id_among
id_among-id [] r s e = refl
id_among-id (x ∷ l) r s e = λ i. bytes_eq (e i) x.id || id_among-id l r s e i

free_of : (b : Bool) → not b ≡ true → b ≡ false
free_of b h = ground arith

pub in-lockable :
    (session : Session) (key : Row → ℕ) (p : Row → Bool) (t : Table) (r : Row)
    → In r (lockable session key p t)
    → In r t × (p r ≡ true) × (session.locked r.id ≡ false)
unfolding lockable unlocked
in-lockable session key p t r m =
    let (ordered_in, free) = in-select (unlocked session) _ r m in
    let (selected, passes) = in-select p t r (in-order_by (ordered session key) _ r ordered_in) in
    (selected, passes, free_of (session.locked r.id) free)

pub exclusive :
    (session : Session) (queue : Bytes) (r : Row)
    → claimable session queue r ≡ true
    → expired_exhausted session queue r ≡ false
unfolding claimable expired_exhausted
exclusive session queue r h = ground arith

module _ (session : Session) (queue : Bytes) (t : Table) (u : HasUniqueIds t) where
  -- A row of the table whose identifier a CTE has is the row that the CTE has.
  pub candidate→claimable :
      (r : Row)
      → In r t
      → id_among (candidate_rows session queue t) r ≡ true
      → claimable session queue r ≡ true
  unfolding candidate_rows
  candidate→claimable r m h =
      let (s, ms, e) = id_among→in (candidate_rows session queue t) r h in
      let (inside, passes, _) =
        in-lockable session due_at (claimable session queue) t s (in-take 1 _ s ms) in
      subst (λ x. claimable session queue x ≡ true) (sym (unique_row t r s u m inside e)) passes

  pub expired→exhausted :
      (r : Row)
      → In r t
      → id_among (expired_rows session queue t) r ≡ true
      → expired_exhausted session queue r ≡ true
  unfolding expired_rows
  expired→exhausted r m h =
      let (s, ms, e) = id_among→in (expired_rows session queue t) r h in
      let (inside, passes, _) =
        in-lockable session (λ x. or_zero x.lease_until) (expired_exhausted session queue) t s
          (in-take 100 _ s ms) in
      subst (λ x. expired_exhausted session queue x ≡ true) (sym (unique_row t r s u m inside e))
        passes

  -- No row is both the candidate and among the exhausted ones.
  pub candidate-not_expired :
      (r : Row)
      → In r t
      → id_among (candidate_rows session queue t) r ≡ true
      → id_among (expired_rows session queue t) r ≡ false
  candidate-not_expired r m h = elim (Bool-cases (id_among (expired_rows session queue t) r)) [
    | inl e ↦ cc (exclusive session queue r (candidate→claimable r m h), expired→exhausted r m e)
    | inr e ↦ e
  ]

-- A refused update leaves the table, any other replaces rows.
pub update-cases :
    (p : Row → Bool) (f : Row → Row) (t : Table)
    → (update p f t ≡ (constraint_violation, t))
      ⊎ (update p f t ≡ (rows (map f (select p t)), update_rows p f t))
unfolding update
update-cases p f t = elim (Bool-cases (every satisfies_checks (map f (select p t)))) [
  | inl e ↦ inr (rw e)
  | inr e ↦ inl (rw e)
]

-- `claimSQL` does both of its updates, or none.
pub claim_sql-cases :
    (session : Session) (queue token worker : Bytes) (micros : ℤ) (t : Table)
    → let expired = id_among (expired_rows session queue t) in
      let candidate = id_among (candidate_rows session queue t) in
      let t' = update_rows expired (exhausted_row session) t in
      (claim_sql session queue token worker micros t ≡ (constraint_violation, t))
      ⊎ (claim_sql session queue token worker micros t ≡ (
        rows (map (claim_row session token worker micros) (select candidate t')),
        update_rows candidate (claim_row session token worker micros) t',
      ))
unfolding claim_sql
claim_sql-cases session queue token worker micros t =
    elim (update-cases (id_among (expired_rows session queue t)) (exhausted_row session) t) [
      | inl e ↦ inl (rw e)
      | inr e ↦
          elim (update-cases (id_among (candidate_rows session queue t))
            (claim_row session token worker micros)
            (update_rows (id_among (expired_rows session queue t)) (exhausted_row session) t)) [
              | inl e' ↦ inl (rw (e, e'))
              | inr e' ↦ inr (rw (e, e'))
            ]
    ]

-- The row after an update that comes from a row before.
pub in-update :
    (p : Row → Bool) (f : Row → Row) (t : Table) (r : Row)
    → In r t
    → In (if p r then f r else r) (update_rows p f t)
unfolding update_rows
in-update p f [] r m = absurd m
in-update p f (s ∷ t) r (inl e) = inl (ap (λ (y : Row). if p y then f y else y) e)
in-update p f (s ∷ t) r (inr m) = inr (in-update p f t r m)
