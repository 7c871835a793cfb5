-- ===== src/Table/Statements/Order.antt =====
-- Which job `claimSQL` hands out.
use gotth_jobs.Common.{
  ℕ, ℤ, ◌≡◌, refl, sym, ap, subst, Bool, true, false, not, ◌&&◌, ◌||◌, List, [], ◌∷◌, select, In,
  All, All-of, inl, arith, every, take, select-in, order_by-in, order_by-least, IsOrder, length,
}
use gotth_jobs.Bytes.{Bytes}
use gotth_jobs.Table.{Row, Table, IsConsistent, between}
use gotth_jobs.Values.Identifiers.{valid_lease_token}
use gotth_jobs.Table.Update.{Answer, rows}
use gotth_jobs.Table.Statements.Claiming.{claim_sql-one}
use gotth_jobs.Table.Statements.{Session}
use gotth_jobs.Table.Statements.Claim.{
  claimable, unlocked, ordered, due_at, lockable, claim_row, claim_sql, candidate_rows,
}
use gotth_jobs.Table.Statements.Disjoint.{in-lockable}

-- Rows that the statement may hand out now.
unfoldable pub eligible : Session → Bytes → Row → Bool
unfolding claimable unlocked
eligible session queue r = claimable session queue r && unlocked session r

ordered-IsOrder :
    (session : Session) (key : Row → ℕ) → IsOrder session.id_le → IsOrder (ordered session key)
unfolding ordered
ordered-IsOrder session key o = record {
  total = λ r s h. ground (arith, o.total r.id s.id);
  transitive = λ r s x h k. ground (arith, o.transitive r.id s.id x.id);
}

every_of {ℓ} : {A : Type ℓ} (p : A → Bool) (t : List A) → All (λ r. p r ≡ true) t → every p t ≡ true
unfolding every
every_of p [] h = refl
every_of p (r ∷ t) h = ground (arith, every_of p t h.1)

-- The identifier of one row selects that row.
begins : (l : List Row) (r : Row) → In r l → (c : Row) × (rest : List Row) × (l ≡ c ∷ rest)
begins [] r m = absurd m
begins (c ∷ rest) r m = (c, rest, refl)

-- a candidate, if any row is eligible, with what makes it the first in the order
module _ (session : Session) (o : IsOrder session.id_le) (queue : Bytes) (t : Table) where
  abbrev not_before : Row → Row → Bool
  not_before c r = not (eligible session queue r) || ordered session due_at c r

  eligible-lockable :
      (r : Row)
      → In r t
      → eligible session queue r ≡ true
      → In r (lockable session due_at (claimable session queue) t)
  unfolding lockable eligible
  eligible-lockable r m h =
      select-in (unlocked session) _ r
        (order_by-in (ordered session due_at) _ r
          (select-in (claimable session queue) t r m (ground arith)))
        (ground arith)

  implies : (a b : Bool) → (a ≡ true → b ≡ true) → (not a || b) ≡ true
  implies true b h = h refl
  implies false b h = refl

  -- Every eligible row comes after the first of the lockable rows.
  lockable-least :
      (c : Row) (rest : List Row)
      → lockable session due_at (claimable session queue) t ≡ c ∷ rest
      → every (not_before c) t ≡ true
  unfolding lockable eligible
  lockable-least c rest e = every_of (not_before c) t (
      All-of _ t λ r m. implies _ _ λ h.
        order_by-least (ordered session due_at) (ordered-IsOrder session due_at o)
          (unlocked session) (select (claimable session queue) t) c rest e r
          (select-in (claimable session queue) t r m (ground arith)) (ground arith))

  first_candidate :
      (r : Row)
      → In r t
      → eligible session queue r ≡ true
      → (c : Row) × In c t
        × (eligible session queue c ≡ true)
        × (candidate_rows session queue t ≡ c ∷ [])
        × (every (not_before c) t ≡ true)
  unfolding candidate_rows
  first_candidate r m h =
      let (c, rest, e) = begins _ r (eligible-lockable r m h) in
      let here = subst (In c) (sym e) (inl refl) in
      let (inside, passes, free) = in-lockable session due_at (claimable session queue) t c here in
      (
        c,
        inside,
        (unfold eligible unlocked in ground arith),
        ap (take 1) e,
        lockable-least c rest e,
      )

-- Claim hands out one job whenever a row is eligible: the row is pending and due, or running with an
-- expired lease and attempts left, and no other transaction holds it locked. The job handed out was
-- itself eligible, and no eligible row comes before it by due time, creation time and identifier, as in
-- the statement's ORDER BY: a pending row is due when it becomes available, a running one when its lease
-- ends, however early it was available.
pub claim_least :
    (session : Session) (queue token worker : Bytes) (micros : ℤ) (t : Table) (r : Row)
    → IsConsistent t
    → valid_lease_token token ≡ true
    → between 1 256 (length worker) ≡ true
    → IsOrder session.id_le
    → In r t
    → eligible session queue r ≡ true
    → (c : Row) × In c t
      × (eligible session queue c ≡ true)
      × ((claim_sql session queue token worker micros t).0
          ≡ rows (claim_row session token worker micros c ∷ []))
      × (every (λ x. not (eligible session queue x) || ordered session due_at c x) t ≡ true)
claim_least session queue token worker micros t r c ht hw o m h =
    let (x, inside, passes, only, least) = first_candidate session o queue t r m h in
    let (done, _, _, _, _) = claim_sql-one session queue token worker micros t c ht hw x only in
    (x, inside, passes, ap (λ (y : Answer × Table). y.0) done, least)
