-- ===== src/Table/Statements/Fencing.antt =====
-- Which rows an UPDATE touches, and that a lease token gives its holder, and nobody else, the row.
use gotth_jobs.Common.{
  ℤ, ◌≡◌, ◌≢◌, refl, sym, ap, subst, ◌∙◌, Bool, true, false, some, List, [], ◌∷◌, map, select, In,
  All, All-of, inl, inr, Bool-cases, arith, every, length,
}
use gotth_jobs.Bytes.{Bytes, bytes_eq, bytes_eq→eq, bytes_eq_iff}
use gotth_jobs.Types.{running}
use gotth_jobs.Table.{Row, Table, IsConsistent, HasUniqueIds, between}
use gotth_jobs.Values.Identifiers.{valid_lease_token}
use gotth_jobs.Table.Update.{Answer, rows, update, update_rows}
use gotth_jobs.Table.Statements.{Session, holds_lease, heartbeat_sql, complete_sql, fail_sql}
use gotth_jobs.Table.Statements.Claim.{claim_row, claim_sql}
use gotth_jobs.Table.Statements.Disjoint.{unique_row, claim_sql-cases}
use gotth_jobs.Table.Statements.Consistency.{claim_sql-Accepted}

pub update_rows-none :
    (p : Row → Bool) (f : Row → Row) (t : Table)
    → All (λ r. p r ≡ false) t
    → (select p t ≡ []) × (update_rows p f t ≡ t)
unfolding select update_rows
update_rows-none p f [] h = (refl, refl)
update_rows-none p f (r ∷ t) (h, hs) =
    let (a, b) = update_rows-none p f t hs in (rw h a, rw h (ap (λ (u : Table). r ∷ u) b))

-- An update whose condition no row meets answers no rows, and changes nothing.
pub update-none :
    (p : Row → Bool) (f : Row → Row) (t : Table)
    → All (λ r. p r ≡ false) t
    → update p f t ≡ (rows [], t)
unfolding update every
update-none p f t h = let (a, b) = update_rows-none p f t h in rw (a, b)

-- The rows that an update answers are rows of the table after it.
in-answered :
    (p : Row → Bool) (f : Row → Row) (t : Table) (x : Row)
    → In x (map f (select p t))
    → In x (update_rows p f t) × ((r : Row) × (f r ≡ x))
unfolding select update_rows
in-answered p f [] x m = absurd m
in-answered p f (r ∷ t) x m = elim (Bool-cases (p r)) [
  | inl e ↦ elim (rw e at m) [
    | inl q ↦ rw e (inl q, (r, q))
    | inr n ↦ let (here, from) = in-answered p f t x n in rw e (inr here, from)
  ]
  | inr e ↦ let (here, from) = in-answered p f t x (rw e at m) in rw e (inr here, from)
]

rows_eq : {a b : List Row} → rows a ≡ rows b → a ≡ b
rows_eq e = cc

-- A row that `claimSQL` answers is in the table, running, with the token of this claim.
pub claimed-row :
    (session : Session) (queue token worker : Bytes) (micros : ℤ) (t : Table) (answered : List Row)
    (t' : Table) (x : Row)
    → claim_sql session queue token worker micros t ≡ (rows answered, t')
    → In x answered
    → In x t' × (x.state ≡ running) × (x.lease_token ≡ some token)
unfolding claim_row
claimed-row session queue token worker micros t answered t' x e m =
    elim (claim_sql-cases session queue token worker micros t) [
      | inl refused ↦ cc (sym refused ∙ e)
      | inr done ↦
          let same = sym done ∙ e in
          let same_rows = rows_eq (ap (λ (y : Answer × Table). y.0) same) in
          let same_table = ap (λ (y : Answer × Table). y.1) same in
          let (here, (r, q)) = in-answered _ _ _ x (subst (In x) (sym same_rows) m) in
          (
            subst (In x) same_table here,
            sym (ap (λ (y : Row). y.state) q),
            sym (ap (λ (y : Row). y.lease_token) q),
          )
    ]

token_mismatch :
    (session : Session) (id old new : Bytes) (r : Row)
    → new ≢ old
    → r.lease_token ≡ some new
    → holds_lease session id old r ≡ false
unfolding holds_lease
token_mismatch session id old new r ne e = ground (arith, bytes_eq_iff new old)

other_id :
    (session : Session) (id token : Bytes) (r : Row)
    → r.id ≢ id
    → holds_lease session id token r ≡ false
unfolding holds_lease
other_id session id token r ne = ground (arith, bytes_eq_iff r.id id)

pub holds_lease-id :
    (session : Session) (id token : Bytes) (r : Row)
    → holds_lease session id token r ≡ true
    → r.id ≡ id
unfolding holds_lease
holds_lease-id session id token r h = ground (arith, bytes_eq→eq r.id id)

-- No row of a table answers to an old token of a job that has a new one.
superseded :
    (session : Session) (t : Table) (x : Row) (new old : Bytes)
    → HasUniqueIds t
    → In x t
    → x.lease_token ≡ some new
    → new ≢ old
    → All (λ r. holds_lease session x.id old r ≡ false) t
superseded session t x new old u m e ne = All-of _ t λ r n. elim (Bool-cases (bytes_eq r.id x.id)) [
  | inl i ↦
      token_mismatch session x.id old new r ne
        (ap (λ (y : Row). y.lease_token) (unique_row t r x u n m (bytes_eq→eq r.id x.id i)) ∙ e)
  | inr i ↦ other_id session x.id old r (λ j. cc ((bytes_eq_iff r.id x.id).1 j, i))
]

-- After a claim has given a job to a worker under a new token, Heartbeat, Complete and Fail with any
-- other token for that job change nothing and answer no row, at any later clock.
pub claim_fences :
    (session : Session) (queue token worker : Bytes) (micros : ℤ) (t : Table) (answered : List Row)
    (t' : Table) (x : Row) (later : Session) (old message : Bytes) (permanent : Bool)
    (delay extension : ℤ)
    → IsConsistent t
    → valid_lease_token token ≡ true
    → between 1 256 (length worker) ≡ true
    → claim_sql session queue token worker micros t ≡ (rows answered, t')
    → In x answered
    → token ≢ old
    → (heartbeat_sql later x.id old extension t' ≡ (rows [], t'))
      × (complete_sql later x.id old t' ≡ (rows [], t'))
      × (fail_sql later x.id old message permanent delay t' ≡ (rows [], t'))
unfolding heartbeat_sql complete_sql fail_sql
claim_fences session queue token worker micros t answered t' x later old message permanent delay
      extension c ht hw e m ne =
    let (here, _, has_token) = claimed-row session queue token worker micros t answered t' x e m in
    let kept : IsConsistent t' =
      subst (λ (y : Answer × Table). IsConsistent y.1) e
        (claim_sql-Accepted session queue t c token worker micros ht hw).1 in
    let none_holds = superseded later t' x token old kept.unique here has_token ne in
    (update-none _ _ t' none_holds, update-none _ _ t' none_holds, update-none _ _ t' none_holds)
