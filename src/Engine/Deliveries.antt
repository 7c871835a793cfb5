-- ===== src/Engine/Deliveries.antt =====
-- How often a job can be handed out before somebody redrives it.
use gotth_jobs.Common.{
  ℕ, ℤ, suc, ◌+◌, ◌≤◌, ◌≡◌, refl, sym, subst, ap, ◌∙◌, Bool, true, false, In, in-select, All, List,
  [], ◌∷◌, inl, inr, Bool-cases, ◌||◌, arith, map, if◌then◌else◌, every-in,
}
use gotth_jobs.Bytes.{Bytes, bytes_eq, bytes_eq→eq}
use gotth_jobs.Postgres.{
  claim_statement, complete_statement, fail_statement, cancel_statement, redrive_statement,
  get_statement, enqueue_statement,
}
use gotth_jobs.Engine.{execute, Statement, IsLegal, job_statement, heartbeat_statement}
use gotth_jobs.Engine.Finds.{Survives, execute-Finds}
use gotth_jobs.Engine.Consistency.{execute-IsConsistent}
use gotth_jobs.Table.{Row, Table, IsConsistent, satisfies_checks}
use gotth_jobs.Table.Update.{Answer, rows, constraint_violation}
use gotth_jobs.Table.Decoded.Fits.{attempts_measured}
use gotth_jobs.Table.Statements.{
  Session, redrivable, heartbeat_row, complete_row, fail_row, cancel_row, id_among,
}
use gotth_jobs.Table.Statements.Claim.{claim_sql, claim_row, exhausted_row, expired_rows}
use gotth_jobs.Table.Statements.Checks.{checked→}
use gotth_jobs.Table.Statements.Consistency.{in-update_rows}
use gotth_jobs.Table.Statements.Disjoint.{unique_row, claim_sql-cases}
use gotth_jobs.Table.Statements.Fencing.{claimed-row}

-- The answer of a claim has the job.
abbrev pub has_id : Bytes → List Row → Bool
has_id id [] = false
has_id id (x ∷ l) = bytes_eq x.id id || has_id id l

abbrev pub answer_has : Bytes → Answer → Bool
answer_has id (rows l) = has_id id l
answer_has id constraint_violation = false

abbrev pub hands_out : Bytes → Statement → Answer → Bool
hands_out id (job_statement (claim_statement queue token worker micros)) answer =
    answer_has id answer
hands_out id _ answer = false

-- How many claims of a history hand out the job.
unfoldable pub deliveries : Bytes → Table → List (Session × Statement) → ℕ
unfolding execute
deliveries id t [] = 0
deliveries id t ((session, s) ∷ rest) =
    (if hands_out id s (execute session s t).0 then 1 else 0)
    + deliveries id (execute session s t).1 rest

abbrev pub redrives : Bytes → Statement → Bool
redrives id (job_statement (redrive_statement other)) = bytes_eq id other
redrives id _ = false

-- The row keeps its budget, and has had at least `n` attempts.
abbrev HasHad : ℕ → Row → Row → Type 0
HasHad n r x = (x.id ≡ r.id) × (x.max_attempts ≡ r.max_attempts) × (n ≤ x.attempts)

keeps_attempts :
    (session : Session) (r : Row) (s : Statement)
    → redrives r.id s ≡ false
    → Survives (HasHad r.attempts r) session s r
unfolding exhausted_row claim_row heartbeat_row complete_row fail_row cancel_row redrivable
keeps_attempts session r (job_statement (enqueue_statement id q k p key fp m a)) h = tt
keeps_attempts session r (job_statement (claim_statement queue token worker micros)) h =
    ((λ e. (refl, refl, omega arith)), λ e. (refl, refl, omega arith))
keeps_attempts session r (job_statement (complete_statement id token)) h =
    λ e. (refl, refl, omega arith)
keeps_attempts session r (job_statement (fail_statement id token message permanent micros)) h =
    λ e. (refl, refl, omega arith)
keeps_attempts session r (job_statement (cancel_statement id)) h = λ e. (refl, refl, omega arith)
keeps_attempts session r (job_statement (redrive_statement id)) h = λ e. ground arith
keeps_attempts session r (job_statement (get_statement id)) h = tt
keeps_attempts session r (heartbeat_statement id token micros) h = λ e. (refl, refl, omega arith)

in-map : (f : Row → Row) (l : List Row) (x : Row) → In x (map f l) → (y : Row) × In y l × (f y ≡ x)
in-map f [] x m = absurd m
in-map f (y ∷ l) x (inl e) = (y, inl refl, e)
in-map f (y ∷ l) x (inr m) = let (z, n, e) = in-map f l x m in (z, inr n, e)

has_id→in : (id : Bytes) (l : List Row) → has_id id l ≡ true → (x : Row) × In x l × (x.id ≡ id)
has_id→in id [] h = cc
has_id→in id (x ∷ l) h = elim (Bool-cases (bytes_eq x.id id)) [
  | inl e ↦ (x, inl refl, bytes_eq→eq x.id id e)
  | inr e ↦ let (y, m, i) = has_id→in id l (rw e at h) in (y, inr m, i)
]

answered_rows : {a b : List Row} → rows a ≡ rows b → a ≡ b
answered_rows e = cc

-- A row that a claim answers has had one attempt more than the row that it was.
claimed_from :
    (session : Session) (queue token worker : Bytes) (micros : ℤ) (t : Table) (l : List Row)
    (x : Row)
    → (claim_sql session queue token worker micros t).0 ≡ rows l
    → In x l
    → (r : Row) × In r t
      × (x.id ≡ r.id)
      × (x.max_attempts ≡ r.max_attempts)
      × (x.attempts ≡ suc r.attempts)
unfolding claim_row exhausted_row
claimed_from session queue token worker micros t l x e m =
    elim (claim_sql-cases session queue token worker micros t) [
      | inl refused ↦ cc (ap (λ (y : Answer × Table). y.0) refused, e)
      | inr done ↦
          let (y, n, claimed) = in-map (claim_row session token worker micros) _ x (
            subst (In x) (sym (answered_rows (sym (ap (λ (z : Answer × Table). z.0) done) ∙ e)))
              m) in
          let (r, k, was) =
            in-update_rows (id_among (expired_rows session queue t)) (exhausted_row session) t y
              (in-select _ _ y n).0 in
          let (i, budget, had) =
            same_row (id_among (expired_rows session queue t) r) r y x was claimed in
          (r, k, i, budget, had)
    ]
  where
    same_row :
        (b : Bool) (r y x : Row)
        → (if b then exhausted_row session r else r) ≡ y
        → claim_row session token worker micros y ≡ x
        → (x.id ≡ r.id) × (x.max_attempts ≡ r.max_attempts) × (x.attempts ≡ suc r.attempts)
    same_row true r y x e f = (
      sym (ap (λ (z : Row). z.id) f) ∙ sym (ap (λ (z : Row). z.id) e),
      sym (ap (λ (z : Row). z.max_attempts) f) ∙ sym (ap (λ (z : Row). z.max_attempts) e),
      omega (arith, ap (λ (z : Row). z.attempts) f, ap (λ (z : Row). z.attempts) e),
    )
    same_row false r y x e f = (
      sym (ap (λ (z : Row). z.id) f) ∙ sym (ap (λ (z : Row). z.id) e),
      sym (ap (λ (z : Row). z.max_attempts) f) ∙ sym (ap (λ (z : Row). z.max_attempts) e),
      omega (arith, ap (λ (z : Row). z.attempts) f, ap (λ (z : Row). z.attempts) e),
    )

-- A claim that hands out the job counts an attempt.
handed_out :
    (session : Session) (queue token worker : Bytes) (micros : ℤ) (t : Table) (r : Row)
    (answer : Answer)
    → IsConsistent t
    → In r t
    → (claim_sql session queue token worker micros t).0 ≡ answer
    → answer_has r.id answer ≡ true
    → (x : Row) × In x (claim_sql session queue token worker micros t).1
      × HasHad (1 + r.attempts) r x
handed_out session queue token worker micros t r constraint_violation c m e h = cc
handed_out session queue token worker micros t r (rows l) c m e h =
    let (x, n, i) = has_id→in r.id l h in
    let (y, k, same_id, budget, attempts) =
      claimed_from session queue token worker micros t l x e n in
    let is_r = unique_row t y r c.unique k m (sym same_id ∙ i) in
    let (here, _, _) =
      claimed-row session queue token worker micros t l
        (claim_sql session queue token worker micros t).1 x
        (ap (λ (a : Answer). (a, (claim_sql session queue token worker micros t).1)) e) n in
    (
      x,
      here,
      (
        i,
        budget ∙ ap (λ (z : Row). z.max_attempts) is_r,
        omega (arith, attempts, ap (λ (z : Row). z.attempts) is_r),
      ),
    )

counted_claim :
    (session : Session) (s : Statement) (t : Table) (r : Row)
    → IsConsistent t
    → In r t
    → hands_out r.id s (execute session s t).0 ≡ true
    → (x : Row) × In x (execute session s t).1 × HasHad (1 + r.attempts) r x
unfolding execute
counted_claim session (job_statement (claim_statement queue token worker micros)) t r c m e =
    handed_out session queue token worker micros t r
      (claim_sql session queue token worker micros t).0 c m refl e
counted_claim session (job_statement (enqueue_statement id q k p key fp n a)) t r c m e = cc
counted_claim session (job_statement (complete_statement id token)) t r c m e = cc
counted_claim session (job_statement (fail_statement id token message permanent micros)) t r c m e =
    cc
counted_claim session (job_statement (cancel_statement id)) t r c m e = cc
counted_claim session (job_statement (redrive_statement id)) t r c m e = cc
counted_claim session (job_statement (get_statement id)) t r c m e = cc
counted_claim session (heartbeat_statement id token micros) t r c m e = cc

-- A statement other than a redrive of the job: the attempts count every time that it is handed out.
counted_step :
    (session : Session) (s : Statement) (t : Table) (r : Row)
    → IsConsistent t
    → In r t
    → redrives r.id s ≡ false
    → (x : Row) × In x (execute session s t).1
      × HasHad ((if hands_out r.id s (execute session s t).0 then 1 else 0) + r.attempts) r x
counted_step session s t r c m h = elim (Bool-cases (hands_out r.id s (execute session s t).0)) [
  | inl e ↦ rw e (counted_claim session s t r c m e)
  | inr e ↦
      let (x, n, (i, budget, had)) =
        execute-Finds (HasHad r.attempts r) session s t r c m (refl, refl, omega arith)
          (keeps_attempts session r s h) in
      rw e (x, n, (i, budget, omega (arith, had)))
]

within_budget : (r : Row) → satisfies_checks r ≡ true → r.attempts ≤ r.max_attempts
within_budget r h = (attempts_measured r.state r.attempts r.max_attempts (checked→ r h).attempted).0

-- Whatever statements are sent, by however many workers and with whatever clocks, a job is handed out
-- at most as often as its budget of attempts has left, until somebody redrives it.
pub deliveries_end :
    (t : Table) (history : List (Session × Statement)) (r : Row)
    → All (λ (session, s). IsLegal s × (redrives r.id s ≡ false)) history
    → IsConsistent t
    → In r t
    → deliveries r.id t history + r.attempts ≤ r.max_attempts
unfolding deliveries
deliveries_end t [] r h c m =
    omega (arith, within_budget r (every-in satisfies_checks t r c.checked m))
deliveries_end t ((session, s) ∷ rest) r ((legal, apart), hs) c m =
    let (x, n, (i, budget, had)) = counted_step session s t r c m apart in
    let ih =
      deliveries_end (execute session s t).1 rest x
        (subst (λ z. All (λ (session, s). IsLegal s × (redrives z s ≡ false)) rest) (sym i) hs)
        (execute-IsConsistent session s t legal c) n in
    let counts = ap (λ z. deliveries z (execute session s t).1 rest) i in
    omega (arith, ih, counts, budget, had)
