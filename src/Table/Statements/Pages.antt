-- ===== src/Table/Statements/Pages.antt =====
-- The pages of listDeadSQL are consecutive pieces of one ordered list of the dead letters.
use gotth_jobs.Bytes.{Bytes}
use gotth_jobs.Table.Statements.{Session}
use gotth_jobs.Table.{finished_shape, Row, Table, satisfies_checks, IsConsistent}
use gotth_jobs.Table.Statements.Reads.{dead_in, dead_le, past_cursor}
use gotth_jobs.Common.{
  ℕ, pos, ◌≡◌, ◌≢◌, refl, ap, subst, ◌∙◌, sym, Bool, true, false, not, Option, none, some, List, [],
  ◌∷◌, ◌++◌, select, take, In, All, arith, order_by, IsOrder, IsSorted, order_by-IsSorted, le_self,
  in-select, in-order_by, every-in, inl, inr,
}
use gotth_jobs.Types.{dead}
use gotth_jobs.Table.Statements.Checks.{checked→, in_state→eq}
use gotth_jobs.Table.Statements.Sorted.{
  select-order_by, select-select, select-append, select_every, select-none, sorted_around,
  unique_after, HasUniqueIds-order_by, HasUniqueIds-select, select-skip, select-true,
}
use gotth_jobs.Table.{IsConsistent, HasUniqueIds, HasNewId}
use gotth_jobs.Table.Statements.Reads.{past_cursor, list_dead_sql}

-- The dead letters of a queue from the oldest on.
unfoldable pub dead_letters : Session → Bytes → Table → List Row
unfolding order_by dead_le select dead_in
dead_letters session queue t = order_by (dead_le session) (select (dead_in queue) t)

dead_le-IsOrder : (session : Session) → IsOrder session.id_le → IsOrder (dead_le session)
unfolding dead_le
dead_le-IsOrder session o = record {
  total = λ r s h. ground (arith, o.total r.id s.id);
  transitive = λ r s x h k. ground (arith, o.transitive r.id s.id x.id);
}

-- The order of the identifiers decides between different ones.
abbrev pub IsAntisymmetric : (Bytes → Bytes → Bool) → Type 0
IsAntisymmetric le = (a b : Bytes) → le a b ≡ true → le b a ≡ true → a ≡ b

finished_of : (f : Option ℕ) → finished_shape dead f ≡ true → (n : ℕ) × (f ≡ some n)
unfolding finished_shape
finished_of none h = cc
finished_of (some n) h = (n, refl)

-- A dead row of a consistent table has the time of its end.
dead-finished :
    (queue : Bytes) (r : Row)
    → satisfies_checks r ≡ true
    → dead_in queue r ≡ true
    → (n : ℕ) × (r.finished_at ≡ some n)
unfolding dead_in
dead-finished queue r c d =
    let is_dead : r.state ≡ dead = in_state→eq r.state dead (ground arith) in
    finished_of r.finished_at
      (subst (λ s. finished_shape s r.finished_at ≡ true) is_dead (checked→ r c).finished)

-- The cursor of a row passes what is not up to it in the order.
past_not :
    (session : Session) (r x : Row) (f : Option ℕ) (n : ℕ)
    → r.finished_at ≡ f
    → f ≡ some n
    → past_cursor session r.finished_at r.id x ≡ not (dead_le session x r)
unfolding past_cursor dead_le
past_not session r x none n e f = cc
past_not session r x (some m) n e f = rw e (ground arith)

module _ (session : Session) (o : IsOrder session.id_le)
    (anti : IsAntisymmetric session.id_le) where
  later_only : (r x : Row) → r.id ≢ x.id → dead_le session r x ≡ true → dead_le session x r ≡ false
  unfolding dead_le
  later_only r x ne h = ground (arith, anti r.id x.id)

  module _ (queue : Bytes) (t : Table) (c : IsConsistent t) (before : List Row) (r : Row)
      (rest : List Row) (e : dead_letters session queue t ≡ before ++ r ∷ rest) where
    abbrev past : Row → Bool
    past = past_cursor session r.finished_at r.id

    sorted : IsSorted (dead_le session) (before ++ r ∷ rest)
    unfolding dead_letters
    sorted =
        subst (IsSorted (dead_le session)) e (
          order_by-IsSorted (dead_le session) (dead_le-IsOrder session o)
            (select (dead_in queue) t))

    unique : HasUniqueIds (before ++ r ∷ rest)
    unfolding dead_letters
    unique =
        subst HasUniqueIds e (
          HasUniqueIds-order_by (dead_le session) _
            (HasUniqueIds-select (dead_in queue) t c.unique))

    pub in_middle : (l : List Row) → In r (l ++ r ∷ rest)
    in_middle [] = inl refl
    in_middle (x ∷ l) = inr (in_middle l)

    pub finished : (n : ℕ) × (r.finished_at ≡ some n)
    unfolding dead_letters
    finished =
        let inside = in-order_by (dead_le session) _ r (subst (In r) (sym e) (in_middle before)) in
        let (m, d) = in-select (dead_in queue) t r inside in
        dead-finished queue r (every-in satisfies_checks t r c.checked m) d

    past_before :
        (l : List Row) → All (λ x. dead_le session x r ≡ true) l → All (λ x. past x ≡ false) l
    past_before [] h = tt
    past_before (x ∷ l) (h, hs) =
        (past_not session r x _ finished.0 refl finished.1 ∙ ap not h, past_before l hs)

    past_after :
        (l : List Row)
        → HasNewId r.id l
        → All (λ x. dead_le session r x ≡ true) l
        → All (λ x. past x ≡ true) l
    past_after [] n h = tt
    past_after (x ∷ l) (n, ns) (h, hs) = (
      past_not session r x _ finished.0 refl finished.1 ∙ ap not (later_only r x n h),
      past_after l ns hs,
    )

    past_self : past r ≡ false
    past_self =
        past_not session r r _ finished.0 refl finished.1
        ∙ ap not (le_self (dead_le session) (dead_le-IsOrder session o) r)

    past_rest : select past (before ++ r ∷ rest) ≡ rest
    past_rest =
        let (before_r, after_r) = sorted_around (dead_le session) before r rest sorted in
        select-append past before (r ∷ rest)
        ∙ rw (
          select-none past before (past_before before before_r),
          select-skip past r rest past_self,
          select_every past rest (past_after rest (unique_after before r rest unique) after_r),
        )

    -- The dead letters of a queue have one order, by the time of their end and the identifier. A
    -- page without a cursor is the start of it, and a page whose cursor is the job `r` is what
    -- follows `r`: following the cursors gives every dead letter once.
    pub pages_continue :
        (id : Bytes) (limit : ℕ)
        → (list_dead_sql session queue none id (pos limit) t ≡ take limit (before ++ r ∷ rest))
          × (list_dead_sql session queue r.finished_at r.id (pos limit) t ≡ take limit rest)
    unfolding list_dead_sql dead_letters
    pages_continue id limit = (
      ap (take limit) (ap (order_by (dead_le session)) (select-true (dead_in queue) t) ∙ e),
      ap (take limit) (
          ap (order_by (dead_le session)) (select-select (dead_in queue) past t)
          ∙ select-order_by (dead_le session) (dead_le-IsOrder session o) past
              (select (dead_in queue) t)
          ∙ ap (select past) e
          ∙ past_rest),
    )
