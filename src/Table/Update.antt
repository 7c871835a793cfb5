-- ===== src/Table/Update.antt =====
-- UPDATE … WHERE … RETURNING on a table, and ORDER BY.
use gotth_jobs.Common.{
  ◌≡◌, refl, Bool, true, List, [], ◌∷◌, map, if◌then◌else◌, every, select, arith, subst, All,
}
use gotth_jobs.Bytes.{Bytes}
use gotth_jobs.Table.{Row, Table, satisfies_checks, IsConsistent, HasNewId, HasUniqueIds}

-- Rows that pass the WHERE clause are replaced, the others stay.
unfoldable pub update_rows : (Row → Bool) → (Row → Row) → Table → Table
update_rows p f [] = []
update_rows p f (r ∷ t) = (if p r then f r else r) ∷ update_rows p f t

-- The answer to a statement: its rows, or an error that leaves the table as it was.
pub data Answer : Type 0 where
  rows : List Row → Answer
  constraint_violation : Answer

unfoldable pub update : (Row → Bool) → (Row → Row) → Table → Answer × Table
unfolding update_rows select every
update p f t =
    if every satisfies_checks (map f (select p t))
    then (rows (map f (select p t)), update_rows p f t)
    else (constraint_violation, t)

-- What an update must keep of each row that it changes.
abbrev pub Keeps : (Row → Bool) → (Row → Row) → Row → Type 0
Keeps p f r = p r ≡ true → satisfies_checks r ≡ true → satisfies_checks (f r) ≡ true

module _ (p : Row → Bool) (f : Row → Row) where
  -- An update that keeps the checks of each row that it changes is not refused, and keeps them all.
  pub update-checked :
      (t : Table)
      → All (Keeps p f) t
      → every satisfies_checks t ≡ true
      → (every satisfies_checks (map f (select p t)) ≡ true)
        × (every satisfies_checks (update_rows p f t) ≡ true)
  unfolding update_rows every select
  update-checked [] keep h = (refl, refl)
  update-checked (r ∷ t) keep h = ground (arith, keep.0, update-checked t keep.1)

  HasNewId-update_rows :
      (id : Bytes) (t : Table)
      → ((r : Row) → (f r).id ≡ r.id)
      → HasNewId id t
      → HasNewId id (update_rows p f t)
  unfolding update_rows
  HasNewId-update_rows id [] same h = tt
  HasNewId-update_rows id (r ∷ t) same (h, hs) =
      (ground (arith, same r), HasNewId-update_rows id t same hs)

  replaced_id : (r : Row) → ((r : Row) → (f r).id ≡ r.id) → r.id ≡ (if p r then f r else r).id
  replaced_id r same = ground (arith, same r)

  pub HasUniqueIds-update_rows :
      (t : Table)
      → ((r : Row) → (f r).id ≡ r.id)
      → HasUniqueIds t
      → HasUniqueIds (update_rows p f t)
  unfolding update_rows
  HasUniqueIds-update_rows [] same h = tt
  HasUniqueIds-update_rows (r ∷ t) same (h, hs) = (
    subst (λ i. HasNewId i (update_rows p f t)) (replaced_id r same)
        (HasNewId-update_rows r.id t same h),
    HasUniqueIds-update_rows t same hs,
  )

  -- Such an update is answered with the changed rows, and keeps the table consistent.
  pub update-IsConsistent :
      (t : Table)
      → All (Keeps p f) t
      → ((r : Row) → (f r).id ≡ r.id)
      → IsConsistent t
      → (update p f t ≡ (rows (map f (select p t)), update_rows p f t))
        × IsConsistent (update_rows p f t)
  unfolding update
  update-IsConsistent t keep same c = (
    rw (update-checked t keep c.checked).0,
    record {
      checked = (update-checked t keep c.checked).1;
      unique = HasUniqueIds-update_rows t same c.unique;
    },
  )
