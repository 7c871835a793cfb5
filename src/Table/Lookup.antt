-- ===== src/Table/Lookup.antt =====
-- Reading and replacing the row of one identifier, and UPDATE in these terms.
use gotth_jobs.Common.{
  ◌≡◌, refl, sym, ap, ◌∙◌, Bool, true, false, Option, none, some, [], ◌∷◌, if◌then◌else◌,
  Bool-cases, inl, inr, In, All, All-of, All-at, select, ◌≢◌, map, every-in,
}
use gotth_jobs.Bytes.{Bytes, bytes_eq, bytes_eq→eq, bytes_eq_iff}
use gotth_jobs.Table.{Row, Table, HasUniqueIds, IsConsistent, satisfies_checks}
use gotth_jobs.Table.Update.{update_rows, update, rows, Keeps, update-IsConsistent}
use gotth_jobs.Table.Statements.Disjoint.{unique_row}

unfoldable pub find_row : Bytes → Table → Option Row
find_row id [] = none
find_row id (r ∷ t) = if bytes_eq r.id id then some r else find_row id t

-- The table with the row of its identifier replaced by `x`.
unfoldable pub put : Row → Table → Table
put x [] = []
put x (r ∷ t) = (if bytes_eq r.id x.id then x else r) ∷ put x t

pub some_row : {x r : Row} → some x ≡ some r → x ≡ r
some_row e = cc

pub find_row-some :
    (id : Bytes) (t : Table) (r : Row) → find_row id t ≡ some r → In r t × (r.id ≡ id)
unfolding find_row
find_row-some id [] r h = cc
find_row-some id (x ∷ t) r h = elim (Bool-cases (bytes_eq x.id id)) [
  | inl e ↦
      (let same : some x ≡ some r = rw e at h in
        (inl (some_row same), cc (bytes_eq→eq x.id id e, some_row same)))
  | inr e ↦ let (m, i) = find_row-some id t r (rw e at h) in (inr m, i)
]

pub find_row-none : (id : Bytes) (t : Table) → find_row id t ≡ none → All (λ r. r.id ≢ id) t
unfolding find_row
find_row-none id [] h = tt
find_row-none id (x ∷ t) h = elim (Bool-cases (bytes_eq x.id id)) [
  | inl e ↦ cc (rw e at h)
  | inr e ↦ ((λ i. cc ((bytes_eq_iff x.id id).1 i, e)), find_row-none id t (rw e at h))
]

pub find_row-in : (t : Table) (r : Row) → HasUniqueIds t → In r t → find_row r.id t ≡ some r
find_row-in t r u m = found (find_row r.id t) refl
  where
    found : (o : Option Row) → find_row r.id t ≡ o → o ≡ some r
    found none e = absurd (All-at (λ y. y.id ≢ r.id) t r (find_row-none r.id t e) m refl)
    found (some x) e = let (n, i) = find_row-some r.id t x e in ap some (unique_row t x r u n m i)

pub select-empty : (p : Row → Bool) (t : Table) → All (λ r. p r ≡ false) t → select p t ≡ []
unfolding select
select-empty p [] h = refl
select-empty p (r ∷ t) (h, hs) = rw h (select-empty p t hs)

-- A condition that only rows of the identifier of `r` meet, and that `r` meets, selects `r` alone.
pub select-single :
    (p : Row → Bool) (t : Table) (r : Row)
    → HasUniqueIds t
    → In r t
    → p r ≡ true
    → ((y : Row) → p y ≡ true → y.id ≡ r.id)
    → select p t ≡ r ∷ []
unfolding select
select-single p [] r u m h only = absurd m
select-single p (x ∷ t) r (new, u) (inl e) h only =
    let rest : All (λ y. p y ≡ false) t = All-of _ t λ y n. elim (Bool-cases (p y)) [
      | inl q ↦
          absurd (All-at (λ z. x.id ≢ z.id) t y new n (ap (λ (z : Row). z.id) e ∙ sym (only y q)))
      | inr q ↦ q
    ] in
    rw (e, h, select-empty p t rest) refl
select-single p (x ∷ t) r (new, u) (inr m) h only = elim (Bool-cases (p x)) [
  | inl q ↦ absurd (All-at (λ z. x.id ≢ z.id) t r new m (only x q))
  | inr q ↦ rw q (select-single p t r u m h only)
]

module _ (p : Row → Bool) (f : Row → Row) (all : Table) (r : Row) where
  -- On rows of the table, the update is a replacement of `r`.
  put_pointwise :
      (y : Row)
      → HasUniqueIds all
      → In r all
      → In y all
      → p r ≡ true
      → ((y : Row) → p y ≡ true → y.id ≡ r.id)
      → (f r).id ≡ r.id
      → (if p y then f y else y) ≡ (if bytes_eq y.id (f r).id then f r else y)
  put_pointwise y u m n h only same = elim (Bool-cases (p y)) [
    | inl q ↦
        let e = unique_row all y r u n m (only y q) in
        rw (e, h, same, (bytes_eq_iff r.id r.id).1 refl) refl
    | inr q ↦ elim (Bool-cases (bytes_eq y.id (f r).id)) [
      | inl b ↦ cc (h, q, ap p (unique_row all y r u n m (bytes_eq→eq y.id (f r).id b ∙ same)))
      | inr b ↦ rw (q, b) refl
    ]
  ]

  put_rows :
      (t : Table)
      → All (λ y. (if p y then f y else y) ≡ (if bytes_eq y.id (f r).id then f r else y)) t
      → update_rows p f t ≡ put (f r) t
  unfolding update_rows put
  put_rows [] h = refl
  put_rows (y ∷ t) (h, hs) = λ i. h i ∷ put_rows t hs i

-- An update that touches one row is a replacement.
pub update_rows-put :
    (p : Row → Bool) (f : Row → Row) (t : Table) (r : Row)
    → HasUniqueIds t
    → In r t
    → p r ≡ true
    → ((y : Row) → p y ≡ true → y.id ≡ r.id)
    → (f r).id ≡ r.id
    → update_rows p f t ≡ put (f r) t
update_rows-put p f t r u m h only same =
    put_rows p f t r t (All-of _ t λ y n. put_pointwise p f t r y u m n h only same)

-- An UPDATE that finds one row answers its new value and replaces it.
pub update-single :
    (p : Row → Bool) (f : Row → Row) (t : Table) (r : Row)
    → IsConsistent t
    → In r t
    → p r ≡ true
    → ((y : Row) → p y ≡ true → y.id ≡ r.id)
    → All (Keeps p f) t
    → ((y : Row) → (f y).id ≡ y.id)
    → update p f t ≡ (rows (f r ∷ []), put (f r) t)
update-single p f t r c m h only keep same =
    let answer = (update-IsConsistent p f t keep same c).0 in
    let one = select-single p t r c.unique m h only in
    let table = update_rows-put p f t r c.unique m h only (same r) in
    answer ∙ (λ i. (rows (map f (one i)), table i))

-- A row of a consistent table that an update keeps satisfies the constraints after it.
pub replaced-checked :
    (p : Row → Bool) (f : Row → Row) (t : Table) (r : Row)
    → IsConsistent t
    → In r t
    → p r ≡ true
    → All (Keeps p f) t
    → satisfies_checks (f r) ≡ true
replaced-checked p f t r c m h keep =
    All-at (Keeps p f) t r keep m h (every-in satisfies_checks t r c.checked m)
