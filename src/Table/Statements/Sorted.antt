-- ===== src/Table/Statements/Sorted.antt =====
-- Selections of sorted tables, and what stands before and after a row of a sorted table.
use gotth_jobs.Common.{
  ◌≡◌, ◌≢◌, refl, sym, ap, Bool, true, false, ◌&&◌, List, [], ◌∷◌, ◌++◌, select, All, inl, inr,
  Bool-cases, arith, order_by, insert_by, IsOrder, IsSorted, if◌then◌else◌, order_by-IsSorted,
}
use gotth_jobs.Bytes.{Bytes}
use gotth_jobs.Table.{Row, Table, HasUniqueIds, HasNewId}

All-select :
    {A : Type 0} (P : A → Type 0) (q : A → Bool) (t : List A) → All P t → All P (select q t)
unfolding select
All-select P q [] h = tt
All-select P q (s ∷ t) h = ground (arith, All-select P q t h.1)

-- Sorting and selecting commute.
module _ {A : Type 0} (le : A → A → Bool) (o : IsOrder le) (q : A → Bool) where
  insert_by-least : (x : A) (t : List A) → All (λ y. le x y ≡ true) t → insert_by le x t ≡ x ∷ t
  unfolding insert_by
  insert_by-least x [] h = refl
  insert_by-least x (s ∷ t) h = rw h.0

  All-trans :
      (x s : A) (t : List A)
      → le x s ≡ true
      → All (λ y. le s y ≡ true) t
      → All (λ y. le x y ≡ true) t
  All-trans x s [] h k = tt
  All-trans x s (y ∷ t) h k = (o.transitive x s y h k.0, All-trans x s t h k.1)

  put_first :
      (x : A) (t : List A)
      → All (λ y. le x y ≡ true) (select q t)
      → select q (x ∷ t) ≡ (if q x then insert_by le x (select q t) else select q t)
  unfolding select
  put_first x t h = ground (arith, insert_by-least x (select q t) h)

  put_later :
      (x s : A) (l : List A)
      → le x s ≡ false
      → (if q s
          then s ∷ (if q x then insert_by le x l else l)
          else (if q x then insert_by le x l else l))
        ≡ (if q x then insert_by le x (if q s then s ∷ l else l) else (if q s then s ∷ l else l))
  unfolding insert_by
  put_later x s l e = ground arith

  select-insert_by :
      (x : A) (t : List A)
      → IsSorted le t
      → select q (insert_by le x t) ≡ (if q x then insert_by le x (select q t) else select q t)
  unfolding select insert_by
  select-insert_by x [] h = refl
  select-insert_by x (s ∷ t) h = elim (Bool-cases (le x s)) [
    | inl e ↦
        let after = All-select (λ y. le x y ≡ true) q (s ∷ t) (e, All-trans x s t e h.0) in
        rw e (put_first x (s ∷ t) after)
    | inr e ↦ rw (e, select-insert_by x t h.1) (put_later x s (select q t) e)
  ]

  pub select-order_by : (t : List A) → order_by le (select q t) ≡ select q (order_by le t)
  unfolding select order_by
  select-order_by [] = refl
  select-order_by (x ∷ t) =
      rw (select-insert_by x (order_by le t) (order_by-IsSorted le o t), sym (select-order_by t))
        (chosen x (select q t))
    where
      chosen :
          (x : A) (l : List A)
          → order_by le (if q x then x ∷ l else l)
            ≡ (if q x then insert_by le x (order_by le l) else order_by le l)
      chosen x l = ground arith

module _ {A : Type 0} (p q : A → Bool) where
  pub select-select : (t : List A) → select (λ x. p x && q x) t ≡ select q (select p t)
  unfolding select
  select-select [] = refl
  select-select (x ∷ t) = ground (arith, select-select t)

module _ {A : Type 0} (q : A → Bool) where
  pub select-append : (l m : List A) → select q (l ++ m) ≡ select q l ++ select q m
  unfolding select
  select-append [] m = refl
  select-append (x ∷ l) m = ground (arith, select-append l m)

  pub select_every : (l : List A) → All (λ x. q x ≡ true) l → select q l ≡ l
  unfolding select
  select_every [] h = refl
  select_every (x ∷ l) (h, hs) = rw h (ap (λ (m : List A). x ∷ m) (select_every l hs))

  pub select-none : (l : List A) → All (λ x. q x ≡ false) l → select q l ≡ []
  unfolding select
  select-none [] h = refl
  select-none (x ∷ l) (h, hs) = rw h (select-none l hs)

pub select-skip :
    {A : Type 0} (q : A → Bool) (x : A) (l : List A) → q x ≡ false → select q (x ∷ l) ≡ select q l
unfolding select
select-skip q x l h = rw h refl

pub select-true :
    {A : Type 0} (p : A → Bool) (l : List A) → select (λ x. p x && true) l ≡ select p l
unfolding select
select-true p [] = refl
select-true p (x ∷ l) = ground (arith, select-true p l)

All-before :
    {A : Type 0} (P : A → Type 0) (l : List A) (r : A) (m : List A) → All P (l ++ r ∷ m) → P r
All-before P [] r m h = h.0
All-before P (x ∷ l) r m h = All-before P l r m h.1

-- Around an element of a sorted list.
pub sorted_around :
    {A : Type 0} (le : A → A → Bool) (l : List A) (r : A) (m : List A)
    → IsSorted le (l ++ r ∷ m)
    → All (λ x. le x r ≡ true) l × All (λ y. le r y ≡ true) m
sorted_around le [] r m h = (tt, h.0)
sorted_around le (x ∷ l) r m h =
    let (a, b) = sorted_around le l r m h.1 in ((All-before (λ y. le x y ≡ true) l r m h.0, a), b)

pub unique_after :
    (l : List Row) (r : Row) (m : List Row) → HasUniqueIds (l ++ r ∷ m) → HasNewId r.id m
unique_after [] r m h = h.0
unique_after (x ∷ l) r m h = unique_after l r m h.1

HasNewId-insert_by :
    (le : Row → Row → Bool) (id : Bytes) (x : Row) (t : Table)
    → id ≢ x.id
    → HasNewId id t
    → HasNewId id (insert_by le x t)
unfolding insert_by
HasNewId-insert_by le id x [] n h = (n, tt)
HasNewId-insert_by le id x (s ∷ t) n h = elim (Bool-cases (le x s)) [
  | inl e ↦ rw e (n, h)
  | inr e ↦ rw e (h.0, HasNewId-insert_by le id x t n h.1)
]

HasUniqueIds-insert_by :
    (le : Row → Row → Bool) (x : Row) (t : Table)
    → HasNewId x.id t
    → HasUniqueIds t
    → HasUniqueIds (insert_by le x t)
unfolding insert_by
HasUniqueIds-insert_by le x [] n h = (tt, tt)
HasUniqueIds-insert_by le x (s ∷ t) n h = elim (Bool-cases (le x s)) [
  | inl e ↦ rw e (n, h)
  | inr e ↦
      rw e (
        HasNewId-insert_by le s.id x t (λ i. n.0 (sym i)) h.0,
        HasUniqueIds-insert_by le x t n.1 h.1,
      )
]

HasNewId-order_by :
    (le : Row → Row → Bool) (id : Bytes) (t : Table) → HasNewId id t → HasNewId id (order_by le t)
unfolding order_by
HasNewId-order_by le id [] h = tt
HasNewId-order_by le id (x ∷ t) h =
    HasNewId-insert_by le id x (order_by le t) h.0 (HasNewId-order_by le id t h.1)

pub HasUniqueIds-order_by :
    (le : Row → Row → Bool) (t : Table) → HasUniqueIds t → HasUniqueIds (order_by le t)
unfolding order_by
HasUniqueIds-order_by le [] h = tt
HasUniqueIds-order_by le (x ∷ t) h =
    HasUniqueIds-insert_by le x (order_by le t) (HasNewId-order_by le x.id t h.0)
      (HasUniqueIds-order_by le t h.1)

pub HasUniqueIds-select : (p : Row → Bool) (t : Table) → HasUniqueIds t → HasUniqueIds (select p t)
unfolding select
HasUniqueIds-select p [] h = tt
HasUniqueIds-select p (x ∷ t) (n, h) = elim (Bool-cases (p x)) [
  | inl e ↦ rw e (All-select (λ y. x.id ≢ y.id) p t n, HasUniqueIds-select p t h)
  | inr e ↦ rw e (HasUniqueIds-select p t h)
]
