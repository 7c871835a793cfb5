-- ===== src/Common/Sorting.antt =====
-- Insertion sort gives an ordered list, and what a selection of it begins with is least.
use mathlib.Core.Path.{◌≡◌, ap, subst}
use mathlib.Core.Logic.{inl, inr}
use mathlib.Core.Bool.{Bool, true, false}
use mathlib.Core.List.{List, [], ◌∷◌}
use native.Mathlib.Omega.{arith}
use gotth_jobs.Common.Tests.{Bool-cases}
use gotth_jobs.Common.Lists.{select, All}
use gotth_jobs.Common.Membership.{In, insert_by, order_by, order_by-in, All-at}

-- A Boolean order that decides between any two elements.
pub record IsOrder {A : Type 0} (le : A → A → Bool) : Type 0 where
  pub total : (a b : A) → le a b ≡ false → le b a ≡ true
  pub transitive : (a b c : A) → le a b ≡ true → le b c ≡ true → le a c ≡ true

abbrev pub IsSorted : {A : Type 0} → (A → A → Bool) → List A → Type 0
IsSorted le [] = Unit
IsSorted le (x ∷ xs) = All (λ y. le x y ≡ true) xs × IsSorted le xs

module _ {A : Type 0} (le : A → A → Bool) (o : IsOrder le) where
  insert_by-All :
      (a x : A) (t : List A)
      → le a x ≡ true
      → All (λ y. le a y ≡ true) t
      → All (λ y. le a y ≡ true) (insert_by le x t)
  unfolding insert_by
  insert_by-All a x [] h k = (h, tt)
  insert_by-All a x (s ∷ t) h k = ground (arith, insert_by-All a x t h k.1)

  All-trans :
      (a x : A) (t : List A)
      → le a x ≡ true
      → All (λ y. le x y ≡ true) t
      → All (λ y. le a y ≡ true) t
  All-trans a x [] h k = tt
  All-trans a x (y ∷ t) h k = (o.transitive a x y h k.0, All-trans a x t h k.1)

  insert_by-IsSorted : (x : A) (t : List A) → IsSorted le t → IsSorted le (insert_by le x t)
  unfolding insert_by
  insert_by-IsSorted x [] h = (tt, tt)
  insert_by-IsSorted x (s ∷ t) (hs, ht) = elim (Bool-cases (le x s)) [
    | inl e ↦ rw e ((e, All-trans x s t e hs), (hs, ht))
    | inr e ↦ rw e (insert_by-All s x t (o.total x s e) hs, insert_by-IsSorted x t ht)
  ]

  pub order_by-IsSorted : (t : List A) → IsSorted le (order_by le t)
  unfolding order_by
  order_by-IsSorted [] = tt
  order_by-IsSorted (x ∷ t) = insert_by-IsSorted x (order_by le t) (order_by-IsSorted t)

  pub le_self : (a : A) → le a a ≡ true
  le_self a = elim (Bool-cases (le a a)) [ inl e ↦ e | inr e ↦ o.total a a e ]

  head_of : {a b : A} {l m : List A} → a ∷ l ≡ b ∷ m → a ≡ b
  head_of e = cc

  at_or_after :
      (s : A) (t : List A) (r : A) → All (λ y. le s y ≡ true) t → In r (s ∷ t) → le s r ≡ true
  at_or_after s t r h (inl e) = subst (λ y. le s y ≡ true) e (le_self s)
  at_or_after s t r h (inr m) = All-at (λ y. le s y ≡ true) t r h m

  later :
      (q : A → Bool) (s : A) (t : List A) (r : A) → q s ≡ false → q r ≡ true → In r (s ∷ t) → In r t
  later q s t r p k (inl e) = cc (ap q e)
  later q s t r p k (inr m) = m

  -- What a selection of a sorted list begins with is least among the elements that it selects.
  sorted-least :
      (q : A → Bool) (t : List A) (x : A) (l : List A)
      → IsSorted le t
      → select q t ≡ x ∷ l
      → (r : A) → In r t
      → q r ≡ true
      → le x r ≡ true
  unfolding select
  sorted-least q [] x l h e r m k = cc
  sorted-least q (s ∷ t) x l h e r m k = elim (Bool-cases (q s)) [
    | inl p ↦
        let first : s ≡ x = head_of (rw p at e) in
        subst (λ y. le y r ≡ true) first (at_or_after s t r h.0 m)
    | inr p ↦ sorted-least q t x l h.1 (rw p at e) r (later q s t r p k m) k
  ]

  pub order_by-least :
      (q : A → Bool) (t : List A) (x : A) (l : List A)
      → select q (order_by le t) ≡ x ∷ l
      → (r : A) → In r t
      → q r ≡ true
      → le x r ≡ true
  order_by-least q t x l e r m k =
      sorted-least q (order_by le t) x l (order_by-IsSorted t) e r (order_by-in le t r m) k
