-- ===== src/Common/Membership.antt =====
-- Which elements a list, a selection and an ordered list have.
use Prim.Native.Nat.{ℕ, zero, suc}
use mathlib.Core.Path.{◌≡◌, refl, subst}
use mathlib.Core.Logic.{inl, inr}
use mathlib.Core.Bool.{Bool, true}
use mathlib.Core.List.{List, [], ◌∷◌}
use native.Mathlib.Omega.{arith}
use gotth_jobs.Common.Tests.{if◌then◌else◌}
use gotth_jobs.Common.Lists.{take, select, every, All, Any}

-- Insertion sort by a Boolean order.
unfoldable pub insert_by {ℓ} : {A : Type ℓ} → (A → A → Bool) → A → List A → List A
insert_by le r [] = r ∷ []
insert_by le r (s ∷ t) = if le r s then r ∷ s ∷ t else s ∷ insert_by le r t

unfoldable pub order_by {ℓ} : {A : Type ℓ} → (A → A → Bool) → List A → List A
unfolding insert_by
order_by le [] = []
order_by le (r ∷ t) = insert_by le r (order_by le t)

module _ {A : Type 0} where
  abbrev pub In : A → List A → Type 0
  In r = Any (λ s. s ≡ r)

  pub All-at : (P : A → Type 0) (t : List A) (r : A) → All P t → In r t → P r
  All-at P [] r h m = absurd m
  All-at P (s ∷ t) r h (inl e) = subst P e h.0
  All-at P (s ∷ t) r h (inr m) = All-at P t r h.1 m

  pub All-of : (P : A → Type 0) (t : List A) → ((r : A) → In r t → P r) → All P t
  All-of P [] h = tt
  All-of P (s ∷ t) h = (h s (inl refl), All-of P t (λ r m. h r (inr m)))

  pub in-select : (p : A → Bool) (t : List A) (r : A) → In r (select p t) → In r t × (p r ≡ true)
  unfolding select
  in-select p [] r m = absurd m
  in-select p (s ∷ t) r m = ground (arith, in-select p t r)

  pub select-in : (p : A → Bool) (t : List A) (r : A) → In r t → p r ≡ true → In r (select p t)
  unfolding select
  select-in p [] r m h = absurd m
  select-in p (s ∷ t) r m h = ground (arith, select-in p t r)

  pub in-take : (n : ℕ) (t : List A) (r : A) → In r (take n t) → In r t
  in-take zero t r m = absurd m
  in-take (suc n) [] r m = absurd m
  in-take (suc n) (s ∷ t) r (inl e) = inl e
  in-take (suc n) (s ∷ t) r (inr m) = inr (in-take n t r m)

  pub in-insert_by :
      (le : A → A → Bool) (x : A) (t : List A) (r : A) → In r (insert_by le x t) → In r (x ∷ t)
  unfolding insert_by
  in-insert_by le x [] r m = m
  in-insert_by le x (s ∷ t) r m = ground (arith, in-insert_by le x t r)

  pub insert_by-in :
      (le : A → A → Bool) (x : A) (t : List A) (r : A) → In r (x ∷ t) → In r (insert_by le x t)
  unfolding insert_by
  insert_by-in le x [] r m = m
  insert_by-in le x (s ∷ t) r m = ground (arith, insert_by-in le x t r)

  pub in-order_by : (le : A → A → Bool) (t : List A) (r : A) → In r (order_by le t) → In r t
  unfolding order_by
  in-order_by le [] r m = m
  in-order_by le (x ∷ t) r m =
      ground (arith, in-insert_by le x (order_by le t) r, in-order_by le t r)

  pub order_by-in : (le : A → A → Bool) (t : List A) (r : A) → In r t → In r (order_by le t)
  unfolding order_by
  order_by-in le [] r m = m
  order_by-in le (x ∷ t) r m =
      ground (arith, insert_by-in le x (order_by le t) r, order_by-in le t r)

  pub every-in : (p : A → Bool) (t : List A) (r : A) → every p t ≡ true → In r t → p r ≡ true
  unfolding every
  every-in p [] r h m = absurd m
  every-in p (s ∷ t) r h (inl e) = subst (λ x. p x ≡ true) e (ground arith)
  every-in p (s ∷ t) r h (inr m) = every-in p t r (ground arith) m
