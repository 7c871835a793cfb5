-- ===== src/Worker/Message/Repair.antt =====
-- What ToValidUTF8 and the replacement of NUL give is valid UTF-8, and they keep a text that needs no repair.
use gotth_jobs.Values.Utf8.Texts.{rune-valid, valid-rune}
use gotth_jobs.Common.{
  if◌then◌else◌, ℕ, zero, suc, ◌≡◌, refl, Bool, true, false, [], ◌∷◌, ◌++◌, arith, Bool-cases,
  subst, not, sym, ◌==◌, inl, ◌-◌, inr, ap, every, ◌∙◌,
}
use gotth_jobs.Bytes.{Bytes}
use gotth_jobs.Values.Utf8.{valid_from, rune_length, is_continuation}
use gotth_jobs.Values.Utf8.Runes.{Continues, Agrees, rune-Continues, rune-Agrees}
use gotth_jobs.Worker.Message.{replacement, to_valid_from, replace_nul}

replacement_valid : (m : Bytes) → valid_from 0 m ≡ true → valid_from 0 (replacement ++ m) ≡ true
unfolding valid_from
replacement_valid [] h = refl
replacement_valid (b ∷ m) h = h

Agrees-copy :
    (k : ℕ) (invalid : Bool) (m : Bytes) → Continues k m → Agrees k m (to_valid_from invalid k m)
unfolding to_valid_from
Agrees-copy zero invalid m c = tt
Agrees-copy (suc k) invalid [] c = absurd c
Agrees-copy (suc k) invalid (b ∷ m) c = (refl, Agrees-copy k false m c.1)

abbrev chosen : Bool → ℕ → Bytes → ℕ → Bytes
chosen invalid b m n =
    if not (n == 0)
    then b ∷ to_valid_from (n == 0) (n - 1) m
    else (if invalid
        then to_valid_from (n == 0) (n - 1) m
        else replacement ++ to_valid_from (n == 0) (n - 1) m)

to_valid_from-cons :
    (invalid : Bool) (b : ℕ) (m : Bytes)
    → to_valid_from invalid 0 (b ∷ m) ≡ chosen invalid b m (rune_length (b ∷ m))
unfolding to_valid_from
to_valid_from-cons invalid b m = refl

chosen-suc :
    (invalid : Bool) (b : ℕ) (m : Bytes) (k : ℕ)
    → chosen invalid b m (suc k) ≡ b ∷ to_valid_from false k m
chosen-suc invalid b m k = ground arith

-- One step of the loop, with what the rest of it gives.
chosen-valid :
    (invalid : Bool) (b : ℕ) (m : Bytes) (n : ℕ)
    → rune_length (b ∷ m) ≡ n
    → ((i : Bool) (k : ℕ) → Continues k m → valid_from k (to_valid_from i k m) ≡ true)
    → valid_from 0 (chosen invalid b m n) ≡ true
chosen-valid true b m zero e rest = rest true 0 tt
chosen-valid false b m zero e rest = replacement_valid (to_valid_from true 0 m) (rest true 0 tt)
chosen-valid invalid b m (suc k) e rest =
    let c = rune-Continues b m k e in
    rw (chosen-suc invalid b m k) (
      rune-valid b (to_valid_from false k m) k
        (rune-Agrees b m (to_valid_from false k m) k e (Agrees-copy k false m c)) (rest false k c))

pub to_valid-valid :
    (invalid : Bool) (k : ℕ) (m : Bytes)
    → Continues k m
    → valid_from k (to_valid_from invalid k m) ≡ true
unfolding to_valid_from valid_from
to_valid-valid invalid zero [] c = refl
to_valid-valid invalid (suc k) [] c = absurd c
to_valid-valid invalid (suc k) (b ∷ m) c = to_valid-valid false k m c.1
to_valid-valid invalid zero (b ∷ m) c =
    subst (λ x. valid_from 0 x ≡ true) (sym (to_valid_from-cons invalid b m))
      (chosen-valid invalid b m (rune_length (b ∷ m)) refl (λ i k. to_valid-valid i k m))

Agrees-replace_nul : (k : ℕ) (m : Bytes) → Continues k m → Agrees k m (replace_nul m)
unfolding replace_nul is_continuation
Agrees-replace_nul zero m c = tt
Agrees-replace_nul (suc k) [] c = absurd c
Agrees-replace_nul (suc k) (b ∷ m) c = ground (arith, Agrees-replace_nul k m c.1)

-- A NUL is a rune of one byte.
nul_rune : (m : Bytes) (k : ℕ) → rune_length (0 ∷ m) ≡ suc k → k ≡ 0
unfolding rune_length
nul_rune m k h = omega (arith, h)

zero_rune :
    (b k : ℕ) (m : Bytes)
    → (b == 0) ≡ true
    → rune_length (b ∷ m) ≡ suc k
    → valid_from k (replace_nul m) ≡ true
    → valid_from 0 (replace_nul m) ≡ true
zero_rune b k m nul rune rest =
    let is_zero : b ≡ 0 = ground arith in
    let none_left : k ≡ 0 = nul_rune m k (rw is_zero at rune) in rw none_left at rest

replaced-valid :
    (b : ℕ) (m : Bytes) (k : ℕ)
    → rune_length (b ∷ m) ≡ suc k
    → valid_from k (replace_nul m) ≡ true
    → valid_from 0 (replace_nul (b ∷ m)) ≡ true
unfolding replace_nul
replaced-valid b m k rune rest = elim (Bool-cases (b == 0)) [
  | inl nul ↦ rw nul (replacement_valid (replace_nul m) (zero_rune b k m nul rune rest))
  | inr other ↦ rw other (
      rune-valid b (replace_nul m) k
        (rune-Agrees b m (replace_nul m) k rune
          (Agrees-replace_nul k m (rune-Continues b m k rune)))
        rest)
]

pub replace_nul-valid :
    (k : ℕ) (m : Bytes)
    → valid_from k m ≡ true
    → Continues k m
    → valid_from k (replace_nul m) ≡ true
unfolding valid_from replace_nul is_continuation
replace_nul-valid k [] h c = h
replace_nul-valid (suc k) (b ∷ m) h c = ground (arith, replace_nul-valid k m h c.1)
replace_nul-valid zero (b ∷ m) h c =
    let (k, rune, rest, continues) = valid-rune b m h in
    replaced-valid b m k rune (replace_nul-valid k m rest continues)

-- A byte that is not NUL.
abbrev pub is_set : ℕ → Bool
is_set b = not (b == 0)

pub every-replace_nul : (m : Bytes) → every is_set (replace_nul m) ≡ true
unfolding every replace_nul
every-replace_nul [] = refl
every-replace_nul (b ∷ m) = ground (arith, every-replace_nul m)

pub replace_nul_same : (m : Bytes) → every is_set m ≡ true → replace_nul m ≡ m
unfolding every replace_nul
replace_nul_same [] h = refl
replace_nul_same (b ∷ m) h = ground (arith, replace_nul_same m)

pub to_valid_same :
    (invalid : Bool) (k : ℕ) (m : Bytes) → valid_from k m ≡ true → to_valid_from invalid k m ≡ m
unfolding to_valid_from valid_from
to_valid_same invalid k [] h = refl
to_valid_same invalid (suc k) (b ∷ m) h = ap (λ (l : Bytes). b ∷ l) (to_valid_same false k m h)
to_valid_same invalid zero (b ∷ m) h =
    let (k, rune, rest, _) = valid-rune b m h in
    to_valid_from-cons invalid b m
    ∙ ap (chosen invalid b m) rune
    ∙ chosen-suc invalid b m k
    ∙ ap (λ (l : Bytes). b ∷ l) (to_valid_same false k m rest)
