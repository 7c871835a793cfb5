-- ===== src/Values/Utf8/Runes.antt =====
-- The bytes of a rune: those after the first are continuation bytes, and no others are read.
use gotth_jobs.Common.{
  ℕ, zero, suc, ◌≡◌, refl, Bool, true, false, [], ◌∷◌, ◌==◌, if◌then◌else◌, arith, ◌⊎◌, inr, inl,
  ◌∙◌,
}
use gotth_jobs.Bytes.{Bytes}
use gotth_jobs.Values.Utf8.{rune_length, is_continuation, leading, completes}

-- The first `n` bytes are there, and they are continuation bytes.
abbrev pub Continues : ℕ → Bytes → Type 0
Continues zero m = Unit {0}
Continues (suc n) [] = ⊥
Continues (suc n) (b ∷ m) = (is_continuation b ≡ true) × Continues n m

pub rune-Continues : (b : ℕ) (m : Bytes) (k : ℕ) → rune_length (b ∷ m) ≡ suc k → Continues k m
unfolding rune_length is_continuation
rune-Continues b m zero h = tt
rune-Continues b [] (suc k) h = ground arith
rune-Continues b (c ∷ []) (suc zero) h = ground arith
rune-Continues b (c ∷ []) (suc (suc k)) h = ground arith
rune-Continues b (c ∷ d ∷ []) (suc zero) h = ground arith
rune-Continues b (c ∷ d ∷ []) (suc (suc zero)) h = ground arith
rune-Continues b (c ∷ d ∷ []) (suc (suc (suc k))) h = ground arith
rune-Continues b (c ∷ d ∷ e ∷ m) (suc zero) h = ground arith
rune-Continues b (c ∷ d ∷ e ∷ m) (suc (suc zero)) h = ground arith
rune-Continues b (c ∷ d ∷ e ∷ m) (suc (suc (suc zero))) h = ground arith
rune-Continues b (c ∷ d ∷ e ∷ m) (suc (suc (suc (suc k)))) h = ground arith

-- Texts that agree on the bytes of a rune agree on the rune.
abbrev pub Agrees : ℕ → Bytes → Bytes → Type 0
Agrees zero m l = Unit {0}
Agrees (suc n) (b ∷ m) (c ∷ l) = (b ≡ c) × Agrees n m l
Agrees (suc n) m l = ⊥

measured : ℕ → Bool → ℕ
measured n c = if n == 0 then 0 else (if n == 1 then 1 else (if c then n else 0))

-- `leading` and `completes` stay shut behind this equation.
rune_length-cons :
    (b : ℕ) (m : Bytes) → rune_length (b ∷ m) ≡ measured (leading b) (completes b (leading b) m)
unfolding rune_length measured
rune_length-cons b m = refl

measured_parts :
    (n : ℕ) (c : Bool) (k : ℕ) → measured n c ≡ suc k → (n ≡ suc k) × ((k ≡ 0) ⊎ (c ≡ true))
unfolding measured
measured_parts n true k h = (ground arith, inr refl)
measured_parts n false k h = (ground arith, inl (ground arith))

measured-one : (c : Bool) → measured 1 c ≡ 1
unfolding measured
measured-one c = refl

measured-true : (k : ℕ) → measured (suc k) true ≡ suc k
unfolding measured
measured-true k = ground arith

completes-Agrees :
    (b k : ℕ) (m l : Bytes)
    → completes b (suc k) m ≡ true
    → Agrees k m l
    → (k ≡ 0) ⊎ (completes b (suc k) l ≡ true)
unfolding completes
completes-Agrees b zero m l h a = inl refl
completes-Agrees b (suc k) [] l h a = absurd a
completes-Agrees b (suc k) (c ∷ m) [] h a = absurd a
completes-Agrees b (suc zero) (c ∷ []) (c' ∷ []) h a = ground arith
completes-Agrees b (suc zero) (c ∷ []) (c' ∷ d' ∷ []) h a = ground arith
completes-Agrees b (suc zero) (c ∷ []) (c' ∷ d' ∷ e' ∷ l) h a = ground arith
completes-Agrees b (suc zero) (c ∷ d ∷ []) (c' ∷ []) h a = ground arith
completes-Agrees b (suc zero) (c ∷ d ∷ []) (c' ∷ d' ∷ []) h a = ground arith
completes-Agrees b (suc zero) (c ∷ d ∷ []) (c' ∷ d' ∷ e' ∷ l) h a = ground arith
completes-Agrees b (suc zero) (c ∷ d ∷ e ∷ m) (c' ∷ []) h a = ground arith
completes-Agrees b (suc zero) (c ∷ d ∷ e ∷ m) (c' ∷ d' ∷ []) h a = ground arith
completes-Agrees b (suc zero) (c ∷ d ∷ e ∷ m) (c' ∷ d' ∷ e' ∷ l) h a = ground arith
completes-Agrees b (suc (suc k)) (c ∷ []) l h a = ground arith
completes-Agrees b (suc (suc k)) (c ∷ d ∷ m) (c' ∷ []) h a = absurd a.1
completes-Agrees b (suc (suc zero)) (c ∷ d ∷ []) (c' ∷ d' ∷ []) h a = ground arith
completes-Agrees b (suc (suc zero)) (c ∷ d ∷ []) (c' ∷ d' ∷ e' ∷ l) h a = ground arith
completes-Agrees b (suc (suc zero)) (c ∷ d ∷ e ∷ m) (c' ∷ d' ∷ []) h a = ground arith
completes-Agrees b (suc (suc zero)) (c ∷ d ∷ e ∷ m) (c' ∷ d' ∷ e' ∷ l) h a = ground arith
completes-Agrees b (suc (suc (suc k))) (c ∷ d ∷ []) l h a = ground arith
completes-Agrees b (suc (suc (suc k))) (c ∷ d ∷ e ∷ m) (c' ∷ d' ∷ []) h a = absurd a.1.1
completes-Agrees b (suc (suc (suc k))) (c ∷ d ∷ e ∷ m) (c' ∷ d' ∷ e' ∷ l) h a = ground arith

measured_of : (n : ℕ) (c : Bool) (k : ℕ) → n ≡ suc k → (k ≡ 0) ⊎ (c ≡ true) → measured n c ≡ suc k
unfolding measured
measured_of n c k e h = ground arith

-- The rune at the front is the same in a text with the same bytes of it.
pub rune-Agrees :
    (b : ℕ) (m l : Bytes) (k : ℕ)
    → rune_length (b ∷ m) ≡ suc k
    → Agrees k m l
    → rune_length (b ∷ l) ≡ suc k
rune-Agrees b m l k h a =
    let (n, c) =
      measured_parts (leading b) (completes b (leading b) m) k (rw (← rune_length-cons b m) h) in
    rune_length-cons b l
    ∙ measured_of (leading b) (completes b (leading b) l) k n (elim c [
      | inl e ↦ inl e
      | inr e ↦ elim (completes-Agrees b k m l (rw n at e) a) [
        | inl z ↦ inl z
        | inr z ↦ inr (rw n z)
      ]
    ])
