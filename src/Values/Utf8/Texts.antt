-- ===== src/Values/Utf8/Texts.antt =====
-- Valid texts: joining them, and cutting them where a rune starts.
use gotth_jobs.Common.{
  ℕ, zero, suc, ◌-◌, ◌≤◌, ◌≡◌, refl, ◌∙◌, true, not, ◌&&◌, [], ◌∷◌, ◌++◌, ◌==◌, arith, take, length,
}
use gotth_jobs.Bytes.{Bytes}
use gotth_jobs.Values.Utf8.{rune_length, valid_from, starts_at}
use gotth_jobs.Values.Utf8.Runes.{Continues, Agrees, rune-Continues, rune-Agrees}

counted : (n : ℕ) → (not (n == 0)) ≡ true → n ≡ suc (n - 1)
counted n h = ground arith

-- What a valid text begins with.
pub valid-rune :
    (b : ℕ) (m : Bytes)
    → valid_from 0 (b ∷ m) ≡ true
    → (k : ℕ) × (rune_length (b ∷ m) ≡ suc k) × (valid_from k m ≡ true) × Continues k m
unfolding valid_from
valid-rune b m h =
    let n = rune_length (b ∷ m) in
    let e = counted (rune_length (b ∷ m)) (ground arith) in
    (rune_length (b ∷ m) - 1, e, ground arith, rune-Continues b m (rune_length (b ∷ m) - 1) e)

valid_from-cons :
    (b : ℕ) (m : Bytes)
    → valid_from 0 (b ∷ m)
      ≡ (not (rune_length (b ∷ m) == 0) && valid_from (rune_length (b ∷ m) - 1) m)
unfolding valid_from
valid_from-cons b m = refl

stepped :
    (n k : ℕ) (m : Bytes)
    → n ≡ suc k
    → valid_from k m ≡ true
    → (not (n == 0) && valid_from (n - 1) m) ≡ true
stepped n k m e h = ground arith

pub rune-valid :
    (b : ℕ) (m : Bytes) (k : ℕ)
    → rune_length (b ∷ m) ≡ suc k
    → valid_from k m ≡ true
    → valid_from 0 (b ∷ m) ≡ true
rune-valid b m k h v = valid_from-cons b m ∙ stepped (rune_length (b ∷ m)) k m h v

valid_from-room : (k : ℕ) (m : Bytes) → valid_from k m ≡ true → k ≤ length m
unfolding valid_from
valid_from-room k [] h = ground arith
valid_from-room zero (b ∷ m) h = omega arith
valid_from-room (suc k) (b ∷ m) h = omega (arith, valid_from-room k m h)

Agrees-take : (k e : ℕ) (m : Bytes) → Continues k m → k ≤ length (take e m) → Agrees k m (take e m)
Agrees-take zero e m c h = tt
Agrees-take (suc k) e [] c h = absurd c
Agrees-take (suc k) zero (b ∷ m) c h = absurd (omega arith)
Agrees-take (suc k) (suc e) (b ∷ m) c h = (refl, Agrees-take k e m c.1 (omega arith))

Agrees-append : (k : ℕ) (m l : Bytes) → Continues k m → Agrees k m (m ++ l)
Agrees-append zero m l c = tt
Agrees-append (suc k) [] l c = absurd c
Agrees-append (suc k) (b ∷ m) l c = (refl, Agrees-append k m l c.1)

pub valid-append :
    (k : ℕ) (m l : Bytes)
    → valid_from k m ≡ true
    → valid_from 0 l ≡ true
    → valid_from k (m ++ l) ≡ true
unfolding valid_from
valid-append zero [] l h v = v
valid-append (suc k) [] l h v = ground arith
valid-append (suc k) (b ∷ m) l h v = valid-append k m l h v
valid-append zero (b ∷ m) l h v =
    let (k, rune, rest, c) = valid-rune b m h in
    rune-valid b (m ++ l) k (rune-Agrees b m (m ++ l) k rune (Agrees-append k m l c))
      (valid-append k m l rest v)

pub valid-take :
    (k e : ℕ) (m : Bytes)
    → valid_from k m ≡ true
    → Continues k m
    → starts_at e m ≡ true
    → valid_from k (take e m) ≡ true
unfolding valid_from starts_at
valid-take k zero [] h c s = h
valid-take k (suc e) [] h c s = h
valid-take zero zero (b ∷ m) h c s = refl
valid-take (suc k) zero (b ∷ m) h c s = ground arith
valid-take (suc k) (suc e) (b ∷ m) h c s = valid-take k e m h c.1 s
valid-take zero (suc e) (b ∷ m) h c s =
    let (k, rune, rest, continues) = valid-rune b m h in
    let cut = valid-take k e m rest continues s in
    rune-valid b (take e m) k
      (rune-Agrees b m (take e m) k rune
        (Agrees-take k e m continues (valid_from-room k (take e m) cut)))
      cut
