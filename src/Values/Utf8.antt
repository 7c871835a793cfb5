-- ===== src/Values/Utf8.antt =====
-- unicode/utf8 as pkg/jobs uses it: `ValidString`.
pub mod Runes
pub mod Texts
use gotth_jobs.Common.{
  ℕ, zero, suc, ◌-◌, ◌≡◌, refl, Bool, true, false, not, ◌&&◌, ◌||◌, [], ◌∷◌, leb, ltb, ◌==◌,
  if◌then◌else◌,
}
use gotth_jobs.Bytes.{Bytes}

within : ℕ → ℕ → ℕ → Bool
within lo hi b = leb lo b && leb b hi

-- A continuation byte; utf8.RuneStart is its negation.
unfoldable pub is_continuation : ℕ → Bool
unfolding within
is_continuation b = within 0x80 0xbf b

-- The range of the second byte, which excludes overlong forms, surrogates and what lies past
-- U+10FFFF.
second_low : ℕ → ℕ
second_low b = if b == 0xe0 then 0xa0 else (if b == 0xf0 then 0x90 else 0x80)

second_high : ℕ → ℕ
second_high b = if b == 0xed then 0x9f else (if b == 0xf4 then 0x8f else 0xbf)

-- Whether the bytes after `b` complete a rune of two, three or four bytes.
pub completes : ℕ → ℕ → Bytes → Bool
unfolding within second_low second_high
completes b n [] = false
completes b n (c ∷ []) = n == 2 && within (second_low b) (second_high b) c
completes b n (c ∷ d ∷ []) =
    within (second_low b) (second_high b) c && (n == 2 || (n == 3 && within 0x80 0xbf d))
completes b n (c ∷ d ∷ e ∷ rest) =
    within (second_low b) (second_high b) c
    && (n == 2 || (within 0x80 0xbf d && (n == 3 || within 0x80 0xbf e)))

-- How many bytes the rune that starts here has by its first byte; 0 where none starts.
pub leading : ℕ → ℕ
unfolding within
leading b =
    if ltb b 0x80
    then 1
    else (if within 0xc2 0xdf b
        then 2
        else (if within 0xe0 0xef b then 3 else (if within 0xf0 0xf4 b then 4 else 0)))

-- utf8.DecodeRuneInString: the length of the rune at the front, 0 where it is not valid.
unfoldable pub rune_length : Bytes → ℕ
unfolding leading completes
rune_length [] = 0
rune_length (b ∷ rest) =
    let n = leading b in
    if n == 0 then 0 else (if n == 1 then 1 else (if completes b n rest then n else 0))

-- `skip` bytes of the current rune are still to come.
unfoldable pub valid_from : ℕ → Bytes → Bool
unfolding rune_length
valid_from skip [] = skip == 0
valid_from (suc skip) (b ∷ rest) = valid_from skip rest
valid_from zero (b ∷ rest) =
    let n = rune_length (b ∷ rest) in not (n == 0) && valid_from (n - 1) rest

-- utf8.ValidString
unfoldable pub valid_utf8 : Bytes → Bool
unfolding valid_from
valid_utf8 text = valid_from 0 text

ascii_valid : valid_utf8 (0x61 ∷ 0xc3 ∷ 0xa9 ∷ 0xe2 ∷ 0x80 ∷ 0xa6 ∷ []) ≡ true
unfolding valid_utf8
ascii_valid = refl

surrogate_invalid : valid_utf8 (0xed ∷ 0xa0 ∷ 0x80 ∷ []) ≡ false
unfolding valid_utf8
surrogate_invalid = refl

-- Whether a rune may start at an index, or the text ends there.
unfoldable pub starts_at : ℕ → Bytes → Bool
unfolding is_continuation
starts_at e [] = true
starts_at zero (b ∷ m) = not (is_continuation b)
starts_at (suc e) (b ∷ m) = starts_at e m
