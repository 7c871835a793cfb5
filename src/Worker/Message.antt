-- ===== src/Worker/Message.antt =====
-- boundedFailure of pkg/jobs/worker.go, with the functions of `strings` that it calls.
pub mod Repair
pub mod Valid
use gotth_jobs.Common.{
  ℕ, zero, suc, ◌-◌, ◌≡◌, refl, Bool, true, false, not, ◌&&◌, [], ◌∷◌, ◌++◌, ltb, leb, ◌==◌,
  if◌then◌else◌, length, take, min, replicate,
}
use gotth_jobs.Bytes.{Bytes, codes}
use gotth_jobs.Types.{max_failure_bytes}
use gotth_jobs.Errors.{Err, error_text}
use gotth_jobs.Values.Utf8.{rune_length, starts_at}

-- "\uFFFD" and "…" in UTF-8
abbrev pub replacement : Bytes
replacement = 0xef ∷ 0xbf ∷ 0xbd ∷ []

abbrev pub suffix : Bytes
suffix = 0xe2 ∷ 0x80 ∷ 0xa6 ∷ []

-- strings.ToValidUTF8(text, "\uFFFD"): a run of invalid bytes becomes one replacement. `invalid`
-- says that the byte before was one; `skip` bytes of the current rune are still to be copied.
unfoldable pub to_valid_from : Bool → ℕ → Bytes → Bytes
unfolding rune_length
to_valid_from invalid skip [] = []
to_valid_from invalid (suc skip) (b ∷ rest) = b ∷ to_valid_from false skip rest
to_valid_from invalid zero (b ∷ rest) =
    let n = rune_length (b ∷ rest) in
    let tail = to_valid_from (n == 0) (n - 1) rest in
    if not (n == 0) then b ∷ tail else (if invalid then tail else replacement ++ tail)

unfoldable pub to_valid_utf8 : Bytes → Bytes
unfolding to_valid_from
to_valid_utf8 text = to_valid_from false 0 text

-- strings.ReplaceAll(text, "\x00", "\uFFFD")
unfoldable pub replace_nul : Bytes → Bytes
replace_nul [] = []
replace_nul (b ∷ rest) =
    let tail = replace_nul rest in if b == 0 then replacement ++ tail else b ∷ tail

-- for end < len(message) && end > 0 && !utf8.RuneStart(message[end]) { end-- }
unfoldable pub back_off : ℕ → Bytes → ℕ
unfolding starts_at
back_off zero message = zero
back_off (suc e) message =
    let rest = back_off e message in if starts_at (suc e) message then suc e else rest

-- The bytes of the source that are looked at, and the message that they give.
abbrev source_limit : Bytes → ℕ
source_limit source =
    if ltb max_failure_bytes (length source)
    then max_failure_bytes - length suffix
    else max_failure_bytes

unfoldable pub normalized : Bytes → Bytes
unfolding to_valid_utf8 replace_nul
normalized source = replace_nul (to_valid_utf8 (take (source_limit source) source))

unfoldable pub shortened : Bytes → Bytes
unfolding back_off
shortened message =
    take (back_off (min (length message) (max_failure_bytes - length suffix)) message) message
    ++ suffix

unfoldable pub bounded_text : Bytes → Bytes
unfolding normalized shortened
bounded_text source =
    let message = normalized source in
    if not (ltb max_failure_bytes (length source)) && leb (length message) max_failure_bytes
    then message
    else shortened message

unfoldable pub bounded_failure : Err → Bytes
unfolding bounded_text
bounded_failure err = bounded_text (error_text err)

-- One replacement for two invalid bytes, one for the NUL.
replaces :
    bounded_text (0x61 ∷ 0xff ∷ 0xfe ∷ 0x62 ∷ 0 ∷ [])
    ≡ 0x61 ∷ 0xef ∷ 0xbf ∷ 0xbd ∷ 0x62 ∷ 0xef ∷ 0xbf ∷ 0xbd ∷ []
unfolding bounded_text
replaces = refl
