-- ===== src/Worker/Message/Valid.antt =====
-- A failure's message fits the limit, is valid UTF-8 and has no NUL.
use gotth_jobs.Common.{
  ℕ, zero, suc, ◌-◌, ◌≤◌, ◌≡◌, refl, ◌∙◌, Bool, true, false, not, ◌&&◌, [], ◌∷◌, ◌++◌,
  if◌then◌else◌, arith, take, length, every, every-take, every-append, Bool-cases, inl, inr, min,
  ap, leb, ltb, length-append, length-take,
}
use gotth_jobs.Bytes.{Bytes, contains_nul}
use gotth_jobs.Types.{max_failure_bytes}
use gotth_jobs.Errors.{Err, error_text}
use gotth_jobs.Values.Utf8.{valid_from, valid_utf8, starts_at}
use gotth_jobs.Values.Utf8.Texts.{valid-append, valid-take}
use gotth_jobs.Worker.Message.{
  suffix, to_valid_utf8, replace_nul, back_off, normalized, shortened, bounded_text,
  bounded_failure, source_limit, to_valid_from,
}
use gotth_jobs.Worker.Message.Repair.{
  is_set, to_valid-valid, replace_nul-valid, every-replace_nul, replace_nul_same, to_valid_same,
}

back_off-le : (e : ℕ) (m : Bytes) → back_off e m ≤ e
unfolding back_off
back_off-le zero m = omega arith
back_off-le (suc e) m = ground (arith, back_off-le e m)

valid-back_off :
    (e : ℕ) (m : Bytes) → valid_from 0 m ≡ true → valid_from 0 (take (back_off e m) m) ≡ true
unfolding back_off
valid-back_off zero m h = unfold valid_from in refl
valid-back_off (suc e) m h = elim (Bool-cases (starts_at (suc e) m)) [
  | inl s ↦ rw s (valid-take 0 (suc e) m h tt s)
  | inr s ↦ rw s (valid-back_off e m h)
]

suffix_valid : valid_from 0 suffix ≡ true
unfolding valid_from
suffix_valid = refl

-- What the two repairs give, for any source.
normalized-valid : (source : Bytes) → valid_from 0 (normalized source) ≡ true
unfolding normalized to_valid_utf8
normalized-valid source =
    replace_nul-valid 0 _ (to_valid-valid false 0 (take (source_limit source) source) tt) tt

normalized-set : (source : Bytes) → every is_set (normalized source) ≡ true
unfolding normalized
normalized-set source = every-replace_nul (to_valid_utf8 (take (source_limit source) source))

abbrev pub IsSendable : Bytes → Type 0
IsSendable message =
    (length message ≤ max_failure_bytes)
    × (contains_nul message ≡ false)
    × (valid_utf8 message ≡ true)

sendable :
    (message : Bytes)
    → length message ≤ max_failure_bytes
    → every is_set message ≡ true
    → valid_from 0 message ≡ true
    → IsSendable message
unfolding contains_nul valid_utf8
sendable message l s v = (l, ground arith, v)

shortened-IsSendable :
    (m : Bytes) → valid_from 0 m ≡ true → every is_set m ≡ true → IsSendable (shortened m)
unfolding shortened
shortened-IsSendable m v s =
    let e = back_off (min (length m) (max_failure_bytes - length suffix)) m in
    let low = back_off-le (min (length m) (max_failure_bytes - length suffix)) m in
    sendable (take e m ++ suffix)
      (omega (arith, length-append (take e m) suffix, length-take e m, low))
      (every-append is_set (take e m) suffix (every-take is_set e m s) (unfold every in refl))
      (valid-append 0 (take e m) suffix
        (valid-back_off (min (length m) (max_failure_bytes - length suffix)) m v) suffix_valid)

chosen_message :
    (b : Bool) (m : Bytes)
    → (b ≡ true → length m ≤ max_failure_bytes)
    → valid_from 0 m ≡ true
    → every is_set m ≡ true
    → IsSendable (if b then m else shortened m)
chosen_message true m l v s = sendable m (l refl) s v
chosen_message false m l v s = shortened-IsSendable m v s

fits : (a : Bool) (n : ℕ) → (a && leb n max_failure_bytes) ≡ true → n ≤ max_failure_bytes
fits a n h = ground arith

-- Whatever the text of an error is, the message that the worker makes of it has at most 4096 bytes,
-- no NUL and only valid UTF-8, as Fail asks.
pub bounded_failure-IsSendable : (err : Err) → IsSendable (bounded_failure err)
unfolding bounded_failure bounded_text
bounded_failure-IsSendable err =
    chosen_message
      (not (ltb max_failure_bytes (length (error_text err)))
        && leb (length (normalized (error_text err))) max_failure_bytes)
      (normalized (error_text err))
      (fits (not (ltb max_failure_bytes (length (error_text err))))
        (length (normalized (error_text err))))
      (normalized-valid (error_text err)) (normalized-set (error_text err))

take_all : (n : ℕ) (m : Bytes) → length m ≤ n → take n m ≡ m
take_all n [] h = take_nil n
  where
    take_nil : (n : ℕ) → take {A = ℕ} n [] ≡ []
    take_nil zero = refl
    take_nil (suc n) = refl
take_all zero (b ∷ m) h = absurd (omega arith)
take_all (suc n) (b ∷ m) h = ap (λ (l : Bytes). b ∷ l) (take_all n m (omega arith))

normalized_same : (source : Bytes) → IsSendable source → normalized source ≡ source
unfolding normalized to_valid_utf8 contains_nul valid_utf8
normalized_same source (l, s, v) =
    let whole : take (source_limit source) source ≡ source =
      take_all (source_limit source) source (ground arith) in
    ap (λ (m : Bytes). replace_nul (to_valid_from false 0 m)) whole
    ∙ ap replace_nul (to_valid_same false 0 source v)
    ∙ replace_nul_same source (ground arith)

-- A text that fits the limit, has no NUL and is valid UTF-8 is sent as it is.
pub bounded_failure_same :
    (err : Err) → IsSendable (error_text err) → bounded_failure err ≡ error_text err
unfolding bounded_failure bounded_text
bounded_failure_same err h = let same = normalized_same (error_text err) h in rw same (ground arith)
