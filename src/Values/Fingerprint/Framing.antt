-- ===== src/Values/Fingerprint/Framing.antt =====
-- The framing of the hash's input: two requests that give the same bytes agree on their fields.
use gotth_jobs.Common.{
  ℕ, ◌/◌, ◌%◌, ◌^◌, ◌<◌, pos, [], ◌∷◌, ◌++◌, length, ◌≡◌, refl, arith, ap, ◌∙◌, sym,
}
use gotth_jobs.Bytes.{Bytes}
use gotth_jobs.Types.{EnqueueRequest}
use gotth_jobs.Values.{copied}
use gotth_jobs.Values.Fingerprint.{
  to_uint64, put_uint32, put_uint64, write_field, fingerprint_input,
}

heads : {x y : ℕ} {l m : Bytes} → x ∷ l ≡ y ∷ m → (x ≡ y) × (l ≡ m)
heads e = (cc, cc)

four_bytes :
    (a b : ℕ)
    → a < 2 ^ 32
    → b < 2 ^ 32
    → a / 2 ^ 24 % 256 ≡ b / 2 ^ 24 % 256
    → a / 2 ^ 16 % 256 ≡ b / 2 ^ 16 % 256
    → a / 2 ^ 8 % 256 ≡ b / 2 ^ 8 % 256
    → a % 256 ≡ b % 256
    → a ≡ b
four_bytes a b ha hb p q r s = omega arith

put_uint32-injective :
    (a b : ℕ) (x y : Bytes)
    → a < 2 ^ 32
    → b < 2 ^ 32
    → put_uint32 a ++ x ≡ put_uint32 b ++ y
    → (a ≡ b) × (x ≡ y)
unfolding put_uint32
put_uint32-injective a b x y ha hb e =
    let (p, e1) = heads e in
    let (q, e2) = heads e1 in
    let (r, e3) = heads e2 in let (s, e4) = heads e3 in (four_bytes a b ha hb p q r s, e4)

put_uint64-injective :
    (a b : ℕ) (x y : Bytes)
    → a < 2 ^ 64
    → b < 2 ^ 64
    → put_uint64 a ++ x ≡ put_uint64 b ++ y
    → (a ≡ b) × (x ≡ y)
unfolding put_uint64 put_uint32
put_uint64-injective a b x y ha hb e =
    let (high, rest) =
      put_uint32-injective (a / 2 ^ 32) (b / 2 ^ 32) _ _ (omega arith) (omega arith) e in
    let (low, last) =
      put_uint32-injective (a % 2 ^ 32) (b % 2 ^ 32) x y (omega arith) (omega arith) rest in
    (omega arith, last)

split_append : (l m x y : Bytes) → length l ≡ length m → l ++ x ≡ m ++ y → (l ≡ m) × (x ≡ y)
split_append [] [] x y n e = (refl, e)
split_append [] (b ∷ m) x y n e = absurd (omega arith)
split_append (a ∷ l) [] x y n e = absurd (omega arith)
split_append (a ∷ l) (b ∷ m) x y n e =
    let (h, t) = heads e in let (k, r) = split_append l m x y (omega arith) t in (cc, r)

write_field-injective :
    (f g x y : Bytes)
    → length f < 2 ^ 64
    → length g < 2 ^ 64
    → write_field f x ≡ write_field g y
    → (f ≡ g) × (x ≡ y)
unfolding write_field put_uint64
write_field-injective f g x y hf hg e =
    let (n, rest) =
      put_uint64-injective (length f % 2 ^ 64) (length g % 2 ^ 64) (f ++ x) (g ++ y) (omega arith)
        (omega arith) e in
    split_append f g x y (omega arith) rest

to_uint64-injective :
    (a b : ℕ) (x y : Bytes)
    → a < 2 ^ 64
    → b < 2 ^ 64
    → put_uint64 (to_uint64 (pos a)) ++ x ≡ put_uint64 (to_uint64 (pos b)) ++ y
    → a ≡ b
unfolding to_uint64
to_uint64-injective a b x y ha hb e =
    let (same, _) =
      put_uint64-injective (a % 2 ^ 64) (b % 2 ^ 64) x y (omega arith) (omega arith) e in
    omega arith

-- If two requests whose fields are shorter than 2^64 bytes, and whose budgets are `a` and `b` below
-- 2^64, give the same bytes to the hash of their fingerprint, they have the same queue, kind,
-- payload and budget.
pub fingerprint_input-injective :
    (r s : EnqueueRequest) (a b : ℕ)
    → r.max_attempts ≡ pos a
    → s.max_attempts ≡ pos b
    → a < 2 ^ 64
    → b < 2 ^ 64
    → length r.queue < 2 ^ 64
    → length s.queue < 2 ^ 64
    → length r.kind < 2 ^ 64
    → length s.kind < 2 ^ 64
    → length (copied r.payload) < 2 ^ 64
    → length (copied s.payload) < 2 ^ 64
    → fingerprint_input r ≡ fingerprint_input s
    → (r.queue ≡ s.queue)
      × (r.kind ≡ s.kind)
      × (copied r.payload ≡ copied s.payload)
      × (r.max_attempts ≡ s.max_attempts)
unfolding fingerprint_input
fingerprint_input-injective r s a b ea eb ha hb q q' k k' p p' e =
    let (queue, e1) = write_field-injective r.queue s.queue _ _ q q' e in
    let (kind, e2) = write_field-injective r.kind s.kind _ _ k k' e1 in
    let (payload, e3) = write_field-injective (copied r.payload) (copied s.payload) _ _ p p' e2 in
    let same : a ≡ b = to_uint64-injective a b _ _ ha hb (rw (ea, eb) at e3) in
    (queue, kind, payload, ea ∙ ap pos same ∙ sym eb)
