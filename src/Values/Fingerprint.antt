-- ===== src/Values/Fingerprint.antt =====
-- requestFingerprint: the bytes that are written to the hash, in order.
pub mod Framing
use gotth_jobs.Common.{
  ℕ, ◌+◌, ◌-◌, ◌/◌, ◌%◌, ◌^◌, ℤ, pos, negsuc, pos_part, neg_part, [], ◌∷◌, ◌++◌, length,
  if◌then◌else◌, sub_ℕ,
}
use gotth_jobs.Bytes.{Bytes}
use gotth_jobs.Types.{EnqueueRequest, Time}
use gotth_jobs.Values.{copied, is_zero}

-- uint64(v) of an `int` or `int64`.
unfoldable pub to_uint64 : ℤ → ℕ
to_uint64 (pos n) = n % 2 ^ 64
to_uint64 (negsuc n) = 2 ^ 64 - 1 - n % 2 ^ 64

-- binary.BigEndian.PutUint64 and PutUint32
unfoldable pub put_uint32 : ℕ → Bytes
put_uint32 v = (v / 2 ^ 24 % 256) ∷ (v / 2 ^ 16 % 256) ∷ (v / 2 ^ 8 % 256) ∷ (v % 256) ∷ []

unfoldable pub put_uint64 : ℕ → Bytes
unfolding put_uint32
put_uint64 v = put_uint32 (v / 2 ^ 32) ++ put_uint32 (v % 2 ^ 32)

-- writeFingerprintField, before what is written later.
unfoldable pub write_field : Bytes → Bytes → Bytes
write_field field later = put_uint64 (length field % 2 ^ 64) ++ field ++ later

-- Seconds from 1 January of year 1 to the Unix epoch.
abbrev pub unix_epoch : ℕ
unix_epoch = 62135596800

-- t.Unix(), which is an `int64`
unfoldable pub unix : Time → ℤ
unix t = sub_ℕ (pos_part t.seconds) (neg_part t.seconds + unix_epoch)

available_bytes : Time → Bytes
unfolding is_zero to_uint64 put_uint64 unix
available_bytes t =
    if is_zero t
    then 0 ∷ []
    else 1 ∷ (put_uint64 (to_uint64 (unix t)) ++ put_uint32 (t.nanosecond % 2 ^ 32))

unfoldable pub fingerprint_input : EnqueueRequest → Bytes
unfolding write_field available_bytes to_uint64 copied
fingerprint_input request = write_field request.queue (
    write_field request.kind (
      write_field (copied request.payload)
        (put_uint64 (to_uint64 request.max_attempts) ++ available_bytes request.available_at)))

-- The hash is `crypto/sha256`, a parameter.
unfoldable pub request_fingerprint : (Bytes → Bytes) → EnqueueRequest → Bytes
unfolding fingerprint_input
request_fingerprint sha256 request = sha256 (fingerprint_input request)
