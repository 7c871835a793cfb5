-- ===== src/Values/Identifiers.antt =====
-- newOpaqueID and the identifiers that the package generates and accepts.
use gotth_jobs.Common.{
  ℕ, ◌+◌, ◌*◌, ◌/◌, ◌%◌, ◌<◌, ◌≡◌, refl, Bool, true, not, ◌&&◌, Option, none, some, [], ◌∷◌, length,
  every, if◌then◌else◌, ltb, ◌==◌, arith, All,
}
use gotth_jobs.Bytes.{Bytes, is_hex_digit, is_lower_hex}
use gotth_jobs.Errors.{Err, invalid_error, check, wrapped}

-- hex.EncodeToString
unfoldable pub hex_digit : ℕ → ℕ
hex_digit d = if ltb d 10 then 48 + d else 87 + d

unfoldable pub hex_encode : Bytes → Bytes
unfolding hex_digit
hex_encode [] = []
hex_encode (b ∷ rest) = hex_digit (b / 16) ∷ hex_digit (b % 16) ∷ hex_encode rest

-- newOpaqueID, on what io.ReadFull of `size` bytes of the entropy source returns.
unfoldable pub new_opaque_id : Bytes → Option Err → Bytes × Option Err
unfolding hex_encode
new_opaque_id buffer none = (hex_encode buffer, none)
new_opaque_id buffer (some err) = ([], some (wrapped "generate opaque identifier" err))

-- The two sizes of newJobID and newLeaseToken.
abbrev pub job_id_size : ℕ
job_id_size = 16

abbrev pub lease_token_size : ℕ
lease_token_size = 32

unfoldable pub valid_job_id : Bytes → Bool
unfolding is_lower_hex
valid_job_id id = length id == 32 && is_lower_hex id

unfoldable pub valid_lease_token : Bytes → Bool
unfolding is_lower_hex
valid_lease_token token = length token == 64 && is_lower_hex token

unfoldable pub validate_job_id : Bytes → Option Err
unfolding valid_job_id
validate_job_id id = check (not (valid_job_id id)) (invalid_error "job ID is invalid")

abbrev pub AreBytes : Bytes → Type 0
AreBytes = All (λ b. b < 256)

length-hex_encode : (b : Bytes) → length (hex_encode b) ≡ 2 * length b
unfolding hex_encode
length-hex_encode [] = refl
length-hex_encode (x ∷ xs) = omega (arith, length-hex_encode xs)

hex_digit_lower : (d : ℕ) → d < 16 → is_hex_digit (hex_digit d) ≡ true
unfolding hex_digit is_hex_digit
hex_digit_lower d h = ground arith

is_lower_hex-hex_encode : (b : Bytes) → AreBytes b → is_lower_hex (hex_encode b) ≡ true
unfolding is_lower_hex every hex_encode
is_lower_hex-hex_encode [] h = refl
is_lower_hex-hex_encode (x ∷ xs) (hx, hs) = ground (
  arith,
  hex_digit_lower (x / 16) (omega arith),
  hex_digit_lower (x % 16) (omega arith),
  is_lower_hex-hex_encode xs hs,
)

-- The generated identifier passes validateJobID exactly when 16 bytes of entropy were read, and the
-- generated token has the form of a lease token exactly when 32 were.
pub new_opaque_id_valid :
    (buffer : Bytes)
    → AreBytes buffer
    → (valid_job_id (new_opaque_id buffer none).0 ≡ (length buffer == job_id_size))
      × (valid_lease_token (new_opaque_id buffer none).0 ≡ (length buffer == lease_token_size))
unfolding new_opaque_id valid_lease_token valid_job_id
new_opaque_id_valid buffer h = (
  ground (arith, is_lower_hex-hex_encode buffer h, length-hex_encode buffer),
  ground (arith, is_lower_hex-hex_encode buffer h, length-hex_encode buffer),
)
