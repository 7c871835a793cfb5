-- ===== src/Table.antt =====
-- The table public.gotth_jobs of pkg/jobs/migrations/000001_jobs.sql: its rows and CHECK constraints.
-- A `timestamptz` counts microseconds from the earliest finite timestamp, 24 November -4713.
pub mod Statements
pub mod Update
pub mod Decoded
pub mod Lookup
use gotth_jobs.Common.{
  ℕ, suc, ◌+◌, ◌-◌, ◌*◌, ◌/◌, ◌%◌, ℤ, pos, negsuc, Bool, true, false, not, ◌&&◌, ◌||◌, Option, none,
  some, List, [], ◌∷◌, map, ltb, leb, ◌==◌, if◌then◌else◌, length, every, select, sub_ℕ, pos_part,
  neg_part, All, ◌≢◌, ◌≡◌,
}
use gotth_jobs.Bytes.{Bytes, bytes_eq}
use gotth_jobs.Types.{
  State, pending, running, succeeded, dead, canceled, other, Time, max_attempts_limit,
}
use gotth_jobs.Rows.{RawRow, state_text}
use gotth_jobs.Values.Identifiers.{valid_job_id, valid_lease_token}

pub record Row : Type 0 where
  pub id : Bytes
  pub queue : Bytes
  pub kind : Bytes
  pub payload : Bytes
  pub idempotency_key : Option Bytes
  pub request_fingerprint : Bytes
  pub state : State
  pub attempts : ℕ
  pub max_attempts : ℕ
  pub available_at : ℕ
  pub created_at : ℕ
  pub updated_at : ℕ
  pub lease_token : Option Bytes
  pub lease_owner : Option Bytes
  pub lease_until : Option ℕ
  pub last_error : Bytes
  pub finished_at : Option ℕ

abbrev pub Table : Type 0
Table = List Row

abbrev pub between : ℕ → ℕ → ℕ → Bool
between lo hi n = leb lo n && leb n hi

abbrev pub is_some {ℓ} : {A : Type ℓ} → Option A → Bool
is_some none = false
is_some (some a) = true

-- A CHECK on a column that may be NULL.
abbrev pub null_or {ℓ} : {A : Type ℓ} → (A → Bool) → Option A → Bool
null_or p none = true
null_or p (some a) = p a

-- The columns that no statement changes after the insertion.
unfoldable pub fixed_checks : Row → Bool
fixed_checks r =
    valid_job_id r.id
    && (between 1 128 (length r.queue)
        && (between 1 128 (length r.kind)
            && (leb (length r.payload) 1048576
                && (null_or (λ k. between 1 256 (length k)) r.idempotency_key
                    && length r.request_fingerprint == 32))))

-- gotth_jobs_state with gotth_jobs_state_attempt_shape
unfoldable pub attempt_shape : State → ℕ → ℕ → Bool
attempt_shape pending attempts maximum = ltb attempts maximum
attempt_shape running attempts maximum = leb 1 attempts
attempt_shape succeeded attempts maximum = leb 1 attempts
attempt_shape dead attempts maximum = leb 1 attempts
attempt_shape canceled attempts maximum = true
attempt_shape (other text) attempts maximum = false

-- gotth_jobs_attempts and gotth_jobs_max_attempts
unfoldable pub attempt_checks : State → ℕ → ℕ → Bool
unfolding attempt_shape
attempt_checks state attempts maximum =
    leb attempts 100
    && (between 1 100 maximum && (leb attempts maximum && attempt_shape state attempts maximum))

-- gotth_jobs_lease_shape, with the forms of the token and of the owner
unfoldable pub lease_shape : State → Option Bytes → Option Bytes → Option ℕ → Bool
lease_shape running token owner until = is_some token && (is_some owner && is_some until)
lease_shape _ token owner until =
    not (is_some token) && (not (is_some owner) && not (is_some until))

unfoldable pub lease_checks : State → Option Bytes → Option Bytes → Option ℕ → Bool
unfolding lease_shape
lease_checks state token owner until =
    lease_shape state token owner until
    && (null_or valid_lease_token token && null_or (λ o. between 1 256 (length o)) owner)

-- gotth_jobs_finished_shape
unfoldable pub finished_shape : State → Option ℕ → Bool
finished_shape pending finished = not (is_some finished)
finished_shape running finished = not (is_some finished)
finished_shape _ finished = is_some finished

-- Every CHECK constraint of the table.
unfoldable pub satisfies_checks : Row → Bool
unfolding attempt_checks lease_checks finished_shape
satisfies_checks r =
    fixed_checks r
    && (attempt_checks r.state r.attempts r.max_attempts
        && (lease_checks r.state r.lease_token r.lease_owner r.lease_until
            && (leb (length r.last_error) 4096 && finished_shape r.state r.finished_at)))

-- Go's instant for a `timestamptz`; pgx gives it in the local zone.
unfoldable pub to_time : ℕ → Time
to_time n = record {
  seconds = sub_ℕ (n / 1000000) 148731206400;
  nanosecond = n % 1000000 * 1000;
  in_utc = false;
}

-- The `timestamptz` for Go's instant, to the microsecond.
unfoldable pub of_time : Time → ℕ
of_time t = (pos_part t.seconds + 148731206400 - neg_part t.seconds) * 1000000 + t.nanosecond / 1000

abbrev pub map_option {ℓ κ} : {A : Type ℓ} {B : Type κ} → (A → B) → Option A → Option B
map_option f none = none
map_option f (some a) = some (f a)

-- What pgx hands to the scanners for the columns of `jobColumns`.
unfoldable pub columns : Row → RawRow
columns r = record {
  id = some r.id;
  queue = some r.queue;
  kind = some r.kind;
  payload = some r.payload;
  idempotency_key = r.idempotency_key;
  state = some (state_text r.state);
  attempts = pos r.attempts;
  max_attempts = pos r.max_attempts;
  available_at = some (to_time r.available_at);
  created_at = some (to_time r.created_at);
  updated_at = some (to_time r.updated_at);
  lease_token = r.lease_token;
  lease_owner = r.lease_owner;
  lease_until = map_option to_time r.lease_until;
  last_error = some r.last_error;
  finished_at = map_option to_time r.finished_at;
}

-- The primary key, and every CHECK constraint, hold.
abbrev pub HasNewId : Bytes → Table → Type 0
HasNewId id = All (λ r. id ≢ r.id)

abbrev pub HasUniqueIds : Table → Type 0
HasUniqueIds [] = Unit
HasUniqueIds (r ∷ t) = HasNewId r.id t × HasUniqueIds t

pub record IsConsistent (t : Table) : Type 0 where
  pub checked : every satisfies_checks t ≡ true
  pub unique : HasUniqueIds t
