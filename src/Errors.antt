-- ===== src/Errors.antt =====
-- pkg/jobs/errors.go, and the `errors` package as the source uses it. An error is the tree that
-- `Unwrap` walks, so `errors.Is` and `errors.As` are searches in it.
use gotth_jobs.Common.{
  Bool, true, false, ◌||◌, Option, none, some, ◌≡◌, refl, ◌++◌, String, if◌then◌else◌, List, [],
  All, ◌∷◌,
}
use gotth_jobs.Bytes.{Bytes, codes}
use gotth_jobs.Types.{Job, Lease}

-- The values that code compares by identity: those of the package, then those of pgx and context.
pub data Sentinel : Type 0 where
  invalid not_found no_job lease_lost job_canceled state_conflict : Sentinel
  idempotency_conflict commit_outcome_unknown : Sentinel
  handler_panicked handler_finished stored_job_unknown_state : Sentinel
  no_rows tx_closed context_canceled deadline_exceeded : Sentinel

pub Sentinel-discrete : Discrete Sentinel
Sentinel-discrete = hlevel

-- `message` and `wrap` are the results of `errors.New` and of `fmt.Errorf`, without and with `%w`,
-- with their text; `join` is `errors.Join` of two errors.
pub data Err : Type 0 where
  sentinel : Sentinel → Err
  message : Bytes → Err
  wrap : Bytes → Err → Err
  join : Err → Err → Err
  permanent_error : Err → Err
  claim_reconciliation : Job → Err → Err
  lease_reconciliation : Job → Lease → Err → Err

unfoldable pub same_sentinel : Sentinel → Sentinel → Bool
same_sentinel invalid invalid = true
same_sentinel not_found not_found = true
same_sentinel no_job no_job = true
same_sentinel lease_lost lease_lost = true
same_sentinel job_canceled job_canceled = true
same_sentinel state_conflict state_conflict = true
same_sentinel idempotency_conflict idempotency_conflict = true
same_sentinel commit_outcome_unknown commit_outcome_unknown = true
same_sentinel handler_panicked handler_panicked = true
same_sentinel handler_finished handler_finished = true
same_sentinel stored_job_unknown_state stored_job_unknown_state = true
same_sentinel no_rows no_rows = true
same_sentinel tx_closed tx_closed = true
same_sentinel context_canceled context_canceled = true
same_sentinel deadline_exceeded deadline_exceeded = true
same_sentinel _ _ = false

-- errors.Is(err, target) for a sentinel target, through every `Unwrap`.
unfoldable pub is : Err → Sentinel → Bool
unfolding same_sentinel
is (sentinel s) target = same_sentinel s target
is (message text) target = false
is (wrap text err) target = is err target
is (join a b) target = is a target || is b target
is (permanent_error err) target = is err target
is (claim_reconciliation job err) target = is err target
is (lease_reconciliation job lease err) target = is err target

-- errors.Is on an error that may be nil.
unfoldable pub error_is : Option Err → Sentinel → Bool
unfolding is
error_is none target = false
error_is (some err) target = is err target

-- Permanent: nil remains nil.
unfoldable pub permanent : Option Err → Option Err
permanent none = none
permanent (some err) = some (permanent_error err)

-- IsPermanent: the marker occurs on some path of the tree.
unfoldable pub has_permanent : Err → Bool
has_permanent (sentinel s) = false
has_permanent (message text) = false
has_permanent (wrap text err) = has_permanent err
has_permanent (join a b) = has_permanent a || has_permanent b
has_permanent (permanent_error err) = true
has_permanent (claim_reconciliation job err) = has_permanent err
has_permanent (lease_reconciliation job lease err) = has_permanent err

unfoldable pub is_permanent : Option Err → Bool
unfolding has_permanent
is_permanent none = false
is_permanent (some err) = has_permanent err

-- ReconciliationJob and ReconciliationLease of the two reconciliation errors.
unfoldable pub reconciliation_job : Err → Option Job
reconciliation_job (claim_reconciliation job err) = some job
reconciliation_job (lease_reconciliation job lease err) = some job
reconciliation_job _ = none

unfoldable pub reconciliation_lease : Err → Option Lease
reconciliation_lease (lease_reconciliation job lease err) = some lease
reconciliation_lease _ = none

-- The texts of the sentinels.
sentinel_text : Sentinel → Bytes
sentinel_text invalid = codes "invalid job input"
sentinel_text not_found = codes "job not found"
sentinel_text no_job = codes "no eligible job"
sentinel_text lease_lost = codes "job lease lost"
sentinel_text job_canceled = codes "job canceled"
sentinel_text state_conflict = codes "job state conflict"
sentinel_text idempotency_conflict = codes "idempotency key conflicts with an existing request"
sentinel_text commit_outcome_unknown = codes "job transaction commit outcome unknown"
sentinel_text handler_panicked = codes "handler panicked"
sentinel_text handler_finished = codes "handler finished"
sentinel_text stored_job_unknown_state = codes "stored job has unknown state"
sentinel_text no_rows = codes "no rows in result set"
sentinel_text tx_closed = codes "tx is closed"
sentinel_text context_canceled = codes "context canceled"
sentinel_text deadline_exceeded = codes "context deadline exceeded"

-- err.Error(). The two reconciliation errors have a constant text.
unfoldable pub error_text : Err → Bytes
unfolding sentinel_text
error_text (sentinel s) = sentinel_text s
error_text (message text) = text
error_text (wrap text err) = text
error_text (join a b) = error_text a ++ codes "\n" ++ error_text b
error_text (permanent_error err) = error_text err
error_text (claim_reconciliation job err) =
    codes "claim worker job commit outcome is unknown; reconciliation required"
error_text (lease_reconciliation job lease err) =
    codes "worker job acknowledgement commit outcome is unknown; reconciliation required"

-- fmt.Errorf("%w: <text>", ErrInvalid)
unfoldable pub invalid_error : String → Err
unfolding error_text
invalid_error text = wrap (sentinel_text invalid ++ codes ": " ++ codes text) (sentinel invalid)

-- fmt.Errorf("%w: %s<text>", ErrInvalid, label)
unfoldable pub invalid_field : String → String → Err
unfolding error_text
invalid_field label text =
    wrap (sentinel_text invalid ++ codes ": " ++ codes label ++ codes text) (sentinel invalid)

-- fmt.Errorf("<text>: %w", err)
unfoldable pub wrapped : String → Err → Err
unfolding error_text
wrapped text err = wrap (codes text ++ codes ": " ++ error_text err) err

-- fmt.Errorf("<text>")
unfoldable pub plain_error : String → Err
plain_error text = message (codes text)

pub is-invalid_error :
    (text : String) (t : Sentinel) → is (invalid_error text) t ≡ same_sentinel invalid t
unfolding is invalid_error
is-invalid_error text t = refl

pub is-wrapped : (text : String) (err : Err) (t : Sentinel) → is (wrapped text err) t ≡ is err t
unfolding is wrapped
is-wrapped text err t = refl

pub is-plain_error : (text : String) (t : Sentinel) → is (plain_error text) t ≡ false
unfolding is plain_error
is-plain_error text t = refl

-- if condition { return err }, and the guards in the order of the source.
abbrev pub check : Bool → Err → Option Err
check condition err = if condition then some err else none

infixr 20 ◌<|>◌
abbrev pub ◌<|>◌ : Option Err → Option Err → Option Err
none <|> other = other
some err <|> other = some err

-- A sequence of such guards.
unfoldable pub first_error : List (Option Err) → Option Err
first_error [] = none
first_error (none ∷ rest) = first_error rest
first_error (some err ∷ rest) = some err

pub first_error-none : (l : List (Option Err)) → first_error l ≡ none → All (λ e. e ≡ none) l
unfolding first_error
first_error-none [] h = tt
first_error-none (none ∷ rest) h = (refl, first_error-none rest h)
first_error-none (some err ∷ rest) h = cc

pub none-first_error : (l : List (Option Err)) → All (λ e. e ≡ none) l → first_error l ≡ none
unfolding first_error
none-first_error [] h = refl
none-first_error (e ∷ rest) (h, hs) = rw h (none-first_error rest hs)

-- What a function returns that yields the zero value beside an error: one or the other.
pub data Result {ℓ} (A : Type ℓ) : Type ℓ where
  ok : A → Result A
  failed : Err → Result A

infixl 5 ◌>>=◌ ◌>>◌
abbrev pub ◌>>=◌ {ℓ κ} : {A : Type ℓ} {B : Type κ} → Result A → (A → Result B) → Result B
ok a >>= f = f a
failed err >>= f = failed err

-- if err := validate(…); err != nil { return err }
abbrev pub guard : Option Err → Result (Unit {0})
guard none = ok tt
guard (some err) = failed err

abbrev pub ◌>>◌ {ℓ} : {B : Type ℓ} → Result (Unit {0}) → Result B → Result B
m >> k = m >>= λ _. k
