-- ===== src/Engine/Edges.antt =====
-- How a row may change: the lifecycle of a job.
use gotth_jobs.Common.{
  ℕ, ℤ, ◌+◌, ◌≡◌, refl, sym, subst, Bool, true, false, inl, inr, if◌then◌else◌, arith, ◌||◌, ◌⊎◌,
}
use gotth_jobs.Bytes.{Bytes}
use gotth_jobs.Types.{State, pending, running, succeeded, dead, canceled, other}
use gotth_jobs.Table.{Row}
use gotth_jobs.Table.Statements.{
  Session, in_state, holds_lease, heartbeat_row, complete_row, fail_row, exhausts, cancelable,
  cancel_row, redrivable, redrive_row,
}
use gotth_jobs.Table.Statements.Claim.{claimable, claim_row, expired_exhausted, exhausted_row}
use gotth_jobs.Table.Statements.Checks.{in_state→eq}

-- The edges of the lifecycle, with the attempts before and after. An expired attempt that is claimed
-- again goes from running to running.
pub data Edge : State → ℕ → State → ℕ → Type 0 where
  stay : {s : State} {n : ℕ} → Edge s n s n
  deliver : {n : ℕ} → Edge pending n running (n + 1)
  redeliver : {n : ℕ} → Edge running n running (n + 1)
  finish : {n : ℕ} → Edge running n succeeded n
  retry : {n : ℕ} → Edge running n pending n
  bury : {n : ℕ} → Edge running n dead n
  cancel_pending : {n : ℕ} → Edge pending n canceled n
  cancel_running : {n : ℕ} → Edge running n canceled n
  revive : {n : ℕ} → Edge dead n pending 0

-- The columns that identify a job and hold its request.
abbrev pub SameEnvelope : Row → Row → Type 0
SameEnvelope r x =
    (x.id ≡ r.id)
    × (x.queue ≡ r.queue)
    × (x.kind ≡ r.kind)
    × (x.payload ≡ r.payload)
    × (x.idempotency_key ≡ r.idempotency_key)
    × (x.request_fingerprint ≡ r.request_fingerprint)
    × (x.max_attempts ≡ r.max_attempts)
    × (x.created_at ≡ r.created_at)

pub record Evolves (r : Row) (x : Row) : Type 0 where
  pub envelope : SameEnvelope r x
  pub edge : Edge r.state r.attempts x.state x.attempts

pub Evolves-refl : (r : Row) → Evolves r r
Evolves-refl r = record { envelope = (refl, refl, refl, refl, refl, refl, refl, refl); edge = stay }

lease_state :
    (session : Session) (id token : Bytes) (r : Row)
    → holds_lease session id token r ≡ true
    → r.state ≡ running
unfolding holds_lease
lease_state session id token r h = ground (arith, in_state→eq r.state running)

-- The edges of the two updates whose target depends on the row.
fail-Edge :
    (s : State) (n : ℕ) (over : Bool) → s ≡ running → Edge s n (if over then dead else pending) n
fail-Edge s n true e = subst (λ x. Edge x n dead n) (sym e) bury
fail-Edge s n false e = subst (λ x. Edge x n pending n) (sym e) retry

cancel-Edge :
    (s : State) (n : ℕ) → (in_state s pending || in_state s running) ≡ true → Edge s n canceled n
cancel-Edge pending n h = cancel_pending
cancel-Edge running n h = cancel_running
cancel-Edge succeeded n h = cc
cancel-Edge dead n h = cc
cancel-Edge canceled n h = cc
cancel-Edge (other text) n h = cc

claim-Edge : (s : State) (n : ℕ) → (s ≡ pending) ⊎ (s ≡ running) → Edge s n running (n + 1)
claim-Edge s n (inl e) = subst (λ x. Edge x n running (n + 1)) (sym e) deliver
claim-Edge s n (inr e) = subst (λ x. Edge x n running (n + 1)) (sym e) redeliver

claimable_state :
    (session : Session) (queue : Bytes) (r : Row)
    → claimable session queue r ≡ true
    → (r.state ≡ pending) ⊎ (r.state ≡ running)
unfolding claimable
claimable_state session queue r h =
    ground (arith, in_state→eq r.state pending, in_state→eq r.state running)

exhausted_state :
    (session : Session) (queue : Bytes) (r : Row)
    → expired_exhausted session queue r ≡ true
    → r.state ≡ running
unfolding expired_exhausted
exhausted_state session queue r h = ground (arith, in_state→eq r.state running)

cancelable_state :
    (id : Bytes) (r : Row)
    → cancelable id r ≡ true
    → (in_state r.state pending || in_state r.state running) ≡ true
unfolding cancelable
cancelable_state id r h = ground arith

redrivable_state : (id : Bytes) (r : Row) → redrivable id r ≡ true → r.state ≡ dead
unfolding redrivable
redrivable_state id r h = ground (arith, in_state→eq r.state dead)

abbrev same : (r : Row) → SameEnvelope r r
same r = (refl, refl, refl, refl, refl, refl, refl, refl)

module _ (session : Session) where
  pub heartbeat-Evolves : (micros : ℤ) (r : Row) → Evolves r (heartbeat_row session micros r)
  unfolding heartbeat_row
  heartbeat-Evolves micros r = record { envelope = same r; edge = stay }

  pub complete-Evolves :
      (id token : Bytes) (r : Row)
      → holds_lease session id token r ≡ true
      → Evolves r (complete_row session r)
  unfolding complete_row
  complete-Evolves id token r h = record {
    envelope = same r;
    edge =
        subst (λ x. Edge x r.attempts succeeded r.attempts) (sym (lease_state session id token r h))
          finish;
  }

  pub fail-Evolves :
      (id token message : Bytes) (permanent : Bool) (micros : ℤ) (r : Row)
      → holds_lease session id token r ≡ true
      → Evolves r (fail_row session message permanent micros r)
  unfolding fail_row
  fail-Evolves id token message permanent micros r h = record {
    envelope = same r;
    edge = fail-Edge r.state r.attempts (exhausts permanent r) (lease_state session id token r h);
  }

  pub cancel-Evolves :
      (id : Bytes) (r : Row) → cancelable id r ≡ true → Evolves r (cancel_row session r)
  unfolding cancel_row
  cancel-Evolves id r h = record {
    envelope = same r;
    edge = cancel-Edge r.state r.attempts (cancelable_state id r h);
  }

  pub redrive-Evolves :
      (id : Bytes) (r : Row) → redrivable id r ≡ true → Evolves r (redrive_row session r)
  unfolding redrive_row
  redrive-Evolves id r h = record {
    envelope = same r;
    edge = subst (λ x. Edge x r.attempts pending 0) (sym (redrivable_state id r h)) revive;
  }

  pub exhausted-Evolves :
      (queue : Bytes) (r : Row)
      → expired_exhausted session queue r ≡ true
      → Evolves r (exhausted_row session r)
  unfolding exhausted_row
  exhausted-Evolves queue r h = record {
    envelope = same r;
    edge =
        subst (λ x. Edge x r.attempts dead r.attempts) (sym (exhausted_state session queue r h))
          bury;
  }

  pub claim-Evolves :
      (queue token worker : Bytes) (micros : ℤ) (r : Row)
      → claimable session queue r ≡ true
      → Evolves r (claim_row session token worker micros r)
  unfolding claim_row
  claim-Evolves queue token worker micros r h = record {
    envelope = same r;
    edge = claim-Edge r.state r.attempts (claimable_state session queue r h);
  }
