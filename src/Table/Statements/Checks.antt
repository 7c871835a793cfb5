-- ===== src/Table/Statements/Checks.antt =====
-- Each row that a statement writes satisfies the CHECK constraints.
use gotth_jobs.Common.{
  ℕ, ◌+◌, ◌≡◌, refl, ◌≤◌, ℤ, Bool, true, false, none, some, length, arith, Option, leb, ◌&&◌, ◌||◌,
  if◌then◌else◌,
}
use gotth_jobs.Bytes.{Bytes, codes}
use gotth_jobs.Types.{State, pending, running, succeeded, dead, canceled}
use gotth_jobs.Table.{
  Row, satisfies_checks, fixed_checks, attempt_checks, lease_checks, finished_shape, between,
}
use gotth_jobs.Values.Identifiers.{valid_lease_token}
use gotth_jobs.Table.Statements.{
  Session, holds_lease, heartbeat_row, complete_row, exhausts, fail_row, cancelable, cancel_row,
  redrivable, redrive_row, in_state,
}
use gotth_jobs.Table.Statements.Claim.{claimable, claim_row, expired_exhausted, exhausted_row}
use gotth_jobs.Table.Update.{Keeps}

-- The constraints in groups, by the columns that they read.
pub record IsChecked (r : Row) : Type 0 where
  pub fixed : fixed_checks r ≡ true
  pub attempted : attempt_checks r.state r.attempts r.max_attempts ≡ true
  pub leased : lease_checks r.state r.lease_token r.lease_owner r.lease_until ≡ true
  pub bounded : length r.last_error ≤ 4096
  pub finished : finished_shape r.state r.finished_at ≡ true

five :
    (a b c d e : Bool)
    → (a && (b && (c && (d && e)))) ≡ true
    → (a ≡ true) × (b ≡ true) × (c ≡ true) × (d ≡ true) × (e ≡ true)
five a b c d e h = ground arith

five_all :
    (a b c d e : Bool)
    → a ≡ true
    → b ≡ true
    → c ≡ true
    → d ≡ true
    → e ≡ true
    → (a && (b && (c && (d && e)))) ≡ true
five_all a b c d e p q r s t = ground arith

leb→le_lem : (a b : ℕ) → leb a b ≡ true → a ≤ b
leb→le_lem a b h = ground arith

le→leb : (a b : ℕ) → a ≤ b → leb a b ≡ true
le→leb a b h = ground arith

pub checked→ : (r : Row) → satisfies_checks r ≡ true → IsChecked r
unfolding satisfies_checks
checked→ r h =
    let (a, b, c, d, e) = five _ _ _ _ _ h in
    record { fixed = a; attempted = b; leased = c; bounded = leb→le_lem _ _ d; finished = e }

pub →checked : (r : Row) → IsChecked r → satisfies_checks r ≡ true
unfolding satisfies_checks
→checked r c = five_all _ _ _ _ _ c.fixed c.attempted c.leased (le→leb _ _ c.bounded) c.finished

pub in_state→eq : (s t : State) → in_state s t ≡ true → s ≡ t
in_state→eq s t h = ground arith

-- How the attempts fit the state, for each transition.
attempts_end :
    (s : State) (a m : ℕ)
    → s ≡ running
    → attempt_checks s a m ≡ true
    → (attempt_checks succeeded a m ≡ true) × (attempt_checks dead a m ≡ true)
unfolding attempt_checks
attempts_end s a m e h = ground arith

-- attempts >= max_attempts sends a failed job to dead, and any other back to pending.
attempts_fail :
    (s : State) (a m : ℕ) (over : Bool)
    → s ≡ running
    → attempt_checks s a m ≡ true
    → attempt_checks (if over || leb m a then dead else pending) a m ≡ true
unfolding attempt_checks
attempts_fail s a m over e h = ground arith

lease_renewed :
    (s : State) (token owner : Option Bytes) (until : Option ℕ) (n : ℕ)
    → s ≡ running
    → lease_checks s token owner until ≡ true
    → lease_checks s token owner (some n) ≡ true
unfolding lease_checks
lease_renewed s token owner until n e h = ground arith

lease_granted :
    (token owner : Bytes) (n : ℕ)
    → valid_lease_token token ≡ true
    → between 1 256 (length owner) ≡ true
    → lease_checks running (some token) (some owner) (some n) ≡ true
unfolding lease_checks
lease_granted token owner n h k = ground arith

attempts_cancel :
    (s : State) (a m : ℕ) → attempt_checks s a m ≡ true → attempt_checks canceled a m ≡ true
unfolding attempt_checks
attempts_cancel s a m h = ground arith

attempts_reset :
    (s : State) (a m : ℕ) → attempt_checks s a m ≡ true → attempt_checks pending 0 m ≡ true
unfolding attempt_checks
attempts_reset s a m h = ground arith

attempts_claim :
    (s : State) (a m : ℕ)
    → a + 1 ≤ m
    → attempt_checks s a m ≡ true
    → attempt_checks running (a + 1) m ≡ true
unfolding attempt_checks
attempts_claim s a m k h = ground arith

holds_lease→running :
    (session : Session) (id token : Bytes) (r : Row)
    → holds_lease session id token r ≡ true
    → (r.state ≡ running)
unfolding holds_lease
holds_lease→running session id token r h = ground (arith, in_state→eq r.state running)

claimable_room :
    (session : Session) (queue : Bytes) (r : Row)
    → claimable session queue r ≡ true
    → attempt_checks r.state r.attempts r.max_attempts ≡ true
    → r.attempts + 1 ≤ r.max_attempts
unfolding claimable attempt_checks
claimable_room session queue r h k = ground (arith, in_state→eq r.state pending)

exhausted→running :
    (session : Session) (queue : Bytes) (r : Row)
    → expired_exhausted session queue r ≡ true
    → r.state ≡ running
unfolding expired_exhausted
exhausted→running session queue r h = ground (arith, in_state→eq r.state running)

fail_shapes :
    (over : Bool) (n : ℕ)
    → (lease_checks (if over then dead else pending) none none none ≡ true)
      × (finished_shape (if over then dead else pending) (if over then some n else none) ≡ true)
unfolding lease_checks finished_shape
fail_shapes true n = (refl, refl)
fail_shapes false n = (refl, refl)

module _ (session : Session) where
  pub heartbeat_row-checked :
      (id token : Bytes) (micros : ℤ) (r : Row)
      → Keeps (holds_lease session id token) (heartbeat_row session micros) r
  unfolding heartbeat_row fixed_checks
  heartbeat_row-checked id token micros r h c =
      let s = holds_lease→running session id token r h in
      let k = checked→ r c in
      →checked _ (record {
        fixed = k.fixed;
        attempted = k.attempted;
        leased = lease_renewed r.state r.lease_token r.lease_owner r.lease_until _ s k.leased;
        bounded = k.bounded;
        finished = k.finished;
      })

  pub complete_row-checked :
      (id token : Bytes) (r : Row) → Keeps (holds_lease session id token) (complete_row session) r
  unfolding complete_row fixed_checks lease_checks finished_shape
  complete_row-checked id token r h c =
      let s = holds_lease→running session id token r h in
      let k = checked→ r c in
      →checked _ (record {
        fixed = k.fixed;
        attempted = (attempts_end r.state r.attempts r.max_attempts s k.attempted).0;
        leased = refl;
        bounded = k.bounded;
        finished = refl;
      })

  pub fail_row-checked :
      (id token message : Bytes) (permanent : Bool) (micros : ℤ) (r : Row)
      → length message ≤ 4096
      → Keeps (holds_lease session id token) (fail_row session message permanent micros) r
  unfolding fail_row exhausts fixed_checks
  fail_row-checked id token message permanent micros r short h c =
      let s = holds_lease→running session id token r h in
      let k = checked→ r c in
      →checked _ (record {
        fixed = k.fixed;
        attempted = attempts_fail r.state r.attempts r.max_attempts permanent s k.attempted;
        leased = (fail_shapes (permanent || leb r.max_attempts r.attempts) 0).0;
        bounded = short;
        finished = (fail_shapes (permanent || leb r.max_attempts r.attempts) _).1;
      })

  pub cancel_row-checked : (id : Bytes) (r : Row) → Keeps (cancelable id) (cancel_row session) r
  unfolding cancel_row fixed_checks lease_checks finished_shape
  cancel_row-checked id r h c =
      let k = checked→ r c in
      →checked _ (record {
        fixed = k.fixed;
        attempted = attempts_cancel r.state r.attempts r.max_attempts k.attempted;
        leased = refl;
        bounded = k.bounded;
        finished = refl;
      })

  pub redrive_row-checked : (id : Bytes) (r : Row) → Keeps (redrivable id) (redrive_row session) r
  unfolding redrive_row fixed_checks lease_checks finished_shape
  redrive_row-checked id r h c =
      let k = checked→ r c in
      →checked _ (record {
        fixed = k.fixed;
        attempted = attempts_reset r.state r.attempts r.max_attempts k.attempted;
        leased = refl;
        bounded = omega arith;
        finished = refl;
      })

  pub exhausted_row-checked :
      (queue : Bytes) (r : Row) → Keeps (expired_exhausted session queue) (exhausted_row session) r
  unfolding exhausted_row fixed_checks lease_checks finished_shape
  exhausted_row-checked queue r h c =
      let s = exhausted→running session queue r h in
      let k = checked→ r c in
      →checked _ (record {
        fixed = k.fixed;
        attempted = (attempts_end r.state r.attempts r.max_attempts s k.attempted).1;
        leased = refl;
        bounded = omega arith;
        finished = refl;
      })

  claim_error_bounded :
      (s : State) (e : Bytes)
      → length e ≤ 4096
      → length (if in_state s running then codes "lease expired before acknowledgement" else e)
        ≤ 4096
  claim_error_bounded s e h = ground arith

  pub claim_row-checked :
      (queue token worker : Bytes) (micros : ℤ) (r : Row)
      → valid_lease_token token ≡ true
      → between 1 256 (length worker) ≡ true
      → Keeps (claimable session queue) (claim_row session token worker micros) r
  unfolding claim_row fixed_checks finished_shape
  claim_row-checked queue token worker micros r ht hw h c =
      let k = checked→ r c in
      →checked _ (record {
        fixed = k.fixed;
        attempted =
            attempts_claim r.state r.attempts r.max_attempts
              (claimable_room session queue r h k.attempted) k.attempted;
        leased = lease_granted token worker _ ht hw;
        bounded = claim_error_bounded r.state r.last_error k.bounded;
        finished = refl;
      })
