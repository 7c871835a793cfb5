-- ===== src/Examples.antt =====
-- Concrete values for the examples: two jobs, their tokens, and sessions at fixed clocks.
mod Jobs
mod Reads
mod Server
mod Worker
mod Calls
mod Values
mod Decoding
mod Serving
mod Enqueuing
mod Operators
mod Histories
mod Leasing
mod Paging
mod Reconciling
mod Working
mod Sending
use gotth_jobs.Common.{ℕ, ℤ, pos, false, Option, none, some, List, [], ◌∷◌, replicate}
use gotth_jobs.Bytes.{Bytes, bytes_le, codes}
use gotth_jobs.Types.{pending, running}
use gotth_jobs.Table.{Row, Table}
use gotth_jobs.Table.Statements.{Session}

abbrev pub id_a : Bytes
id_a = replicate 32 b'a'

abbrev pub id_b : Bytes
id_b = replicate 32 b'b'

abbrev pub token_a : Bytes
token_a = replicate 64 b'a'

abbrev pub token_b : Bytes
token_b = replicate 64 b'b'

-- Every reading of the clock is `now`, and no row is locked.
abbrev pub at : ℕ → Session
at now = record { clock = λ reading id. now; locked = λ id. false; id_le = bytes_le }

abbrev pub mail : Bytes
mail = codes "mail"

abbrev pub worker : Bytes
worker = codes "w1"

-- A pending job that is due at time 10.
abbrev pub pending_job : Row
pending_job = record {
  id = id_a;
  queue = mail;
  kind = codes "send";
  payload = [];
  idempotency_key = none;
  request_fingerprint = replicate 32 7;
  state = pending;
  attempts = 0;
  max_attempts = 2;
  available_at = 10;
  created_at = 10;
  updated_at = 10;
  lease_token = none;
  lease_owner = none;
  lease_until = none;
  last_error = [];
  finished_at = none;
}

-- The other job, on its first attempt until time 50.
abbrev pub running_job : Row
running_job = record pending_job {
  id = id_b;
  state = running;
  attempts = 1;
  lease_token = some token_b;
  lease_owner = some worker;
  lease_until = some 50;
}

abbrev pub two_jobs : Table
two_jobs = running_job ∷ pending_job ∷ []
