-- ===== src/Examples/Calls.antt =====
-- Calls on the concrete database.
use gotth_jobs.Postgres.Outcomes.{transact-unknown, IsCommitted, transact-IsCommitted}
use gotth_jobs.Errors.{Err, plain_error, error_is, commit_outcome_unknown}
use gotth_jobs.Types.{Lease}
use gotth_jobs.Lifecycle.{extend_lease}
use gotth_jobs.Common.{refl, pos, true, Option, none, some, ◌+◌, ◌≡◌}
use gotth_jobs.Postgres.{Context, Database, transact}
use gotth_jobs.Examples.{id_b, token_b, at, two_jobs}
use gotth_jobs.Examples.Server.{Server, server}

abbrev pub idle : Server
idle = record { stored = two_jobs; working = none; ticks = 0 }

abbrev pub live : Option Context
live = some (record { err = none })

abbrev lease_b : Lease
lease_b = record { job_id = id_b; token = token_b }

-- A database that commits, and one whose commits are stored but report an error.
abbrev pub steady : Database Server
steady = server (λ n. at (n + 20)) (λ n. true) (λ n. none)

abbrev pub cut_off : Database Server
cut_off = server (λ n. at (n + 20)) (λ n. true) (λ n. some (plain_error "connection reset"))

abbrev beat : Database Server → (Unit {0} × Option Err) × Server
beat database = transact database tt live (extend_lease database lease_b (pos 5000000000)) idle

beat_succeeds : beat steady ≡ ((tt, none), (beat steady).1)
unfolding transact extend_lease server gotth_jobs.Bytes.bytes_eq gotth_jobs.Table.satisfies_checks
    gotth_jobs.Table.fixed_checks gotth_jobs.Values.Identifiers.valid_job_id
    gotth_jobs.Bytes.is_hex_digit gotth_jobs.Values.Identifiers.valid_lease_token
beat_succeeds = refl

transact-IsCommitted_example :
    IsCommitted steady tt (extend_lease steady lease_b (pos 5000000000)) tt idle (beat steady).1
transact-IsCommitted_example =
    transact-IsCommitted steady tt (extend_lease steady lease_b (pos 5000000000)) live idle tt
      (beat steady).1 beat_succeeds

transact-unknown_example :
    ((beat cut_off).0.0 ≡ tt) × (error_is (beat cut_off).0.1 commit_outcome_unknown ≡ true)
unfolding server extend_lease gotth_jobs.Bytes.bytes_eq gotth_jobs.Table.satisfies_checks
    gotth_jobs.Table.fixed_checks gotth_jobs.Values.Identifiers.valid_job_id
    gotth_jobs.Bytes.is_hex_digit gotth_jobs.Values.Identifiers.valid_lease_token
transact-unknown_example =
    transact-unknown cut_off tt (extend_lease cut_off lease_b (pos 5000000000))
      (record { err = none }) idle (record idle { working = some two_jobs })
      (extend_lease cut_off lease_b (pos 5000000000) (record idle { working = some two_jobs })).1 tt
      (plain_error "connection reset") refl refl refl
