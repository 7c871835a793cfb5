-- ===== src/Engine/Legal.antt =====
-- What the validators of pkg/jobs/values.go say of the arguments of two statements.
use gotth_jobs.Common.{◌≡◌, ◌≤◌, none, true, arith, length}
use gotth_jobs.Types.{ClaimRequest, Failure}
use gotth_jobs.Table.{between}
use gotth_jobs.Values.{validate_claim, validate_failure, validate_name}

pub claim_legal :
    (request : ClaimRequest)
    → validate_claim request ≡ none
    → between 1 256 (length request.worker) ≡ true
unfolding validate_claim validate_name
claim_legal request h = ground arith

pub fail_legal :
    (failure : Failure) → validate_failure failure ≡ none → length failure.message ≤ 4096
unfolding validate_failure
fail_legal failure h = ground arith
