-- ===== src/Examples/Paging.antt =====
-- The theorems about reads on a concrete database.
use gotth_jobs.Common.{pos, ◌≡◌, refl, none, some, [], ◌∷◌, All, every, arith, Option}
use gotth_jobs.Bytes.{bytes_le-IsOrder, bytes_le_antisym, bytes_eq}
use gotth_jobs.Types.{max_queue_bytes}
use gotth_jobs.Rows.{bad_text}
use gotth_jobs.Values.{validate_name}
use gotth_jobs.Table.{Row, Table}
use gotth_jobs.Table.Decoded.{job_of, IsReadable}
use gotth_jobs.Table.Lookup.{find_row}
use gotth_jobs.Table.Statements.Pages.{dead_letters}
use gotth_jobs.Engine.{execute_job, execute}
use gotth_jobs.Engine.Serving.Reads.{ServesReads}
use gotth_jobs.Lifecycle.Refinement.Transaction.{Performs}
use gotth_jobs.Operations.{get, list_dead}
use gotth_jobs.Operations.Refinement.Reading.{lookup, get-Performs}
use gotth_jobs.Operations.Refinement.Paging.{cursor_after, list_dead_pages}
use gotth_jobs.Examples.{at, mail, id_b, running_job}
use gotth_jobs.Examples.Calls.{idle}
use gotth_jobs.Examples.Decoding.{running-IsReadable}
use gotth_jobs.Examples.Reads.{early, late, dead-IsConsistent}
use gotth_jobs.Examples.Server.{Server, server, visible, change}
use gotth_jobs.Examples.Serving.{still, refusal, answered_same, one_job, one_job-IsConsistent}
use gotth_jobs.Examples.Operators.{id_b_valid}

-- What a statement sees.
abbrev seen : Server → Table
seen s = visible s.stored s.working

seen-change :
    (s : Server) (working : Option Table) (t : Table)
    → s.working ≡ working
    → seen (change s working t) ≡ t
unfolding visible change
seen-change s none t e = rw e refl
seen-change s (some u) t e = refl

still-ServesReads : ServesReads still (at 20) refusal seen
unfolding server execute execute_job
still-ServesReads = record {
  gets = λ id s. (answered_same _, seen-change s s.working (seen s) refl);
  counts = λ queue s. (refl, refl);
  lists = λ queue time id limit s. (refl, refl);
}

get-Performs_example :
    Performs seen
      (get (some (record { database = some still })) (some (record { err = none })) id_b one_job)
      (lookup id_b (running_job ∷ []) (find_row id_b (running_job ∷ [])), running_job ∷ [])
unfolding visible
get-Performs_example =
    get-Performs still (at 20) refusal seen still-ServesReads (record { err = none }) one_job
      one_job-IsConsistent (running-IsReadable, tt) id_b id_b_valid

abbrev letters : Server
letters = record idle { stored = early ∷ late ∷ [] }

letter-IsReadable : All IsReadable (early ∷ late ∷ [])
unfolding every bad_text gotth_jobs.Values.is_name_byte gotth_jobs.Values.is_postgresql_timestamp
    gotth_jobs.Values.is_zero gotth_jobs.Values.before gotth_jobs.Values.Utf8.valid_utf8
    gotth_jobs.Table.to_time gotth_jobs.Bytes.contains_nul
letter-IsReadable = (
  record {
    queue = refl;
    kind = refl;
    key = refl;
    owner = refl;
    last = refl;
    available = refl;
    created = refl;
    updated = refl;
    until = tt;
    finished = refl;
  },
  (
    record {
      queue = refl;
      kind = refl;
      key = refl;
      owner = refl;
      last = refl;
      available = refl;
      created = refl;
      updated = refl;
      until = tt;
      finished = refl;
    },
    tt,
  ),
)

letters_ordered : dead_letters (at 20) mail (early ∷ late ∷ []) ≡ early ∷ late ∷ []
unfolding dead_letters bytes_eq
letters_ordered = refl

mail_named : validate_name "queue" mail max_queue_bytes ≡ none
unfolding validate_name every gotth_jobs.Values.is_name_byte
mail_named = refl

list_dead_pages_example :
    ((list_dead
        (some (record { database = some still }))
        (some (record { err = none }))
        mail
        none
        (pos 1)
        letters).0
      ≡ (job_of early ∷ [], none))
    × ((list_dead
          (some (record { database = some still }))
          (some (record { err = none }))
          mail
          (some (cursor_after (job_of early)))
          (pos 1)
          letters).0
        ≡ (job_of late ∷ [], none))
unfolding visible
list_dead_pages_example =
    list_dead_pages still (at 20) refusal seen still-ServesReads (record { err = none }) letters
      mail 1 [] early (late ∷ []) dead-IsConsistent letter-IsReadable mail_named (omega arith)
      (omega arith) bytes_le-IsOrder bytes_le_antisym letters_ordered
