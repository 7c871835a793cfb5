-- ===== src/Operations/Refinement/Paging.antt =====
-- ListDead answers the jobs of its page, and a cursor made of a job that it answered continues after it.
use gotth_jobs.Common.{
  ◌&&◌, ℕ, ℤ, pos, ◌≡◌, ◌≤◌, refl, sym, ap, ◌∙◌, true, false, Option, none, some, List, [], ◌∷◌,
  ◌++◌, map, In, All, All-of, All-at, every-in, in-take, in-order_by, in-select, arith, ltb_ℤ, ◌||◌,
  IsOrder, take, subst,
}
use mathlib.Core.List.{append-nil, append_assoc}
use gotth_jobs.Bytes.{Bytes}
use gotth_jobs.Types.{Job, DeadCursor, dead, max_queue_bytes, max_dead_page}
use gotth_jobs.Errors.{Err, ok}
use gotth_jobs.Values.{validate_name}
use gotth_jobs.Table.{
  Row, Table, IsConsistent, satisfies_checks, columns, to_time, of_time, map_option,
}
use gotth_jobs.Table.Decoded.{job_of, IsReadable}
use gotth_jobs.Values.{is_postgresql_timestamp}
use gotth_jobs.Values.Identifiers.{validate_job_id, valid_job_id}
use gotth_jobs.Table.Decoded.{time_or_zero}
use gotth_jobs.Table.Decoded.Fits.{fixed_checks-IsMeasured}
use gotth_jobs.Table.Statements.Pages.{
  dead_letters, pages_continue, IsAntisymmetric, finished, in_middle,
}
use gotth_jobs.Table.Statements.Checks.{checked→}
use gotth_jobs.Table.Decoded.Scan.{scan_job-columns}
use gotth_jobs.Table.Statements.{Session}
use gotth_jobs.Table.Statements.Checks.{in_state→eq}
use gotth_jobs.Table.Statements.Reads.{list_dead_sql, dead_in, dead_le, past_cursor}
use gotth_jobs.Postgres.{Context, Database}
use gotth_jobs.Engine.Serving.Reads.{ServesReads}
use gotth_jobs.Lifecycle.Refinement.Transaction.{Performs}
use gotth_jobs.Operations.{
  is_dead, scan_dead, listed_rows, iterated, listed, list_dead, validate_cursor, cursor_time,
  cursor_job,
}

-- The jobs of dead rows are read in order.
scan_dead-rows :
    (jobs : List Job) (l : List Row)
    → All (λ r. (satisfies_checks r ≡ true) × IsReadable r × (r.state ≡ dead)) l
    → scan_dead jobs (map columns l) ≡ ok (jobs ++ map job_of l)
unfolding scan_dead
scan_dead-rows jobs [] h = ap ok (sym (append-nil jobs))
scan_dead-rows jobs (r ∷ l) ((checked, readable, e), hs) =
    rw (scan_job-columns r checked readable, is_dead_row r e, scan_dead)
      (scan_dead-rows (jobs ++ job_of r ∷ []) l hs
        ∙ ap ok (append_assoc jobs (job_of r ∷ []) (map job_of l)))
  where
    is_dead_row : (r : Row) → r.state ≡ dead → is_dead (job_of r).state ≡ true
    is_dead_row r e = unfold job_of in rw e refl

-- The instant of a column comes back from Go as it was.
of_time-to_time : (n : ℕ) → of_time (record (to_time n) { in_utc = true }) ≡ n
unfolding of_time to_time
of_time-to_time n = ground arith

listed_in :
    (session : Session) (queue : Bytes) (time : Option ℕ) (id : Bytes) (limit : ℤ) (t : Table)
    (r : Row)
    → In r (list_dead_sql session queue time id limit t)
    → In r t × (r.state ≡ dead)
unfolding list_dead_sql
listed_in session queue time id limit t r m =
    let (inside, passes) =
      in-select (λ x. dead_in queue x && past_cursor session time id x) t r
        (in-order_by (dead_le session) _ r (in-take _ _ r m)) in
    (inside, is_in_dead r passes)
  where
    is_in_dead :
        (x : Row) → (dead_in queue x && past_cursor session time id x) ≡ true → x.state ≡ dead
    is_in_dead x h = unfold dead_in in ground (arith, in_state→eq x.state dead)

module _ {S : Type 0} (database : Database S) (session : Session) (refused : Err)
    (committed : S → Table) (serves : ServesReads database session refused committed)
    (ctx : Context) (s : S) (c : IsConsistent (committed s))
    (readable : All IsReadable (committed s)) (queue : Bytes)
    (named : validate_name "queue" queue max_queue_bytes ≡ none) (n : ℕ) (least : 1 ≤ n)
    (most : n ≤ max_dead_page) where
  All-dead :
      (time : Option ℕ) (id : Bytes)
      → All
          (λ r. (satisfies_checks r ≡ true) × IsReadable r × (r.state ≡ dead))
          (list_dead_sql session queue time id (pos n) (committed s))
  All-dead time id = All-of _ _ λ r m.
      let (inside, d) = listed_in session queue time id (pos n) (committed s) r m in
      (
        every-in satisfies_checks (committed s) r c.checked inside,
        All-at IsReadable (committed s) r readable inside,
        d,
      )

  in_limits : (ltb_ℤ (pos n) (pos 1) || ltb_ℤ (pos max_dead_page) (pos n)) ≡ false
  in_limits = ground arith

  pub list_dead-Performs :
      (cursor : Option DeadCursor)
      → validate_cursor cursor ≡ none
      → Performs committed
          (list_dead (some (record { database = some database })) (some ctx) queue cursor (pos n) s)
          (
            (
              map job_of (
                  list_dead_sql session queue
                    (map_option of_time (cursor_time cursor))
                    (cursor_job cursor)
                    (pos n)
                    (committed s)),
              none,
            ),
            committed s,
          )
  unfolding list_dead listed listed_rows iterated
  list_dead-Performs cursor valid =
      let (set, below) = serves.lists queue (cursor_time cursor) (cursor_job cursor) (pos n) s in
      rw (named, in_limits, valid)
        (
          rw
              (
                set,
                scan_dead-rows [] _
                    (All-dead (map_option of_time (cursor_time cursor)) (cursor_job cursor)),
              )
              refl,
          below,
        )

-- The cursor that a client makes of a job.
abbrev pub cursor_after : Job → DeadCursor
cursor_after job = record { finished_at = job.finished_at; id = job.id }

letter_in :
    (session : Session) (queue : Bytes) (t : Table) (r : Row)
    → In r (dead_letters session queue t)
    → In r t
unfolding dead_letters
letter_in session queue t r m =
    (in-select (dead_in queue) t r (in-order_by (dead_le session) _ r m)).0

cursor_valid :
    (r : Row) (n : ℕ)
    → satisfies_checks r ≡ true
    → IsReadable r
    → r.finished_at ≡ some n
    → validate_cursor (some (cursor_after (job_of r))) ≡ none
unfolding validate_cursor job_of
cursor_valid r n checked readable e =
    let valid = (fixed_checks-IsMeasured r (checked→ r checked).fixed).id in
    let time : is_postgresql_timestamp (time_or_zero r.finished_at) ≡ true =
      rw e (rw e at readable.finished) in
    rw (time, valid_id r valid) refl
  where
    valid_id : (x : Row) → valid_job_id x.id ≡ true → validate_job_id x.id ≡ none
    valid_id x h = unfold validate_job_id in rw h refl

cursor_exact :
    (r : Row) (n : ℕ)
    → r.finished_at ≡ some n
    → map_option of_time (cursor_time (some (cursor_after (job_of r)))) ≡ r.finished_at
unfolding job_of
cursor_exact r n e = rw e (ap some (of_time-to_time n))

-- The dead letters of a queue have one order. ListDead without a cursor answers the jobs of its start,
-- and with a cursor made of the job of any dead letter, as ListDead answered it, the jobs of exactly
-- what follows it: the time of the cursor comes back from Go as the column had it. The database answers
-- reads from a consistent and readable table.
pub list_dead_pages :
    {S : Type 0} (database : Database S) (session : Session) (refused : Err) (committed : S → Table)
    (serves : ServesReads database session refused committed) (ctx : Context) (s : S)
    (queue : Bytes) (n : ℕ) (before : List Row) (r : Row) (rest : List Row)
    → IsConsistent (committed s)
    → All IsReadable (committed s)
    → validate_name "queue" queue max_queue_bytes ≡ none
    → 1 ≤ n
    → n ≤ max_dead_page
    → IsOrder session.id_le
    → IsAntisymmetric session.id_le
    → dead_letters session queue (committed s) ≡ before ++ r ∷ rest
    → ((list_dead (some (record { database = some database })) (some ctx) queue none (pos n) s).0
        ≡ (map job_of (take n (before ++ r ∷ rest)), none))
      × ((list_dead
            (some (record { database = some database }))
            (some ctx)
            queue
            (some (cursor_after (job_of r)))
            (pos n)
            s).0
          ≡ (map job_of (take n rest), none))
unfolding validate_cursor job_of
list_dead_pages database session refused committed serves ctx s queue n before r rest c readable
      named least most o anti e =
    let (k, finished_at) = finished session o anti queue (committed s) c before r rest e in
    let inside = letter_in session queue (committed s) r (
      subst (In r) (sym e)
        (in_middle session o anti queue (committed s) c before r rest e before)) in
    let checked = every-in satisfies_checks (committed s) r c.checked inside in
    let valid =
      cursor_valid r k checked (All-at IsReadable (committed s) r readable inside) finished_at in
    let (first, _) =
      list_dead-Performs database session refused committed serves ctx s c readable queue named n
        least most none refl in
    let (next, _) =
      list_dead-Performs database session refused committed serves ctx s c readable queue named n
        least most (some (cursor_after (job_of r))) valid in
    let (start, follow) =
      pages_continue session o anti queue (committed s) c before r rest e [] n in
    (
      first ∙ ap (λ (l : List Row). (map job_of l, none)) start,
      next
          ∙ ap (λ (l : List Row). (map job_of l, none))
              (ap (λ (time : Option ℕ). list_dead_sql session queue time r.id (pos n) (committed s))
                  (cursor_exact r k finished_at)
                ∙ follow),
    )
