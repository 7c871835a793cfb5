-- ===== src/Operations/Counting.antt =====
-- Counts on a consistent table: the states that it knows add up to the total.
use gotth_jobs.Common.{
  ℕ, ◌+◌, ◌≡◌, ◌<◌, ◌^◌, refl, Bool, true, pos, none, [], ◌∷◌, length, select, every, arith, wrap64,
  ◌∙◌, if◌then◌else◌,
}
use gotth_jobs.Bytes.{Bytes, bytes_eq}
use gotth_jobs.Types.{State, pending, running, succeeded, dead, canceled, other}
use gotth_jobs.Errors.{ok}
use gotth_jobs.Table.{Row, Table, IsConsistent, satisfies_checks, attempt_checks}
use gotth_jobs.Table.Statements.{in_state}
use gotth_jobs.Table.Statements.Checks.{checked→}
use gotth_jobs.Table.Statements.Reads.{count_state, counts_sql}
use gotth_jobs.Operations.{add64, known_total, counted}

-- A sum of naturals below 2^63 does not wrap.
add64_small : (a b : ℕ) → a + b < 2 ^ 63 → add64 (pos a) (pos b) ≡ pos (a + b)
unfolding add64 wrap64
add64_small a b h = ground arith

-- One of the five states, as a number.
abbrev hits : State → ℕ
hits (other text) = 0
hits _ = 1

known : (s : State) (a m : ℕ) → attempt_checks s a m ≡ true → hits s ≡ 1
unfolding attempt_checks
known pending a m h = refl
known running a m h = refl
known succeeded a m h = refl
known dead a m h = refl
known canceled a m h = refl
known (other text) a m h = ground arith

abbrev pub five_counts : Table → ℕ
five_counts t =
    count_state pending t
    + count_state running t
    + count_state succeeded t
    + count_state dead t
    + count_state canceled t

abbrev one_if : Bool → ℕ
one_if b = if b then 1 else 0

-- A state is one of those that it is compared with.
in_one :
    (s : State)
    → one_if (in_state s pending)
        + one_if (in_state s running)
        + one_if (in_state s succeeded)
        + one_if (in_state s dead)
        + one_if (in_state s canceled)
      ≡ hits s
in_one pending = refl
in_one running = refl
in_one succeeded = refl
in_one dead = refl
in_one canceled = refl
in_one (other text) = refl

count_state-cons :
    (s : State) (r : Row) (t : Table)
    → count_state s (r ∷ t) ≡ one_if (in_state r.state s) + count_state s t
unfolding count_state select
count_state-cons s r t = ground arith

five_counts_lem : (t : Table) → every satisfies_checks t ≡ true → five_counts t ≡ length t
unfolding every
five_counts_lem [] h = unfold count_state select in refl
five_counts_lem (r ∷ t) h =
    let rest = five_counts_lem t (ground arith) in
    let here : satisfies_checks r ≡ true = ground arith in
    let hit =
      in_one r.state ∙ known r.state r.attempts r.max_attempts (checked→ r here).attempted in
    omega (
      arith,
      rest,
      hit,
      count_state-cons pending r t,
      count_state-cons running r t,
      count_state-cons succeeded r t,
      count_state-cons dead r t,
      count_state-cons canceled r t,
    )

select-every : (p q : Row → Bool) (t : Table) → every p t ≡ true → every p (select q t) ≡ true
unfolding every select
select-every p q [] h = refl
select-every p q (r ∷ t) h = ground (arith, select-every p q t)

abbrev here : Bytes → Table → Table
here queue t = select (λ r. bytes_eq r.queue queue) t

agree :
    (a b c d e n : ℕ)
    → a + b + c + d + e ≡ n
    → n < 2 ^ 63
    → add64 (add64 (add64 (add64 (pos a) (pos b)) (pos c)) (pos d)) (pos e) ≡ pos n
agree a b c d e n h k =
    rw
      (
        add64_small a b (omega arith),
        add64_small (a + b) c (omega arith),
        add64_small (a + b + c) d (omega arith),
        add64_small (a + b + c + d) e (omega arith),
        h,
      )
      refl

-- On a consistent table with fewer than 2^63 jobs in the queue, Counts accepts the answer of its
-- query: the five counts add up to the total, in `int64`, and it returns them.
pub counted-counts_sql :
    (queue : Bytes) (t : Table)
    → IsConsistent t
    → length (select (λ r. bytes_eq r.queue queue) t) < 2 ^ 63
    → (counted (ok (counts_sql queue t)) ≡ (
      record {
        pending = pos (count_state pending (select (λ r. bytes_eq r.queue queue) t));
        running = pos (count_state running (select (λ r. bytes_eq r.queue queue) t));
        succeeded = pos (count_state succeeded (select (λ r. bytes_eq r.queue queue) t));
        dead = pos (count_state dead (select (λ r. bytes_eq r.queue queue) t));
        canceled = pos (count_state canceled (select (λ r. bytes_eq r.queue queue) t));
      },
      none,
    ))
      × (five_counts (select (λ r. bytes_eq r.queue queue) t)
          ≡ length (select (λ r. bytes_eq r.queue queue) t))
unfolding counted known_total counts_sql
counted-counts_sql queue t c small =
    let total = five_counts_lem (here queue t) (select-every satisfies_checks _ t c.checked) in
    (rw (agree _ _ _ _ _ _ total small) (ground arith), total)
