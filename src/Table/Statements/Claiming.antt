-- ===== src/Table/Statements/Claiming.antt =====
-- claimSQL as a burial of exhausted jobs and a change of the first candidate.
use gotth_jobs.Common.{
  ℤ, ◌≡◌, refl, sym, subst, ap, ◌∙◌, true, false, In, All, All-of, [], ◌∷◌, inl, inr, arith, map,
  select, every-in, length, in-take, take,
}
use gotth_jobs.Bytes.{Bytes, bytes_eq→eq, bytes_eq_self, bytes_eq}
use gotth_jobs.Table.{Row, Table, IsConsistent, HasUniqueIds, satisfies_checks, between}
use gotth_jobs.Table.Update.{Answer, rows, update_rows, HasUniqueIds-update_rows}
use gotth_jobs.Table.Lookup.{put, select-single, update_rows-put}
use gotth_jobs.Values.Identifiers.{valid_lease_token}
use gotth_jobs.Table.Statements.{Session, id_among}
use gotth_jobs.Table.Statements.Claim.{
  claim_sql, claim_row, exhausted_row, expired_rows, candidate_rows, lockable, claimable, due_at,
}
use gotth_jobs.Table.Statements.Consistency.{claim_sql-Accepted}
use gotth_jobs.Table.Statements.Disjoint.{
  in-update, in-lockable, candidate-not_expired, claim_sql-cases,
}
use gotth_jobs.Table.Statements.Fencing.{update_rows-none, claimed-row}

-- The table after the first part of a claim: of the jobs whose last attempt has expired, the first 100
-- that no other transaction holds locked are dead.
unfoldable pub buried : Session → Bytes → Table → Table
unfolding expired_rows exhausted_row id_among update_rows
buried session queue t =
    update_rows (id_among (expired_rows session queue t)) (exhausted_row session) t

among_self : (c : Row) → id_among (c ∷ []) c ≡ true
unfolding id_among
among_self c = rw (bytes_eq_self c.id) refl

among_only : (c y : Row) → id_among (c ∷ []) y ≡ true → y.id ≡ c.id
unfolding id_among
among_only c y h = ground (arith, bytes_eq→eq y.id c.id)

first_lockable :
    (session : Session) (queue : Bytes) (t : Table)
    → take 1 (lockable session due_at (claimable session queue) t) ≡ candidate_rows session queue t
unfolding candidate_rows
first_lockable session queue t = refl

candidate-claimable :
    (session : Session) (queue : Bytes) (t : Table) (x : Row)
    → candidate_rows session queue t ≡ x ∷ []
    → In x t × (claimable session queue x ≡ true) × (session.locked x.id ≡ false)
candidate-claimable session queue t x e =
    in-lockable session due_at (claimable session queue) t x
      (in-take 1 _ x (subst (In x) (sym (first_lockable session queue t ∙ e)) (inl refl)))

pub candidate_in :
    (session : Session) (queue : Bytes) (t : Table) (x : Row)
    → candidate_rows session queue t ≡ x ∷ []
    → In x t
candidate_in session queue t x e = (candidate-claimable session queue t x e).0

queue_of :
    (session : Session) (queue : Bytes) (x : Row)
    → claimable session queue x ≡ true
    → bytes_eq x.queue queue ≡ true
unfolding claimable
queue_of session queue x h = ground arith

pub candidate-queue :
    (session : Session) (queue : Bytes) (t : Table) (x : Row)
    → candidate_rows session queue t ≡ x ∷ []
    → bytes_eq x.queue queue ≡ true
candidate-queue session queue t x e =
    queue_of session queue x (candidate-claimable session queue t x e).1

module _ (session : Session) (queue token worker : Bytes) (micros : ℤ) (t : Table)
    (c : IsConsistent t) (ht : valid_lease_token token ≡ true)
    (hw : between 1 256 (length worker) ≡ true) where
  -- A consistent table lets the claim through.
  pub claim_sql-done : claim_sql session queue token worker micros t ≡ (
    rows (
        map
          (claim_row session token worker micros)
          (select (id_among (candidate_rows session queue t)) (buried session queue t))),
    update_rows
        (id_among (candidate_rows session queue t))
        (claim_row session token worker micros)
        (buried session queue t),
  )
  unfolding buried
  claim_sql-done = elim (claim_sql-cases session queue token worker micros t) [
    | inl refused ↦ absurd (
        (claim_sql-Accepted session queue t c token worker micros ht hw).0
          (ap (λ (y : Answer × Table). y.0) refused))
    | inr done ↦ done
  ]

  pub claim_sql-none :
      candidate_rows session queue t ≡ []
      → claim_sql session queue token worker micros t ≡ (rows [], buried session queue t)
  claim_sql-none e =
      let empty : All (λ r. id_among (candidate_rows session queue t) r ≡ false)
          (buried session queue t) =
        All-of _ _ λ r m. rw e (unfold id_among in refl) in
      let (none_selected, same) =
        update_rows-none (id_among (candidate_rows session queue t))
          (claim_row session token worker micros) (buried session queue t) empty in
      claim_sql-done
      ∙ (λ i. (rows (map (claim_row session token worker micros) (none_selected i)), same i))

  pub claim_sql-one :
      (x : Row)
      → candidate_rows session queue t ≡ x ∷ []
      → (claim_sql session queue token worker micros t ≡ (
        rows (claim_row session token worker micros x ∷ []),
        put (claim_row session token worker micros x) (buried session queue t),
      ))
        × In x t
        × (satisfies_checks (claim_row session token worker micros x) ≡ true)
        × In
            (claim_row session token worker micros x)
            (put (claim_row session token worker micros x) (buried session queue t))
        × IsConsistent (put (claim_row session token worker micros x) (buried session queue t))
  claim_sql-one x e =
      let inside = candidate_in session queue t x e in
      let unique : HasUniqueIds (buried session queue t) =
        unfold buried exhausted_row in HasUniqueIds-update_rows _ _ t (λ r. refl) c.unique in
      let alive = candidate-not_expired session queue t c.unique x inside (rw e (among_self x)) in
      let kept : In x (buried session queue t) =
        unfold buried in
        subst
          (λ y.
            In y (update_rows (id_among (expired_rows session queue t)) (exhausted_row session) t))
          (rw alive)
          (in-update (id_among (expired_rows session queue t)) (exhausted_row session) t x
            inside) in
      let selected =
        select-single (id_among (x ∷ [])) (buried session queue t) x unique kept (among_self x)
          (among_only x) in
      let replaced =
        update_rows-put (id_among (x ∷ [])) (claim_row session token worker micros)
          (buried session queue t) x unique kept (among_self x) (among_only x)
          (unfold claim_row in refl) in
      let whole = rw e at claim_sql-done in
      let result =
        whole
        ∙ (λ i. (rows (map (claim_row session token worker micros) (selected i)), replaced i)) in
      let (here, _, _) =
        claimed-row session queue token worker micros t
          (claim_row session token worker micros x ∷ []) _ (claim_row session token worker micros x)
          result (inl refl) in
      let accepted = (claim_sql-Accepted session queue t c token worker micros ht hw).1 in
      let consistent = subst (λ (y : Answer × Table). IsConsistent y.1) result accepted in
      (result, inside, every-in satisfies_checks _ _ consistent.checked here, here, consistent)
