-- ===== src/Enqueue/Refinement/Insertion.antt =====
-- The INSERT of a request, and the rows of its key.
use gotth_jobs.Common.{
  ℕ, ◌≡◌, refl, Bool, true, false, not, ◌==◌, Option, none, some, [], ◌∷◌, length, select, every,
  In, inl, inr, Bool-cases, arith,
}
use gotth_jobs.Bytes.{Bytes, bytes_eq, bytes_eq→eq}
use gotth_jobs.Table.{Row, Table, HasNewId, satisfies_checks, columns}
use gotth_jobs.Table.Update.{rows}
use gotth_jobs.Table.Statements.{Session, new_row, conflicts, insert_row, id_among}
use gotth_jobs.Table.Lookup.{some_row}
use gotth_jobs.Engine.Serving.{keyed_by, keyed_row}
use gotth_jobs.Enqueue.Refinement.{first_where}
use gotth_jobs.Errors.{ok}

pub first_where-some :
    (p : Row → Bool) (t : Table) (r : Row)
    → first_where p t ≡ some r
    → In r t × (p r ≡ true) × (every (λ y. not (p y)) t ≡ false)
unfolding first_where every
first_where-some p [] r h = cc
first_where-some p (x ∷ t) r h = elim (Bool-cases (p x)) [
  | inl e ↦
      let same : some x ≡ some r = rw e at h in
      (inl (some_row same), cc (e, some_row same), rw e refl)
  | inr e ↦ let (m, q, n) = first_where-some p t r (rw e at h) in (inr m, q, rw (e, n) refl)
]

pub first_where-none :
    (p : Row → Bool) (t : Table) → first_where p t ≡ none → every (λ y. not (p y)) t ≡ true
unfolding first_where every
first_where-none p [] h = refl
first_where-none p (x ∷ t) h = elim (Bool-cases (p x)) [
  | inl e ↦ cc (rw e at h)
  | inr e ↦ rw e (first_where-none p t (rw e at h))
]

-- The first row that a query answers.
pub keyed_row-select :
    (p q : Row → Bool) (t : Table) (r : Row)
    → ((y : Row) → p y ≡ q y)
    → first_where p t ≡ some r
    → keyed_row (select q t) ≡ ok (some r.request_fingerprint, columns r)
unfolding first_where select keyed_row
keyed_row-select p q [] r same h = cc
keyed_row-select p q (x ∷ t) r same h = elim (Bool-cases (q x)) [
  | inl e ↦ let here : some x ≡ some r = rw (same x, e) at h in rw (e, some_row here) refl
  | inr e ↦ rw e (keyed_row-select p q t r same (rw (same x, e) at h))
]

-- A request without a key conflicts with no row, any other with the rows of its key.
pub conflicts-keyed_by :
    (session : Session) (id queue kind payload key fingerprint : Bytes) (n : ℕ)
    (available : Option ℕ) (y : Row)
    → (length key == 0) ≡ false
    → conflicts (new_row session id queue kind payload key fingerprint n available) y
      ≡ keyed_by queue key y
unfolding conflicts new_row keyed_by
conflicts-keyed_by session id queue kind payload [] fingerprint n available y h = cc
conflicts-keyed_by session id queue kind payload (b ∷ key) fingerprint n available y h = refl

pub conflicts-key :
    (session : Session) (id queue kind payload key fingerprint : Bytes) (n : ℕ)
    (available : Option ℕ) (y : Row)
    → conflicts (new_row session id queue kind payload key fingerprint n available) y ≡ true
    → (length key == 0) ≡ false
unfolding conflicts new_row
conflicts-key session id queue kind payload [] fingerprint n available y h = ground arith
conflicts-key session id queue kind payload (b ∷ key) fingerprint n available y h = ground arith

id_among-new : (t : Table) (r : Row) → HasNewId r.id t → id_among t r ≡ false
unfolding id_among
id_among-new [] r h = refl
id_among-new (x ∷ t) r (h, hs) = elim (Bool-cases (bytes_eq r.id x.id)) [
  | inl e ↦ absurd (h (bytes_eq→eq r.id x.id e))
  | inr e ↦ rw e (id_among-new t r hs)
]

-- A new row without a conflict is inserted; with one, nothing is.
pub insert_row-new :
    (new : Row) (t : Table)
    → satisfies_checks new ≡ true
    → HasNewId new.id t
    → first_where (conflicts new) t ≡ none
    → insert_row new t ≡ (rows (new ∷ []), new ∷ t)
unfolding insert_row
insert_row-new new t h fresh e =
    rw (h, first_where-none (conflicts new) t e, id_among-new t new fresh) refl

pub insert_row-conflict :
    (new : Row) (t : Table) (r : Row)
    → satisfies_checks new ≡ true
    → first_where (conflicts new) t ≡ some r
    → insert_row new t ≡ (rows [], t)
unfolding insert_row
insert_row-conflict new t r h e =
    let (_, _, found) = first_where-some (conflicts new) t r e in rw (h, found) refl
