-- ===== src/Persistence/Sql/Laws.antt =====
-- What a SELECT of one row finds behind an UPDATE, an INSERT and a DELETE, and what a transaction undoes.
use attention_sink.Prelude.{
  ◌≡◌, refl, Bool, true, false, Option, none, some, List, [], ◌∷◌, ◌++◌, filter, any, if◌then◌else◌,
  arith, Bool-cases, inl, inr,
}
use attention_sink.Domain.Errors.{Error, Result, ok, raise}
use attention_sink.Persistence.Sql.{Action, settle, transaction, find_row, update_rows, upsert_row}

abbrev pub option_map {ℓ κ} : {A : Type ℓ} {B : Type κ} → (A → B) → Option A → Option B
option_map f none = none
option_map f (some a) = some (f a)

-- The first of two options that is there.
abbrev pub or_else {ℓ} : {A : Type ℓ} → Option A → Option A → Option A
or_else none b = b
or_else (some a) b = some a

pub or_else-none {ℓ} : {A : Type ℓ} (o : Option A) → or_else o none ≡ o
or_else-none none = refl
or_else-none (some a) = refl

module _ {R : Type 0} where
  -- A change that keeps what the test reads.
  pub find_row-update_rows :
      (q p : R → Bool) (f : R → R) (rows : List R)
      → ((r : R) → q (f r) ≡ q r)
      → find_row q (update_rows p f rows)
        ≡ option_map (λ r. if p r then f r else r) (find_row q rows)
  find_row-update_rows q p f [] h = refl
  find_row-update_rows q p f (r ∷ rows) h = ground (arith, h r, find_row-update_rows q p f rows h)

  -- A change that keeps what the test and the reader read.
  pub find_row-update_rows_map {κ} :
      {B : Type κ} (q p : R → Bool) (f : R → R) (read : R → B) (rows : List R)
      → ((r : R) → q (f r) ≡ q r)
      → ((r : R) → read (f r) ≡ read r)
      → option_map read (find_row q (update_rows p f rows)) ≡ option_map read (find_row q rows)
  find_row-update_rows_map q p f read [] h k = refl
  find_row-update_rows_map q p f read (r ∷ rows) h k =
      ground (arith, h r, k r, find_row-update_rows_map q p f read rows h k)

  -- A change of rows that the test does not look for.
  pub find_row-update_rows_other :
      (q p : R → Bool) (f : R → R) (rows : List R)
      → ((r : R) → q (f r) ≡ q r)
      → ((r : R) → q r ≡ true → p r ≡ false)
      → find_row q (update_rows p f rows) ≡ find_row q rows
  find_row-update_rows_other q p f [] h k = refl
  find_row-update_rows_other q p f (r ∷ rows) h k =
      ground (arith, h r, k r, find_row-update_rows_other q p f rows h k)

  pub find_row-append :
      (q : R → Bool) (xs ys : List R)
      → find_row q (xs ++ ys) ≡ or_else (find_row q xs) (find_row q ys)
  find_row-append q [] ys = refl
  find_row-append q (x ∷ xs) ys = ground (arith, find_row-append q xs ys)

  -- Rows are left out that the test does not look for.
  pub find_row-filter :
      (q p : R → Bool) (rows : List R)
      → ((r : R) → q r ≡ true → p r ≡ true)
      → find_row q (filter p rows) ≡ find_row q rows
  find_row-filter q p [] h = refl
  find_row-filter q p (r ∷ rows) h = ground (arith, h r, find_row-filter q p rows h)

  -- Every row that the test looks for is left out.
  pub find_row-filter-none :
      (q p : R → Bool) (rows : List R)
      → ((r : R) → q r ≡ true → p r ≡ false)
      → find_row q (filter p rows) ≡ none
  find_row-filter-none q p [] h = refl
  find_row-filter-none q p (r ∷ rows) h = ground (arith, h r, find_row-filter-none q p rows h)

  pub find_row-holds :
      (q : R → Bool) (rows : List R) {r : R} → find_row q rows ≡ some r → q r ≡ true
  find_row-holds q [] {r} h = cc
  find_row-holds q (x ∷ rows) {r} h = ground (arith, find_row-holds q rows {r = r})

  pub any-find_row :
      (q : R → Bool) (rows : List R) {r : R} → find_row q rows ≡ some r → any q rows ≡ true
  any-find_row q [] {r} h = cc
  any-find_row q (x ∷ rows) {r} h = ground (arith, any-find_row q rows {r = r})

  pub find_row-absent : (q : R → Bool) (rows : List R) → any q rows ≡ false → find_row q rows ≡ none
  find_row-absent q [] h = refl
  find_row-absent q (x ∷ rows) h = ground (arith, find_row-absent q rows)

  pub absent-find_row : (q : R → Bool) (rows : List R) → find_row q rows ≡ none → any q rows ≡ false
  absent-find_row q [] h = refl
  absent-find_row q (x ∷ rows) h = ground (arith, absent-find_row q rows)

-- A transaction that raises leaves the database as it was.
pub transaction-raises :
    {D A : Type 0} (body : Action D A) (d : D) {e : Error}
    → (transaction body d).0 ≡ raise e
    → (transaction body d).1 ≡ d
unfolding transaction
transaction-raises body d h = settled d (body d) h
  where
    settled :
        {D A : Type 0} (d : D) (out : Result A × D) {e : Error}
        → (settle d out).0 ≡ raise e
        → (settle d out).1 ≡ d
    settled d (ok a, after) h = cc
    settled d (raise e, after) h = refl

module _ {R : Type 0} (key : R → Bool) (change : R → R) (row : R) where
  updated-reads {κ} :
      {B : Type κ} (read : R → B) (v : B) (rows : List R)
      → ((r : R) → key (change r) ≡ key r)
      → ((r : R) → read (change r) ≡ v)
      → any key rows ≡ true
      → option_map read (find_row key (update_rows key change rows)) ≡ some v
  updated-reads read v [] same new there = cc
  updated-reads read v (r ∷ rows) same new there =
      ground (arith, same r, new r, updated-reads read v rows same new)

  -- What is written under a key is read under it.
  pub upsert_row-reads {κ} :
      {B : Type κ} (read : R → B) (v : B) (rows : List R)
      → ((r : R) → key (change r) ≡ key r)
      → ((r : R) → read (change r) ≡ v)
      → key row ≡ true
      → read row ≡ v
      → option_map read (find_row key (upsert_row key change row rows)) ≡ some v
  upsert_row-reads read v rows same new named value = elim (Bool-cases (any key rows)) [
    | inl there ↦ rw there (updated-reads read v rows same new there)
    | inr absent ↦ rw (absent, find_row-append, find_row-absent key rows absent, named, value) refl
  ]

  -- What is read under other keys stays.
  pub upsert_row-other :
      (q : R → Bool) (rows : List R)
      → ((r : R) → q (change r) ≡ q r)
      → ((r : R) → q r ≡ true → key r ≡ false)
      → q row ≡ false
      → find_row q (upsert_row key change row rows) ≡ find_row q rows
  upsert_row-other q rows same apart named = elim (Bool-cases (any key rows)) [
    | inl there ↦ rw there (find_row-update_rows_other q key change rows same apart)
    | inr absent ↦ rw (absent, find_row-append, named) (or_else-none (find_row q rows))
  ]
