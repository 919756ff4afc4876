-- ===== src/Persistence/Sql.antt =====
-- What the store asks of SQLite: rows by a test, a primary key, and a transaction, whose writes are undone when its
-- body raises.
pub mod Laws
pub use attention_sink.Domain.Actions.{
  Action, pure, raising, gets, modify, then_do, lift, asks, ensure, ◌>>=◌, ◌>>◌,
}
use attention_sink.Prelude.{
  ℕ, ◌+◌, Bool, true, false, Option, none, some, List, [], ◌∷◌, ◌++◌, any, if◌then◌else◌,
}
use attention_sink.Domain.Errors.{Error, Result, ok, raise, integrity_error, require}

-- A loop of writes.
unfoldable pub for_rows {ℓ} :
    {D : Type 0} {A : Type ℓ} → (A → Action D (Unit {0})) → List A → Action D (Unit {0})
for_rows f [] = pure tt
for_rows f (x ∷ xs) = f x >> for_rows f xs

-- `BEGIN IMMEDIATE`, then `COMMIT`, or `ROLLBACK` and the error again.
abbrev pub settle : {D A : Type 0} → D → Result A × D → Result A × D
settle before (ok a, after) = (ok a, after)
settle before (raise e, after) = (raise e, before)

unfoldable pub transaction : {D A : Type 0} → Action D A → Action D A
transaction body d = settle d (body d)

-- `except sqlite3.IntegrityError`
abbrev pub on_integrity_error : {D A : Type 0} → Error → Result A × D → Result A × D
on_integrity_error e (raise integrity_error, d) = (raise e, d)
on_integrity_error e out = out

module _ {R : Type 0} where
  -- `SELECT ... WHERE`, and its first row.
  abbrev pub find_row : (R → Bool) → List R → Option R
  find_row p [] = none
  find_row p (r ∷ rs) = if p r then some r else find_row p rs

  -- `UPDATE ... SET ... WHERE`
  abbrev pub update_rows : (R → Bool) → (R → R) → List R → List R
  update_rows p f [] = []
  update_rows p f (r ∷ rs) = (if p r then f r else r) ∷ update_rows p f rs

  -- `INSERT ... ON CONFLICT(key) DO UPDATE SET`: the row under the key is changed, or the row is added.
  abbrev pub upsert_row : (R → Bool) → (R → R) → R → List R → List R
  upsert_row key change row rows =
      if any key rows then update_rows key change rows else rows ++ row ∷ []

  -- `INSERT`: a row under the primary key is refused.
  abbrev pub insert_row : (R → Bool) → R → List R → Result (List R)
  insert_row key row rows = if any key rows then raise integrity_error else ok (rows ++ row ∷ [])
