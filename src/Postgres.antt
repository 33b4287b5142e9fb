-- ===== src/Postgres.antt =====
-- PostgreSQL behind libpq, as the managers rely on it: a parameter of the model. A table shows the
-- rows under their keys; the text of each UPDATE and INSERT of the source is given as a function on
-- rows, and the laws say that a statement which succeeds does that to the row with its key and to no
-- other, and that one which fails changes no row. A SELECT by key may fail, and shows the row where
-- it does not. Nobody else writes between the statements of a call. Triggers act on other tables.
pub mod Memory
use justice_flow.Base.{ℕ, ◌≡◌, Option, none, some, ℤ, int_eq, ◌==◌, if◌then◌else◌}

-- `PGRES_COMMAND_OK` with the count of `PQcmdTuples`, or any other status.
pub data ExecResult : Type 0 where
  command_ok : ℕ → ExecResult
  failed : ExecResult

abbrev pub map_row {ℓ κ} : {A : Type ℓ} {B : Type κ} → (A → B) → Option A → Option B
map_row f none = none
map_row f (some a) = some (f a)

pub record Table (Db Row Update New : Type 0) (apply : ℕ → Update → Row → Row)
    (create : ℕ → New → Row) : Type 0 where
  pub find : ℤ → Db → Option Row
  pub fetch : ℤ → Db → Option Row
  pub exec : ℕ → Update → ℤ → Db → ExecResult × Db
  pub insert_row : ℕ → New → Db → Option ℤ × Db
  pub fetch_shows : (k : ℤ) (db : Db) (r : Row) → fetch k db ≡ some r → find k db ≡ some r
  pub exec_done :
      (now : ℕ) (u : Update) (k : ℤ) (db : Db) (n : ℕ) (j : ℤ)
      → (exec now u k db).0 ≡ command_ok n
      → find j (exec now u k db).1
        ≡ (if k == j then map_row (apply now u) (find j db) else find j db)
  pub exec_failed :
      (now : ℕ) (u : Update) (k : ℤ) (db : Db) (j : ℤ)
      → (exec now u k db).0 ≡ failed
      → find j (exec now u k db).1 ≡ find j db
  pub insert_fresh :
      (now : ℕ) (n : New) (db : Db) (k : ℤ) → (insert_row now n db).0 ≡ some k → find k db ≡ none
  pub insert_done :
      (now : ℕ) (n : New) (db : Db) (k j : ℤ)
      → (insert_row now n db).0 ≡ some k
      → find j (insert_row now n db).1 ≡ (if k == j then some (create now n) else find j db)
  pub insert_failed :
      (now : ℕ) (n : New) (db : Db) (j : ℤ)
      → (insert_row now n db).0 ≡ none
      → find j (insert_row now n db).1 ≡ find j db
