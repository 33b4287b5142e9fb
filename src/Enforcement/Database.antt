-- ===== src/Enforcement/Database.antt =====
-- The tables of src/system/subsystem3/enforcement as the SQL texts of arrest_manager.cpp,
-- warrant_manager.cpp and bail_manager.cpp write them. The database is a parameter: the laws say that the tables are
-- apart, and that the session variables are in none of them. `NOW()` and `time` are one clock. `cleared`
-- is what a pointer to a text of a result reads once `PQclear` has freed the result.
mod ArrestRows
mod WarrantRows
mod BailRows
pub use ArrestRows.*
pub use WarrantRows.*
pub use BailRows.*
use justice_flow.Base.{
  ℕ, ◌≡◌, Bool, true, false, ◌||◌, Option, none, some, ◌∷◌, ◌++◌, ℤ, Bytes, codes, ◌==◌, bytes_eq,
  int_eq, is_empty, if◌then◌else◌, to_decimal, int_decimal,
}
use justice_flow.Postgres.{Table}

abbrev pub Arrests : Type 0 → Type 0
Arrests Db = Table Db ArrestRow ArrestUpdate NewArrest apply_arrest create_arrest

abbrev pub Warrants : Type 0 → Type 0
Warrants Db = Table Db WarrantRow WarrantUpdate NewWarrant apply_warrant create_warrant

abbrev pub Bails : Type 0 → Type 0
Bails Db = Table Db BailRow BailUpdate NewBail apply_bail create_bail

pub record EnforcementDb (Db : Type 0) : Type 0 where
  pub arrests : Arrests Db
  pub warrants : Warrants Db
  pub bails : Bails Db
  pub person_exists : Bytes → Db → Bool
  pub cleared : Bytes → Db → Bytes
  pub case_status : ℤ → Db → Option Bytes
  pub set_session_vars : ℤ → Bytes → Db → Bool × Db
  pub arrests-vars :
      (o : ℤ) (b : Bytes) (db : Db) (j : ℤ)
      → arrests.find j (set_session_vars o b db).1 ≡ arrests.find j db
  pub warrants-vars :
      (o : ℤ) (b : Bytes) (db : Db) (j : ℤ)
      → warrants.find j (set_session_vars o b db).1 ≡ warrants.find j db
  pub arrests-exec :
      (now : ℕ) (u : WarrantUpdate) (k : ℤ) (db : Db) (j : ℤ)
      → arrests.find j (warrants.exec now u k db).1 ≡ arrests.find j db
  pub warrants-exec :
      (now : ℕ) (u : ArrestUpdate) (k : ℤ) (db : Db) (j : ℤ)
      → warrants.find j (arrests.exec now u k db).1 ≡ warrants.find j db
  pub warrants-insert :
      (now : ℕ) (n : NewArrest) (db : Db) (j : ℤ)
      → warrants.find j (arrests.insert_row now n db).1 ≡ warrants.find j db
  pub arrests-insert :
      (now : ℕ) (n : NewWarrant) (db : Db) (j : ℤ)
      → arrests.find j (warrants.insert_row now n db).1 ≡ arrests.find j db
  pub arrests-bails_insert :
      (now : ℕ) (n : NewBail) (db : Db) (j : ℤ)
      → arrests.find j (bails.insert_row now n db).1 ≡ arrests.find j db
  pub arrests-bails_exec :
      (now : ℕ) (u : BailUpdate) (k : ℤ) (db : Db) (j : ℤ)
      → arrests.find j (bails.exec now u k db).1 ≡ arrests.find j db
  pub bails-vars :
      (o : ℤ) (b : Bytes) (db : Db) (j : ℤ)
      → bails.find j (set_session_vars o b db).1 ≡ bails.find j db
  pub bails-exec :
      (now : ℕ) (u : ArrestUpdate) (k : ℤ) (db : Db) (j : ℤ)
      → bails.find j (arrests.exec now u k db).1 ≡ bails.find j db

-- `snprintf` of "AR-%lld-%d", "WR-%lld-%d" and "BA-%lld-%d": the buffer holds the longest of them.
unfoldable pub document_number : Bytes → ℕ → ℤ → Bytes
document_number prefix now officer = prefix ++ (to_decimal now ++ (b'-' ∷ int_decimal officer))
