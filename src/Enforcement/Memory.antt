-- ===== src/Enforcement/Memory.antt =====
-- A database of three maps in memory, which keeps the laws that Postgres.antt and Database.antt ask
-- for: every statement on it succeeds.
use justice_flow.Base.{refl, true, none, ℤ, int_eq}
use justice_flow.Base.Dict.{Dict}
use justice_flow.Postgres.Memory.{memory_table}
use justice_flow.Enforcement.Database.{
  ArrestRow, apply_arrest, create_arrest, WarrantRow, apply_warrant, create_warrant, BailRow,
  apply_bail, create_bail, EnforcementDb,
}

pub record Memory : Type 0 where
  pub arrest_rows : Dict ℤ ArrestRow
  pub warrant_rows : Dict ℤ WarrantRow
  pub bail_rows : Dict ℤ BailRow

-- Everybody is a known person, and no case is.
abbrev pub memory_db : EnforcementDb Memory
memory_db = record {
  arrests =
      memory_table apply_arrest create_arrest Memory (λ db. db.arrest_rows)
        (λ d db. record db { arrest_rows = d }) (λ d db. refl);
  warrants =
      memory_table apply_warrant create_warrant Memory (λ db. db.warrant_rows)
        (λ d db. record db { warrant_rows = d }) (λ d db. refl);
  bails =
      memory_table apply_bail create_bail Memory (λ db. db.bail_rows)
        (λ d db. record db { bail_rows = d }) (λ d db. refl);
  person_exists = λ cnic db. true;
  cleared = λ s db. s;
  case_status = λ case_id db. none;
  set_session_vars = λ officer belt db. (true, db);
  arrests-vars = λ o b db j. refl;
  warrants-vars = λ o b db j. refl;
  arrests-exec = λ now u k db j. refl;
  warrants-exec = λ now u k db j. refl;
  warrants-insert = λ now n db j. refl;
  arrests-insert = λ now n db j. refl;
  arrests-bails_insert = λ now n db j. refl;
  arrests-bails_exec = λ now u k db j. refl;
  bails-vars = λ o b db j. refl;
  bails-exec = λ now u k db j. refl;
}
