-- ===== src/Cases/ChargeSheet.antt =====
-- src/system/subsystem2/src/models/ChargeSheet.cpp and controllers/InvestigationManager.cpp. `now` is
-- the clock; a field that nothing has written yet is `none`. What the database answers is an
-- argument.
pub mod Lock
use justice_flow.Base.{
  ℕ, zero, suc, ◌^◌, Bool, true, false, Option, none, some, List, [], ◌∷◌, ◌++◌, ℤ, pos, negsuc,
  Bytes, codes, eqb, ltb, if◌then◌else◌, is_empty, skip_spaces, leading_number, int_decimal,
}
use justice_flow.Types.{
  ResultCode, ok, auth_failed, invalid_input, invalid_state, record_locked, db_error,
  SessionContext,
}
use justice_flow.OsLayer.UnixSocket.{UnixSocket, Outcome, returns, blocks, Rows, execute}
use justice_flow.Gateway.Handlers.{Served, served, crashes, waits}

pub data ChargeSheetStatus : Type 0 where
  draft filed submitted_to_court accepted_by_court rejected_by_court : ChargeSheetStatus

-- The fields that the modelled code writes or reads.
pub record ChargeSheet : Type 0 where
  pub charge_sheet_id : ℤ
  pub charge_sheet_number : Bytes
  pub case_id : ℤ
  pub charge_sheet_status : ChargeSheetStatus
  pub laws_invoked : List Bytes
  pub filed_by : ℤ
  pub submitted_by : Option ℤ
  pub submitted_to_court_at : Option ℕ
  pub is_locked : Bool
  pub locked_by : Option ℤ
  pub locked_at : Option ℕ
  pub updated_at : Option ℕ

unfoldable pub add_law_invoked : ℕ → Bytes → ChargeSheet → ResultCode × ChargeSheet
add_law_invoked now law sheet =
    if sheet.is_locked
    then (record_locked, sheet)
    else if is_empty law
    then (invalid_input, sheet)
    else (
      ok,
      record sheet { laws_invoked = sheet.laws_invoked ++ (law ∷ []); updated_at = some now },
    )

unfoldable pub submit_to_magistrate : ℕ → ℤ → ChargeSheet → ResultCode × ChargeSheet
submit_to_magistrate now officer_id sheet =
    if sheet.is_locked
    then (record_locked, sheet)
    else if is_empty sheet.laws_invoked
    then (invalid_state, sheet)
    else (
      ok,
      record sheet {
        charge_sheet_status = submitted_to_court;
        submitted_to_court_at = some now;
        submitted_by = some officer_id;
        updated_at = some now;
        is_locked = true;
        locked_at = some now;
        locked_by = some officer_id;
      },
    )

unfoldable pub submit_sql : ℤ → ℤ → Bytes
unfolding int_decimal
submit_sql officer_id sheet_id =
    codes
      "UPDATE public.charge_sheets SET charge_sheet_status = 'SUBMITTED_TO_COURT', is_locked = true, "
    ++ (codes "submitted_to_court_at = now(), submitted_by = "
        ++ (int_decimal officer_id
            ++ (codes ", locked_at = now(), locked_by = "
                ++ (int_decimal officer_id
                    ++ (codes " WHERE charge_sheet_id = "
                        ++ (int_decimal sheet_id ++ codes ";"))))))

abbrev pub Submitted : Type 0
Submitted = Served (ResultCode × ChargeSheet × UnixSocket)

-- What the UPDATE came to.
stored_submission : ChargeSheet → Outcome (ResultCode × Rows × UnixSocket) → Submitted
stored_submission sheet blocks = waits
stored_submission sheet (returns (ok, rows, db)) = served (ok, sheet, db)
stored_submission sheet (returns (rc, rows, db)) = served (db_error, sheet, db)

-- The sheet as `submitToMagistrate` left it, sent to the database where that returned OK.
after_domain : (Bytes → Option Rows) → ℤ → ResultCode × ChargeSheet → UnixSocket → Submitted
unfolding submit_sql execute stored_submission
after_domain answer officer_id (ok, sheet) db =
    stored_submission sheet (execute (answer (submit_sql officer_id sheet.charge_sheet_id)) db)
after_domain answer officer_id (rc, sheet) db = served (rc, sheet, db)

-- On a sheet that is no null pointer.
unfoldable pub submit_charge_sheet :
    (Bytes → Option Rows) → ℕ → SessionContext → ChargeSheet → UnixSocket → Submitted
unfolding submit_to_magistrate after_domain
submit_charge_sheet answer now session sheet db =
    if session.is_valid
    then after_domain answer session.officer_id (submit_to_magistrate now session.officer_id sheet)
        db
    else served (auth_failed, sheet, db)

-- `std::stoll` on 64 bits: `none` where it throws.
abbrev long_in_range : (ℕ → ℤ) → ℕ → Option ℕ → Option ℤ
long_in_range sign limit none = none
long_in_range sign limit (some n) = if ltb limit n then none else some (sign n)

abbrev negated : ℕ → ℤ
negated zero = pos 0
negated (suc n) = negsuc n

abbrev signed_long_long : Bytes → Option ℤ
signed_long_long [] = none
signed_long_long (c ∷ s) =
    if eqb c b'-'
    then long_in_range negated (2 ^ 63) (leading_number none s)
    else if eqb c b'+'
    then long_in_range pos 9_223_372_036_854_775_807 (leading_number none s)
    else long_in_range pos 9_223_372_036_854_775_807 (leading_number none (c ∷ s))

unfoldable pub stoll : Bytes → Option ℤ
unfolding leading_number skip_spaces
stoll s = signed_long_long (skip_spaces s)

unfoldable pub draft_sql : ℤ → ℤ → Bytes
unfolding int_decimal
draft_sql case_id officer_id =
    codes "INSERT INTO public.charge_sheets (case_id, filed_by) VALUES ("
    ++ (int_decimal case_id
        ++ (codes ", "
            ++ (int_decimal officer_id
                ++ codes ") RETURNING charge_sheet_id, charge_sheet_number;")))

abbrev pub Drafted : Type 0
Drafted = Served (ResultCode × Option ChargeSheet × UnixSocket)

new_sheet : ℤ → ℤ → ℤ → Bytes → ChargeSheet
new_sheet case_id officer_id id number = record {
  charge_sheet_id = id;
  charge_sheet_number = number;
  case_id = case_id;
  charge_sheet_status = draft;
  laws_invoked = [];
  filed_by = officer_id;
  submitted_by = none;
  submitted_to_court_at = none;
  is_locked = false;
  locked_by = none;
  locked_at = none;
  updated_at = none;
}

-- From the row that the INSERT gave back; the statement asks for two columns, and a row with fewer
-- is read out of bounds, which ends as `crashes` here.
from_row : ℤ → ℤ → List Bytes → UnixSocket → Drafted
unfolding stoll new_sheet
from_row case_id officer_id (id ∷ number ∷ rest) db = elim (stoll id) [
  | none ↦ crashes
  | some n ↦ served (ok, some (new_sheet case_id officer_id n number), db)
]
from_row case_id officer_id _ db = crashes

drafted_from : ℤ → ℤ → Outcome (ResultCode × Rows × UnixSocket) → Drafted
unfolding from_row
drafted_from case_id officer_id blocks = waits
drafted_from case_id officer_id (returns (ok, row ∷ rows, db)) = from_row case_id officer_id row db
drafted_from case_id officer_id (returns (rc, rows, db)) = served (db_error, none, db)

unfoldable pub draft_charge_sheet :
    (Bytes → Option Rows) → ℤ → SessionContext → UnixSocket → Drafted
unfolding draft_sql execute drafted_from
draft_charge_sheet answer case_id session db =
    if session.is_valid
    then drafted_from case_id session.officer_id
        (execute (answer (draft_sql case_id session.officer_id)) db)
    else served (auth_failed, none, db)
