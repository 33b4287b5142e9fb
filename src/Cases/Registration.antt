-- ===== src/Cases/Registration.antt =====
-- src/system/subsystem2/src/controllers/CaseManager.cpp. `double`, `std::stod` and `std::to_string`
-- of a double are parameters. A time is an integer of 64 bits. A cell behind the end of a row is read
-- out of bounds, which ends as an exception does here.
pub mod Statuses
use justice_flow.Base.{
  ℕ, zero, suc, Bool, true, false, not, ◌&&◌, Option, none, some, List, [], ◌∷◌, ◌++◌, ℤ, pos,
  negsuc, Bytes, codes, bytes_beq, eqb, if◌then◌else◌, get_elem?, int_decimal,
}
use justice_flow.Types.{
  ResultCode, ok, auth_failed, rank_insufficient, db_error, not_found, SessionContext, OfficerRank,
  asi, si, inspector, rank_index,
}
use justice_flow.OsLayer.UnixSocket.{UnixSocket, Outcome, returns, blocks, Rows, execute}
use justice_flow.Gateway.Handlers.{Served, served, crashes, waits}
use justice_flow.Cases.ChargeSheet.{stoll}

-- The case types that the code tells apart, and all others.
pub data CaseType : Type 0 where
  murder theft public_disturbance : CaseType
  other_type : ℕ → CaseType

pub data CaseStatus : Type 0 where
  registered under_investigation evidence_collected pending_trial closed reopened : CaseStatus

pub data ApprovalStatus : Type 0 where
  not_required pending_approval approved rejected : ApprovalStatus

infixl 5 ◌>>=◌
abbrev ◌>>=◌ {ℓ κ} : {A : Type ℓ} {B : Type κ} → Option A → (A → Option B) → Option B
none >>= f = none
some a >>= f = f a

unfoldable pub case_type_of : Bytes → CaseType
unfolding bytes_beq
case_type_of text =
    if bytes_beq text (codes "MURDER")
    then murder
    else if bytes_beq text (codes "THEFT")
    then theft
    else public_disturbance

unfoldable pub case_status_of : Bytes → CaseStatus
unfolding bytes_beq
case_status_of text =
    if bytes_beq text (codes "REGISTERED")
    then registered
    else if bytes_beq text (codes "UNDER_INVESTIGATION")
    then under_investigation
    else if bytes_beq text (codes "CLOSED")
    then closed
    else registered

-- The text that `getCasesByStatus` asks for.
unfoldable pub status_text : CaseStatus → Bytes
status_text registered = codes "REGISTERED"
status_text under_investigation = codes "UNDER_INVESTIGATION"
status_text closed = codes "CLOSED"
status_text _ = codes "REGISTERED"

-- `text != unset ? std::stoll(text) : 0`.
unfoldable pub number_unless : Bytes → Bytes → Option ℤ
unfolding stoll bytes_beq
number_unless unset text = if bytes_beq text unset then some (pos 0) else stoll text

abbrev approval_of : Bytes → ApprovalStatus
approval_of text = if bytes_beq text (codes "APPROVED") then approved else not_required

abbrev case_columns : Bytes
case_columns =
    codes "SELECT case_id, fir_number, case_type, case_status, incident_date, "
    ++ (codes "       incident_address, incident_description, incident_lat, incident_lon, "
        ++ (codes "       station_id, primary_complainant_cnic, filed_by, filed_at, updated_at, "
            ++ (codes "       lead_officer_id, parent_case_id, closed_at, closure_reason, "
                ++ (codes "       approval_status, approved_by, approved_at, reopened_by, "
                    ++ codes "       reopened_at, reopen_reason FROM public.cases WHERE "))))

unfoldable pub case_sql : ℤ → Bytes
unfolding int_decimal
case_sql case_id = case_columns ++ (codes "case_id = " ++ (int_decimal case_id ++ codes ";"))

unfoldable pub station_sql : ℤ → Bytes
unfolding int_decimal
station_sql station_id =
    case_columns
    ++ (codes "station_id = " ++ (int_decimal station_id ++ codes " ORDER BY filed_at DESC;"))

unfoldable pub status_sql : CaseStatus → Bytes
unfolding status_text
status_sql status =
    case_columns
    ++ (codes "case_status = '" ++ (status_text status ++ codes "' ORDER BY filed_at DESC;"))

-- `request.rank` is one of ASI, SI and INSPECTOR.
abbrev may_register : OfficerRank → Bool
may_register asi = true
may_register si = true
may_register inspector = true
may_register _ = false

abbrev fir_type_text : CaseType → Bytes
fir_type_text murder = codes "MURDER"
fir_type_text theft = codes "THEFT"
fir_type_text _ = codes "OTHER"

pub record CaseRecord (D : Type 0) : Type 0 where
  pub case_id : ℤ
  pub fir_number : Bytes
  pub case_type : CaseType
  pub case_status : CaseStatus
  pub incident_date : ℤ
  pub incident_address : Bytes
  pub incident_description : Bytes
  pub incident_lat : D
  pub incident_lon : D
  pub station_id : ℤ
  pub primary_complainant_cnic : Bytes
  pub filed_by : ℤ
  pub filed_at : ℤ
  pub updated_at : ℤ
  pub lead_officer_id : ℤ
  pub parent_case_id : ℤ
  pub closed_at : ℤ
  pub closure_reason : Bytes
  pub approval_status : ApprovalStatus
  pub approved_by : ℤ
  pub approved_at : ℤ
  pub reopened_by : ℤ
  pub reopened_at : ℤ
  pub reopen_reason : Bytes

pub record FirRequest (D : Type 0) : Type 0 where
  pub filed_by_officer_id : ℤ
  pub station_id : ℤ
  pub complainant_cnic : Bytes
  pub type : CaseType
  pub incident_address : Bytes
  pub description : Bytes
  pub lat : D
  pub lon : D
  pub incident_date : ℤ

-- The fields of a new case that `registerFIR` writes; the others are left as they are in memory.
pub record NewCase : Type 0 where
  pub case_id : ℤ
  pub fir_number : Bytes
  pub case_type : CaseType
  pub case_status : CaseStatus
  pub incident_address : Bytes
  pub station_id : ℤ
  pub filed_by : ℤ

module _ {D : Type 0} (stod : Bytes → Option D) where
  unfoldable pub parse_case_row : List Bytes → Option (CaseRecord D)
  unfolding stoll case_type_of case_status_of number_unless
  parse_case_row row = do
    case_id ← get_elem? row 0 >>= stoll
    fir_number ← get_elem? row 1
    case_type ← get_elem? row 2
    case_status ← get_elem? row 3
    incident_date ← get_elem? row 4 >>= stoll
    incident_address ← get_elem? row 5
    incident_description ← get_elem? row 6
    lat ← get_elem? row 7 >>= stod
    lon ← get_elem? row 8 >>= stod
    station_id ← get_elem? row 9 >>= stoll
    cnic ← get_elem? row 10
    filed_by ← get_elem? row 11 >>= stoll
    filed_at ← get_elem? row 12 >>= stoll
    updated_at ← get_elem? row 13 >>= stoll
    lead ← get_elem? row 14 >>= number_unless (codes "0")
    parent ← get_elem? row 15 >>= number_unless (codes "0")
    closed_at ← get_elem? row 16 >>= number_unless []
    closure_reason ← get_elem? row 17
    approval ← get_elem? row 18
    approved_by ← get_elem? row 19 >>= number_unless (codes "0")
    approved_at ← get_elem? row 20 >>= number_unless []
    reopened_by ← get_elem? row 21 >>= number_unless (codes "0")
    reopened_at ← get_elem? row 22 >>= number_unless []
    reopen_reason ← get_elem? row 23
    some (record {
      case_id = case_id;
      fir_number = fir_number;
      case_type = case_type_of case_type;
      case_status = case_status_of case_status;
      incident_date = incident_date;
      incident_address = incident_address;
      incident_description = incident_description;
      incident_lat = lat;
      incident_lon = lon;
      station_id = station_id;
      primary_complainant_cnic = cnic;
      filed_by = filed_by;
      filed_at = filed_at;
      updated_at = updated_at;
      lead_officer_id = lead;
      parent_case_id = parent;
      closed_at = closed_at;
      closure_reason = closure_reason;
      approval_status = approval_of approval;
      approved_by = approved_by;
      approved_at = approved_at;
      reopened_by = reopened_by;
      reopened_at = reopened_at;
      reopen_reason = reopen_reason;
    })

  parse_rows : Rows → Option (List (CaseRecord D))
  unfolding parse_case_row
  parse_rows [] = some []
  parse_rows (row ∷ rows) = do r ← parse_case_row row; rest ← parse_rows rows; some (r ∷ rest)

  parsed :
      Option (List (CaseRecord D))
      → UnixSocket
      → Served (ResultCode × List (CaseRecord D) × UnixSocket)
  parsed none db = crashes
  parsed (some cases) db = served (ok, cases, db)

  -- One case, where the statement gave a row.
  fetched :
      Outcome (ResultCode × Rows × UnixSocket)
      → Served (ResultCode × List (CaseRecord D) × UnixSocket)
  unfolding parse_rows parsed
  fetched blocks = waits
  fetched (returns (ok, row ∷ rows, db)) = parsed (parse_rows (row ∷ [])) db
  fetched (returns (rc, rows, db)) = served (not_found, [], db)

  unfoldable pub fetch_case :
      (Bytes → Option Rows)
      → ℤ
      → UnixSocket
      → Served (ResultCode × List (CaseRecord D) × UnixSocket)
  unfolding execute fetched case_sql
  fetch_case answer case_id db = fetched (execute (answer (case_sql case_id)) db)

  unfoldable pub all_fetched :
      Outcome (ResultCode × Rows × UnixSocket)
      → Served (ResultCode × List (CaseRecord D) × UnixSocket)
  unfolding parse_rows parsed
  all_fetched blocks = waits
  all_fetched (returns (ok, [], db)) = served (not_found, [], db)
  all_fetched (returns (ok, row ∷ rows, db)) = parsed (parse_rows (row ∷ rows)) db
  all_fetched (returns (rc, rows, db)) = served (db_error, [], db)

  unfoldable pub get_cases_by_station :
      (Bytes → Option Rows)
      → ℤ
      → UnixSocket
      → Served (ResultCode × List (CaseRecord D) × UnixSocket)
  unfolding execute all_fetched station_sql
  get_cases_by_station answer station_id db =
      all_fetched (execute (answer (station_sql station_id)) db)

  unfoldable pub get_cases_by_status :
      (Bytes → Option Rows)
      → CaseStatus
      → UnixSocket
      → Served (ResultCode × List (CaseRecord D) × UnixSocket)
  unfolding execute all_fetched status_sql
  get_cases_by_status answer status db = all_fetched (execute (answer (status_sql status)) db)

-- The statement from the station on.
fir_sql_end : {D : Type 0} → FirRequest D → Bytes
unfolding int_decimal
fir_sql_end request =
    codes ", "
    ++ (int_decimal request.station_id
        ++ (codes ", '"
            ++ (request.complainant_cnic
                ++ (codes "', "
                    ++ (int_decimal request.filed_by_officer_id
                        ++ codes ") RETURNING case_id, fir_number;")))))

module _ {D : Type 0} (double_text : D → Bytes) where
  unfoldable pub fir_sql : FirRequest D → Bytes
  unfolding int_decimal fir_sql_end
  fir_sql request =
      codes "INSERT INTO public.cases (case_type, case_status, incident_date, incident_address, "
      ++ (codes "incident_description, incident_lat, incident_lon, station_id, "
          ++ (codes "primary_complainant_cnic, filed_by) VALUES ('"
              ++ (fir_type_text request.type
                  ++ (codes "', 'REGISTERED', to_timestamp("
                      ++ (int_decimal request.incident_date
                          ++ (codes "), '"
                              ++ (request.incident_address
                                  ++ (codes "', '"
                                      ++ (request.description
                                          ++ (codes "', "
                                              ++ (double_text request.lat
                                                  ++ (codes ", "
                                                      ++ (double_text request.lon
                                                          ++ fir_sql_end request)))))))))))))

  abbrev fir_row :
      FirRequest D → List Bytes → UnixSocket → Served (ResultCode × Option NewCase × UnixSocket)
  fir_row request (id ∷ number ∷ rest) db = elim (stoll id) [
    | none ↦ crashes
    | some n ↦ served (
      ok,
      some (record {
        case_id = n;
        fir_number = number;
        case_type = request.type;
        case_status = registered;
        incident_address = request.incident_address;
        station_id = request.station_id;
        filed_by = request.filed_by_officer_id;
      }),
      db,
    )
  ]
  fir_row request _ db = crashes

  unfoldable pub fir_stored :
      FirRequest D
      → Outcome (ResultCode × Rows × UnixSocket)
      → Served (ResultCode × Option NewCase × UnixSocket)
  unfolding stoll
  fir_stored request blocks = waits
  fir_stored request (returns (ok, row ∷ rows, db)) = fir_row request row db
  fir_stored request (returns (rc, rows, db)) = served (db_error, none, db)

  unfoldable pub register_fir :
      (Bytes → Option Rows)
      → FirRequest D
      → SessionContext
      → UnixSocket
      → Served (ResultCode × Option NewCase × UnixSocket)
  unfolding fir_sql execute fir_stored
  register_fir answer request session db =
      if not session.is_valid
      then served (auth_failed, none, db)
      else if not (may_register session.rank)
      then served (rank_insufficient, none, db)
      else fir_stored request (execute (answer (fir_sql request)) db)
