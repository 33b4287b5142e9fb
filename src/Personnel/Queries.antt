-- ===== src/Personnel/Queries.antt =====
-- The queries of src/system/subsystem1/subsystem1.cpp. An enum that is read is its number, and of the
-- structs that are given out the fields that are written.
pub mod Reading
pub mod Officers
use justice_flow.Base.{
  ◌≡◌, ◌≢◌, refl, sym, ap, ◌∙◌, Bool, true, false, Option, none, some, List, [], ◌∷◌, ◌++◌, ℕ, ℤ,
  Bytes, codes, Stoi, value, invalid_argument, out_of_range, stoi, int_decimal, to_decimal,
  if◌then◌else◌, leb, length, map, append_assoc, append-nil, All,
}
use justice_flow.Types.{ResultCode, ok, not_found, SessionContext}
use justice_flow.OsLayer.UnixSocket.{UnixSocket, Outcome, returns, blocks, Rows, execute}
use justice_flow.Gateway.Handlers.{Served, served, crashes, waits}
use justice_flow.Personnel.{pieces}

pub record Officer : Type 0 where
  pub officer_id : ℤ
  pub belt_number : Bytes
  pub cnic : Bytes
  pub current_rank : ℤ
  pub status : ℤ

-- The first numbers of a row: of a duty, of an entry of the rank history, of a deployment.
abbrev pub IdRow : Type 0
IdRow = List ℤ

pub record PatrolRoute : Type 0 where
  pub route_id : ℤ
  pub station_id : ℤ
  pub beat_code : Bytes
  pub route_name : Bytes

-- What the loop over the rows makes of one: it has too few columns and is left out, or it is read, or a
-- number in it makes `std::stoi` throw.
pub data RowRead (A : Type 0) : Type 0 where
  skipped : RowRead A
  read : A → RowRead A
  throws : RowRead A

infixl 5 ◌>>=◌
abbrev pub ◌>>=◌ : {A B : Type 0} → RowRead A → (A → RowRead B) → RowRead B
skipped >>= f = skipped
read a >>= f = f a
throws >>= f = throws

abbrev pub number : Stoi → RowRead ℤ
number (value n) = read n
number _ = throws

unfoldable pub read_officer : List Bytes → RowRead Officer
unfolding stoi
read_officer (id ∷ belt ∷ cnic ∷ rank ∷ status ∷ rest) = do
  i ← number (stoi id)
  r ← number (stoi rank)
  s ← number (stoi status)
  read (record { officer_id = i; belt_number = belt; cnic = cnic; current_rank = r; status = s })
read_officer _ = skipped

-- A duty or an entry of the rank history: four columns, of which two are read.
unfoldable pub read_pair : List Bytes → RowRead IdRow
unfolding stoi
read_pair (a ∷ b ∷ c ∷ d ∷ rest) = do i ← number (stoi a); j ← number (stoi b); read (i ∷ j ∷ [])
read_pair _ = skipped

unfoldable pub read_deployment : List Bytes → RowRead IdRow
unfolding stoi
read_deployment (a ∷ b ∷ c ∷ rest) = do
  i ← number (stoi a)
  j ← number (stoi b)
  k ← number (stoi c)
  read (i ∷ j ∷ k ∷ [])
read_deployment _ = skipped

unfoldable pub read_route : List Bytes → RowRead PatrolRoute
unfolding stoi
read_route (a ∷ b ∷ code ∷ name ∷ rest) = do
  i ← number (stoi a)
  j ← number (stoi b)
  read (record { route_id = i; station_id = j; beat_code = code; route_name = name })
read_route _ = skipped

module _ {A : Type 0} (reader : List Bytes → RowRead A) where
  -- The loop with what is in `out`; `none` where it throws.
  pushed : RowRead A → (List A → Option (List A)) → List A → Option (List A)
  pushed skipped next out = next out
  pushed (read a) next out = next (out ++ a ∷ [])
  pushed throws next out = none

  unfoldable pub read_rows : Rows → List A → Option (List A)
  unfolding pushed
  read_rows [] out = some out
  read_rows (row ∷ rows) out = pushed (reader row) (read_rows rows) out

  filled : Option (List A) → UnixSocket → Served (ResultCode × List A × UnixSocket)
  filled none db = crashes
  filled (some out) db = served (ok, out, db)

  listing :
      List A → Outcome (ResultCode × Rows × UnixSocket) → Served (ResultCode × List A × UnixSocket)
  unfolding filled read_rows
  listing out blocks = waits
  listing out (returns (ok, rows, db)) = filled (read_rows rows out) db
  listing out (returns (rc, rows, db)) = served (rc, out, db)

  unfoldable pub list_rows :
      (Bytes → Option Rows)
      → Bytes
      → List A
      → UnixSocket
      → Served (ResultCode × List A × UnixSocket)
  unfolding listing execute
  list_rows answer sql out db = listing out (execute (answer sql) db)

-- The columns of an officer; the first row is read without a look at its size.
one_officer : RowRead Officer → UnixSocket → Served (ResultCode × Option Officer × UnixSocket)
one_officer (read o) db = served (ok, some o, db)
one_officer _ db = crashes

found : Outcome (ResultCode × Rows × UnixSocket) → Served (ResultCode × Option Officer × UnixSocket)
unfolding one_officer read_officer
found blocks = waits
found (returns (ok, row ∷ rows, db)) = one_officer (read_officer row) db
found (returns (rc, rows, db)) = served (not_found, none, db)

unfoldable pub get_officer :
    (Bytes → Option Rows) → Bytes → UnixSocket → Served (ResultCode × Option Officer × UnixSocket)
unfolding found execute
get_officer answer sql db = found (execute (answer sql) db)

abbrev officer_columns : Bytes
officer_columns =
    codes "SELECT officer_id, belt_number, cnic, current_rank, status FROM officers WHERE "

unfoldable pub officer_by_id_sql : ℤ → Bytes
unfolding int_decimal
officer_by_id_sql id =
    officer_columns ++ pieces (codes "officer_id=" ∷ int_decimal id ∷ codes ";" ∷ [])

unfoldable pub officer_by_cnic_sql : Bytes → Bytes
officer_by_cnic_sql cnic = officer_columns ++ pieces (codes "cnic='" ∷ cnic ∷ codes "';" ∷ [])

unfoldable pub officers_by_station_sql : ℤ → Bytes
unfolding int_decimal
officers_by_station_sql id =
    officer_columns ++ pieces (codes "station_id=" ∷ int_decimal id ∷ codes ";" ∷ [])

unfoldable pub officers_by_status_sql : ℤ → ℕ → Bytes
unfolding int_decimal to_decimal
officers_by_status_sql id status =
    officer_columns
    ++ pieces (
        codes "station_id="
        ∷ int_decimal id
        ∷ codes " AND status="
        ∷ to_decimal status
        ∷ codes ";"
        ∷ [])

-- `getOfficerById` and the other queries of officers.
unfoldable pub get_officer_by_id :
    (Bytes → Option Rows) → ℤ → UnixSocket → Served (ResultCode × Option Officer × UnixSocket)
unfolding get_officer officer_by_id_sql
get_officer_by_id answer id db = get_officer answer (officer_by_id_sql id) db

unfoldable pub get_officer_by_cnic :
    (Bytes → Option Rows) → Bytes → UnixSocket → Served (ResultCode × Option Officer × UnixSocket)
unfolding get_officer officer_by_cnic_sql
get_officer_by_cnic answer cnic db = get_officer answer (officer_by_cnic_sql cnic) db

unfoldable pub get_officers_by_station :
    (Bytes → Option Rows)
    → ℤ
    → List Officer
    → UnixSocket
    → Served (ResultCode × List Officer × UnixSocket)
unfolding list_rows read_officer officers_by_station_sql
get_officers_by_station answer id out db =
    list_rows read_officer answer (officers_by_station_sql id) out db

unfoldable pub get_officers_by_status :
    (Bytes → Option Rows)
    → ℤ
    → ℕ
    → List Officer
    → UnixSocket
    → Served (ResultCode × List Officer × UnixSocket)
unfolding list_rows read_officer officers_by_status_sql
get_officers_by_status answer id status out db =
    list_rows read_officer answer (officers_by_status_sql id status) out db
