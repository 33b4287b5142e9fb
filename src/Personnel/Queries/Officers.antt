-- ===== src/Personnel/Queries/Officers.antt =====
-- The lists of officers of src/system/subsystem1/subsystem1.cpp, against the officers that rows name.
use justice_flow.Base.{
  ◌≡◌, refl, sym, true, false, Option, some, List, [], ◌∷◌, ◌++◌, ◌<◌, ℕ, ℤ, Bytes, length, value,
  stoi, absurd, arith,
}
use justice_flow.Types.{ok}
use justice_flow.OsLayer.UnixSocket.{UnixSocket, Rows}
use justice_flow.Gateway.Handlers.{served}
use justice_flow.Personnel.Queries.{
  Officer, skipped, read_officer, get_officers_by_station, get_officers_by_status,
  officers_by_station_sql, officers_by_status_sql,
}
use justice_flow.Personnel.Queries.Reading.{AllReadable, kept, list_rows-kept}

-- The officers that rows name: a row with fewer than five columns names none, any other has the texts of its
-- second and third column and the numbers that its first, fourth and fifth are read as.
pub data NameOfficers : List (List Bytes) → List Officer → Type 0 where
  no_rows : NameOfficers [] []
  short_row :
      {row : List Bytes} {rows : List (List Bytes)} {os : List Officer}
      → length row < 5
      → NameOfficers rows os
      → NameOfficers (row ∷ rows) os
  full_row :
      {id belt cnic rank status : Bytes} {rest : List Bytes} {rows : List (List Bytes)}
      {os : List Officer} {i r s : ℤ}
      → stoi id ≡ value i
      → stoi rank ≡ value r
      → stoi status ≡ value s
      → NameOfficers rows os
      → NameOfficers ((id ∷ belt ∷ cnic ∷ rank ∷ status ∷ rest) ∷ rows) (
          record { officer_id = i; belt_number = belt; cnic = cnic; current_rank = r; status = s }
          ∷ os)

short_row-skipped : (row : List Bytes) → length row < 5 → read_officer row ≡ skipped
unfolding read_officer
short_row-skipped [] h = refl
short_row-skipped (a ∷ []) h = refl
short_row-skipped (a ∷ b ∷ []) h = refl
short_row-skipped (a ∷ b ∷ c ∷ []) h = refl
short_row-skipped (a ∷ b ∷ c ∷ d ∷ []) h = refl
short_row-skipped (a ∷ b ∷ c ∷ d ∷ e ∷ rest) h = absurd (omega (arith, h))

NameOfficers-kept :
    {rows : List (List Bytes)} {os : List Officer}
    → NameOfficers rows os
    → AllReadable read_officer rows × (kept read_officer rows ≡ os)
unfolding read_officer
NameOfficers-kept no_rows = (tt, refl)
NameOfficers-kept (short_row {row = row} h n) =
    let (readable, e) = NameOfficers-kept n in rw (short_row-skipped row h) ((tt, readable), e)
NameOfficers-kept (full_row h i j n) =
    let (readable, e) = NameOfficers-kept n in rw (h, i, j, e) ((tt, readable), refl)

-- The lists of the officers of a station, all of them or those with a status: where the connection is free
-- and up and the server answers each statement with rows that name officers, the query gives OK, leaves the
-- connection free, and puts those officers behind what the caller had.
pub station_officers-named :
    (answer : Bytes → Option Rows) (station : ℤ) (status : ℕ) (rows rows' : Rows)
    (os os' out : List Officer) (db : UnixSocket)
    → NameOfficers rows os
    → NameOfficers rows' os'
    → db.locked ≡ false
    → db.connected ≡ true
    → answer (officers_by_station_sql station) ≡ some rows
    → answer (officers_by_status_sql station status) ≡ some rows'
    → (get_officers_by_station answer station out db
        ≡ served (ok, out ++ os, record db { locked = false }))
      × (get_officers_by_status answer station status out db
          ≡ served (ok, out ++ os', record db { locked = false }))
unfolding get_officers_by_station get_officers_by_status
station_officers-named answer station status rows rows' os os' out db n n' free up said said' =
    let (readable, e) = NameOfficers-kept n in
    let (readable', e') = NameOfficers-kept n' in
    (
      rw (sym e) (
          list_rows-kept read_officer answer (officers_by_station_sql station) rows out db readable
            free up said),
      rw (sym e') (
          list_rows-kept read_officer answer (officers_by_status_sql station status) rows' out db
            readable' free up said'),
    )
