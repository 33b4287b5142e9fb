-- ===== src/Cases/Registration/Statuses.antt =====
-- What src/system/subsystem2/src/controllers/CaseManager.cpp loses of a case: its status when it is
-- read, and the border of two texts when it is registered.
use justice_flow.Base.{
  ◌≡◌, refl, Option, ◌++◌, append_assoc, Bytes, codes, bytes_beq, ◌↔◌, ◌⊎◌, arith,
}
use justice_flow.OsLayer.UnixSocket.{UnixSocket, Rows}
use justice_flow.Cases.Registration.{
  CaseStatus, registered, under_investigation, evidence_collected, pending_trial, closed, reopened,
  case_status_of, status_text, status_sql, FirRequest, get_cases_by_status, fir_sql,
}

-- The statuses that a record can have when it was read.
pub IsReadable : CaseStatus → Type 0
IsReadable s = (s ≡ registered) ⊎ ((s ≡ under_investigation) ⊎ (s ≡ closed))

-- A status comes back from its text exactly where it is readable.
case_status_of-status_text : (s : CaseStatus) → (case_status_of (status_text s) ≡ s) ↔ IsReadable s
unfolding IsReadable case_status_of status_text bytes_beq
case_status_of-status_text registered = ground arith
case_status_of-status_text under_investigation = ground arith
case_status_of-status_text closed = ground arith
case_status_of-status_text evidence_collected = ground arith
case_status_of-status_text pending_trial = ground arith
case_status_of-status_text reopened = ground arith

-- The statement that registers a case does not tell where the address ends: a text with a quote in
-- it moves from the address to the description.
pub fir_sql-ambiguous :
    {D : Type 0} (double_text : D → Bytes) (request : FirRequest D) (a b d : Bytes)
    → fir_sql double_text
        (record request { incident_address = a ++ (codes "', '" ++ b); description = d })
      ≡ fir_sql double_text
          (record request { incident_address = a; description = b ++ (codes "', '" ++ d) })
unfolding fir_sql
fir_sql-ambiguous double_text request a b d =
    rw (append_assoc a (codes "', '" ++ b), append_assoc b (codes "', '" ++ d)) refl

-- Asked for the cases that wait for their trial, have their evidence or were reopened, the code
-- lists those that are registered.
pub get_cases_by_status-lost :
    {D : Type 0} (stod : Bytes → Option D) (answer : Bytes → Option Rows) (status : CaseStatus)
    (db : UnixSocket)
    → (IsReadable status → ⊥)
    → get_cases_by_status stod answer status db ≡ get_cases_by_status stod answer registered db
unfolding get_cases_by_status status_sql status_text IsReadable
get_cases_by_status-lost stod answer registered db h = ground (arith, h)
get_cases_by_status-lost stod answer under_investigation db h = ground (arith, h)
get_cases_by_status-lost stod answer closed db h = ground (arith, h)
get_cases_by_status-lost stod answer evidence_collected db h = refl
get_cases_by_status-lost stod answer pending_trial db h = refl
get_cases_by_status-lost stod answer reopened db h = refl
