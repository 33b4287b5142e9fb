-- ===== src/Cases/Evidence.antt =====
-- src/system/subsystem2/src/models/Evidence.cpp and controllers/EvidenceManager.cpp. The file system,
-- the clock and what the database answers are arguments; a field that nothing has written yet is
-- `none`.
pub mod Held
use justice_flow.Base.{
  ℕ, eqb, Bool, true, false, Option, none, some, List, [], ◌∷◌, ◌++◌, ℤ, Bytes, codes,
  if◌then◌else◌, is_empty, int_decimal,
}
use justice_flow.Types.{ResultCode, ok, auth_failed, db_error, file_system_error, SessionContext}
use justice_flow.OsLayer.Mapping.{MmapHandler, map_file}
use justice_flow.OsLayer.UnixSocket.{UnixSocket, Outcome, returns, blocks, Rows, execute}
use justice_flow.Gateway.Handlers.{Served, served, crashes, waits}
use justice_flow.Cases.ChargeSheet.{stoll}

pub data EvidenceType : Type 0 where
  physical digital testimonial forensic documentary : EvidenceType

pub data EvidenceStatus : Type 0 where
  received sealed sent_to_lab returned_from_lab produced_in_court disposed : EvidenceStatus

-- The fields that the modelled code writes or reads; an observer is its address.
pub record Evidence : Type 0 where
  pub evidence_id : ℤ
  pub evidence_number : Bytes
  pub case_id : ℤ
  pub evidence_type : EvidenceType
  pub evidence_status : Option EvidenceStatus
  pub description : Bytes
  pub file_path : Bytes
  pub collected_by : ℤ
  pub is_deleted : Option Bool
  pub deleted_at : Option ℕ
  pub deleted_by : Option ℤ
  pub deletion_reason : Bytes
  pub updated_at : Option ℕ
  pub observers : List ℕ

unfoldable pub mark_deleted : ℕ → ℤ → Bytes → Evidence → Evidence
mark_deleted now officer_id reason e = record e {
  is_deleted = some true;
  deleted_by = some officer_id;
  deletion_reason = reason;
  deleted_at = some now;
}

unfoldable pub update_status : ℕ → EvidenceStatus → Evidence → Evidence
update_status now status e = record e { evidence_status = some status; updated_at = some now }

-- `none` is the null pointer.
unfoldable pub add_observer : Option ℕ → Evidence → Evidence
add_observer none e = e
add_observer (some o) e = record e { observers = e.observers ++ (o ∷ []) }

without : ℕ → List ℕ → List ℕ
without o [] = []
without o (x ∷ xs) = let rest = without o xs in if eqb x o then rest else x ∷ rest

unfoldable pub remove_observer : ℕ → Evidence → Evidence
unfolding without
remove_observer o e = record e { observers = without o e.observers }

-- What `open`, `fstat` and `mmap` answer: `none` is -1 and MAP_FAILED.
pub record Files : Type 0 where
  pub opened : Bytes → Option ℤ
  pub size_of : ℤ → Option ℕ
  pub mmap : ℤ → ℕ → Bool → Option ℕ

sized : Files → ℤ → Option ℕ → MmapHandler → ResultCode × MmapHandler
unfolding map_file
sized F fd none h = (file_system_error, h)
sized F fd (some size) h = map_file F.mmap fd size false h

opened_file : Files → Option ℤ → MmapHandler → ResultCode × MmapHandler
unfolding sized
opened_file F none h = (file_system_error, h)
opened_file F (some fd) h = sized F fd (F.size_of fd) h

unfoldable pub map_file_to_memory : Files → Bytes → MmapHandler → ResultCode × MmapHandler
unfolding opened_file
map_file_to_memory F path h = opened_file F (F.opened path) h

abbrev pub type_text : EvidenceType → Bytes
type_text digital = codes "DIGITAL"
type_text _ = codes "PHYSICAL"

-- What a caller asks to be logged.
pub record Item : Type 0 where
  pub case_id : ℤ
  pub evidence_type : EvidenceType
  pub description : Bytes
  pub file_path : Bytes

unfoldable pub evidence_sql : Item → ℤ → Bytes
unfolding int_decimal
evidence_sql i officer_id =
    codes "INSERT INTO public.evidence (case_id, evidence_type, evidence_status, "
    ++ (codes "description, file_path, collected_by) VALUES ("
        ++ (int_decimal i.case_id
            ++ (codes ", '"
                ++ (type_text i.evidence_type
                    ++ (codes "', 'RECEIVED', '"
                        ++ (i.description
                            ++ (codes "', '"
                                ++ (i.file_path
                                    ++ (codes "', "
                                        ++ (int_decimal officer_id
                                            ++ codes
                                                ") RETURNING evidence_id, evidence_number;"))))))))))

new_evidence : Item → ℤ → ℤ → Bytes → Evidence
new_evidence i officer_id id number = record {
  evidence_id = id;
  evidence_number = number;
  case_id = i.case_id;
  evidence_type = i.evidence_type;
  evidence_status = none;
  description = i.description;
  file_path = i.file_path;
  collected_by = officer_id;
  is_deleted = none;
  deleted_at = none;
  deleted_by = none;
  deletion_reason = [];
  updated_at = none;
  observers = [];
}

-- The code, the evidence, the manager's mapping and the connection after a call.
abbrev pub Logged : Type 0
Logged = Served (ResultCode × Option Evidence × MmapHandler × UnixSocket)

logged_as : Item → ℤ → Bytes → MmapHandler → UnixSocket → Option ℤ → Logged
unfolding new_evidence
logged_as i officer_id number h db none = crashes
logged_as i officer_id number h db (some n) =
    served (ok, some (new_evidence i officer_id n number), h, db)

-- From the row of the INSERT; a row with fewer than two columns is read out of bounds, which ends as
-- `crashes` here, as a number that `std::stoll` refuses does.
logged_row : Item → ℤ → List Bytes → MmapHandler → UnixSocket → Logged
unfolding stoll logged_as
logged_row i officer_id (id ∷ number ∷ rest) h db = logged_as i officer_id number h db (stoll id)
logged_row i officer_id _ h db = crashes

inserted : Item → ℤ → MmapHandler → Outcome (ResultCode × Rows × UnixSocket) → Logged
unfolding logged_row
inserted i officer_id h blocks = waits
inserted i officer_id h (returns (ok, row ∷ rows, db)) = logged_row i officer_id row h db
inserted i officer_id h (returns (rc, rows, db)) = served (db_error, none, h, db)

-- After the mapping of the file.
secured : (Bytes → Option Rows) → Item → ℤ → ResultCode × MmapHandler → UnixSocket → Logged
unfolding evidence_sql execute inserted
secured answer i officer_id (ok, h) db =
    inserted i officer_id h (execute (answer (evidence_sql i officer_id)) db)
secured answer i officer_id (rc, h) db = served (rc, none, h, db)

unfoldable pub log_and_secure_evidence :
    Files → (Bytes → Option Rows) → Item → SessionContext → MmapHandler → UnixSocket → Logged
unfolding map_file_to_memory secured
log_and_secure_evidence F answer i session h db =
    if session.is_valid
    then secured answer i session.officer_id
        (if is_empty i.file_path then (ok, h) else map_file_to_memory F i.file_path h) db
    else served (auth_failed, none, h, db)
