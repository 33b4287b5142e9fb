-- ===== src/Cases/Tests.antt =====
-- A charge sheet and a registration, and the theorems about them at concrete inputs.
use justice_flow.Base.{
  some, ◌≡◌, refl, true, false, Option, none, List, [], ◌∷◌, pos, Bytes, codes, All, is_empty,
}
use justice_flow.Types.{ResultCode, record_locked, db_error, SessionContext, si}
use justice_flow.OsLayer.UnixSocket.{UnixSocket, Rows}
use justice_flow.Gateway.Handlers.{served}
use justice_flow.Cases.ChargeSheet.{ChargeSheet, draft, submitted_to_court, submit_to_magistrate}
use justice_flow.Cases.ChargeSheet.Lock.{
  Operation, adds_law, submits, operate_all, submission_stands,
}
use justice_flow.Cases.Evidence.{physical, Files, Item, log_and_secure_evidence}
use justice_flow.Cases.Evidence.Held.{IsRefusal, second_file_refused}
use justice_flow.OsLayer.Mapping.{MmapHandler, unmapped}
use justice_flow.Cases.Registration.{FirRequest, theft}

abbrev sheet : ChargeSheet
sheet = record {
  charge_sheet_id = pos 5;
  charge_sheet_number = codes "CS-5";
  case_id = pos 9;
  charge_sheet_status = draft;
  laws_invoked = codes "PPC 379" ∷ [];
  filed_by = pos 3;
  submitted_by = none;
  submitted_to_court_at = none;
  is_locked = false;
  locked_by = none;
  locked_at = none;
  updated_at = none;
}

abbrev officer : SessionContext
officer = record {
  officer_id = pos 3;
  cnic = [];
  rank = si;
  station_id = pos 1;
  belt_number = [];
  created_at = 0;
  expires_at = 100;
  is_valid = true;
  session_token = [];
}

abbrev connection : UnixSocket
connection = record { connected = true; locked = false }

abbrev submitted_sheet : ChargeSheet
submitted_sheet = (submit_to_magistrate 8 (pos 3) sheet).1

abbrev more : List Operation
more = adds_law 9 (codes "PPC 411") ∷ submits 10 (pos 4) ∷ []

submission_stands_example :
    let final : List ResultCode × ChargeSheet = operate_all more submitted_sheet in
    All (λ rc. rc ≡ record_locked) final.0
    × (is_empty final.1.laws_invoked ≡ false)
    × (final.1.laws_invoked ≡ sheet.laws_invoked)
    × (final.1.submitted_by ≡ some (pos 3))
    × (final.1.submitted_to_court_at ≡ some 8)
    × (final.1.charge_sheet_status ≡ submitted_to_court)
unfolding submit_to_magistrate
submission_stands_example = submission_stands 8 (pos 3) sheet more refl

abbrev request : FirRequest Bytes
request = record {
  filed_by_officer_id = pos 3;
  station_id = pos 1;
  complainant_cnic = codes "35202";
  type = theft;
  incident_address = [];
  description = [];
  lat = codes "31.5";
  lon = codes "74.3";
  incident_date = pos 100;
}

abbrev files : Files
files = record {
  opened = λ path. some (pos 7);
  size_of = λ fd. some 4096;
  mmap = λ fd size is_shared. some 65_536;
}

abbrev knife : Item
knife = record {
  case_id = pos 9;
  evidence_type = physical;
  description = codes "knife";
  file_path = codes "/e/1.jpg";
}

abbrev numbered : Bytes → Option Rows
numbered sql = some ((codes "4" ∷ codes "EV-4" ∷ []) ∷ [])

-- The manager's mapping after the first file.
abbrev after_knife : MmapHandler
after_knife = record {
  mapped_address = some 65_536;
  mapping_size = 4096;
  file_descriptor = pos 7;
  is_mapped = true;
}

second_file_example :
    (rc : ResultCode) × IsRefusal rc
    × (log_and_secure_evidence files numbered knife officer after_knife connection
        ≡ served (rc, none, after_knife, connection))
unfolding log_and_secure_evidence
second_file_example =
    second_file_refused files (λ sql. none) knife officer unmapped connection (pos 7) 4096 65_536
      refl refl refl refl refl refl db_error none after_knife connection refl files numbered knife
      officer connection refl refl
