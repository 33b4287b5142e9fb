-- ===== src/Forensic/Tests.antt =====
-- A laboratory request in a small database in memory, and the theorems of this component at it.
use justice_flow.Base.{
  ◌≡◌, ◌≢◌, refl, true, false, Option, none, some, [], ◌∷◌, Bytes, codes, ℤ, pos, bytes_beq,
  int_beq, int_eq, bytes_eq,
}
use justice_flow.Base.Dict
use justice_flow.Base.Dict.{Dict}
use justice_flow.Postgres.Memory.{memory_table}
use justice_flow.Types.{ok, SessionContext, si}
use justice_flow.OsLayer.UnixSocket.{blocks}
use justice_flow.Auth.SessionStore.{validate}
use justice_flow.Auth.Manager.{validate_token}
use justice_flow.Forensic.Status.{received_by_lab, lab_str}
use justice_flow.Forensic.Repository.{
  ForensicDb, RequestRow, NewRequest, create_request, apply_request,
}
use justice_flow.Forensic.Body.Moves.{Later}
use justice_flow.Forensic.Manager.{examination_call, contest_call, World, operate, body}
use justice_flow.Forensic.Manager.Locking.{then_operate, second_call_blocks}
use justice_flow.Forensic.Manager.Lifecycle.{body-Later}

abbrev Requests : Type 0
Requests = Dict ℤ RequestRow

abbrev request_db : ForensicDb Requests
request_db = record {
  requests =
      memory_table apply_request create_request Requests (λ db. db) (λ d db. d) (λ d db. refl);
  date_epoch = λ date. pos 50;
  case_status = λ case_id db. some (codes "REGISTERED");
  evidence = λ item db. none;
  cleared = λ s db. s;
  link = λ now r e notes db. (true, db);
  requests-link = λ now r e notes db j. refl;
}

abbrev received : RequestRow
received =
    let n : NewRequest = record {
      request_number = codes "FR-100-1";
      case_id = pos 1;
      examination_purpose = codes "BALLISTICS";
      purpose_description = codes "casing";
      lab_name = codes "PFSA";
      examiner_name = codes "Noor";
      authorized_by = pos 7;
    } in
    record (create_request 100 n) { request_status = codes "RECEIVED_BY_LAB" }

abbrev examiner : SessionContext
examiner = record {
  officer_id = pos 7;
  cnic = codes "35202";
  rank = si;
  station_id = pos 3;
  belt_number = [];
  created_at = 100;
  expires_at = 28900;
  is_valid = true;
  session_token = codes "7a";
}

abbrev on_shift : World Requests
on_shift = record {
  db = (pos 0, received) ∷ [];
  socket = record { connected = true; locked = false };
  sessions = record { session_map = (codes "7a", examiner) ∷ []; trail = [] };
  duty = (pos 7, record { is_active = true; cached_at = 100; status = codes "ON_DUTY" }) ∷ [];
}

abbrev midnight : Bytes → Option ℤ
midnight s = some (pos 100)

accepted : validate_token (codes "7a") 200 on_shift.sessions ≡ (ok, some examiner)
unfolding validate_token validate Dict.lookup bytes_beq
accepted = refl

second_call_blocks_example :
    then_operate request_db midnight
      (contest_call (pos 0) (codes "late"))
      300
      none
      (codes "x")
      (operate request_db midnight (examination_call (pos 0)) 200 none (codes "7a") on_shift)
    ≡ blocks
second_call_blocks_example =
    second_call_blocks request_db midnight (examination_call (pos 0))
      (contest_call (pos 0) (codes "late")) 200 300 none none (codes "7a") (codes "x") on_shift
      examiner refl refl accepted

unknown : (validate_token (codes "x") 200 on_shift.sessions).0 ≢ ok
unfolding validate_token validate Dict.lookup bytes_beq
unknown = λ e. cc

body_example :
    Later request_db received_by_lab received
      (pos 0)
      (body request_db midnight (examination_call (pos 0)) 200 examiner on_shift.db).1
unfolding Dict.lookup int_beq lab_str
body_example =
    body-Later request_db midnight (examination_call (pos 0)) 200 examiner on_shift.db
      received_by_lab received (pos 0) refl refl
