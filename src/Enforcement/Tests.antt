-- ===== src/Enforcement/Tests.antt =====
-- Arrests, warrants and bails in a small database in memory, and the theorems of this component at
-- them.
use justice_flow.Base.{
  ◌≡◌, refl, true, false, ◌&&◌, not, none, some, List, [], ◌∷◌, Bytes, codes, ℤ, pos, bytes_beq,
  int_beq, if◌then◌else◌, is_empty,
}
use justice_flow.Base.Dict
use justice_flow.Types.{ok, is_ok, invalid_input, rank_insufficient, SessionContext, si}
use justice_flow.Enforcement.Custody.{
  bail_granted, released, custody_str, is_legal_transition, Spelled,
}
use justice_flow.Enforcement.Database.{
  ArrestRow, NewArrest, create_arrest, NewWarrant, WarrantRow, create_warrant, sql_execute, NewBail,
  create_bail, sql_update_status,
}
use justice_flow.Enforcement.Memory.{Memory, memory_db}
use justice_flow.Enforcement.Arrest.{
  validate_transition, needs_reason, update_custody_status, record_arrest,
}
use justice_flow.Enforcement.Arrest.Effects.{
  updated, update_custody_status-rows, update_custody_status-Step,
}
use justice_flow.Enforcement.Arrest.Recorded.{Recorded, arrest_of, record_arrest-Recorded}
use justice_flow.Enforcement.Arrest.History.{ArrestCall, update_call, dispute_call, record_call}
use justice_flow.Enforcement.Warrant.{
  arrest, update_ranked, validate_state, request_warrant, execute_warrant, cancel_warrant,
}
use justice_flow.Enforcement.Warrant.Effects.{warrants_never}
use justice_flow.Enforcement.Bail.{surety, bail_ranked, revoke_ranked, record_bail, revoke_bail}
use justice_flow.Enforcement.Bail.Effects.{bails_never}

abbrev officer : SessionContext
officer = record {
  officer_id = pos 7;
  cnic = codes "35202";
  rank = si;
  station_id = pos 3;
  belt_number = codes "B7";
  created_at = 100;
  expires_at = 28900;
  is_valid = true;
  session_token = codes "7a";
}

abbrev held_arrest : ArrestRow
held_arrest =
    let n : NewArrest = record {
      arrest_number = codes "AR-100-7";
      accused_cnic = codes "35201";
      case_id = pos 1;
      warrant_id = none;
      arresting_officer_id = pos 7;
      arrest_location = codes "Mall Road";
    } in
    create_arrest 100 n

abbrev free_arrest : ArrestRow
free_arrest = record held_arrest { custody_status = codes "RELEASED" }

abbrev issued : WarrantRow
issued =
    let n : NewWarrant = record {
      warrant_number = codes "WR-100-7";
      case_id = pos 1;
      accused_cnic = codes "35201";
      warrant_type = codes "ARREST";
      issuing_court = codes "Lahore";
      magistrate_name = codes "Khan";
      target_address = [];
      valid_until = codes "2026-12-31";
      requested_by = pos 7;
    } in
    create_warrant 100 n

abbrev surety_bail : NewBail
surety_bail = record {
  bail_number = codes "BA-100-7";
  arrest_id = pos 0;
  bail_type = codes "SURETY";
  bail_amount = 5000;
  court_name = codes "Lahore";
  magistrate_name = codes "Khan";
  valid_until = [];
  surety_name = codes "Ali";
  surety_cnic = codes "35203";
  surety_contact = codes "0300";
  recorded_by = pos 7;
}

abbrev rows : Memory
rows = record {
  arrest_rows = (pos 0, held_arrest) ∷ (pos 1, free_arrest) ∷ [];
  warrant_rows = (pos 0, issued) ∷ [];
  bail_rows = (pos 0, create_bail 100 surety_bail) ∷ [];
}

update_rows_example :
    memory_db.arrests.find
      (pos 0)
      (update_custody_status memory_db 200 officer (pos 0) released (codes "bail") rows).1
    ≡ updated memory_db
        (update_custody_status memory_db 200 officer (pos 0) released (codes "bail") rows).0
        200
        (sql_update_status (custody_str released) (codes "bail"))
        (pos 0)
        rows
        (pos 0)
update_rows_example =
    update_custody_status-rows memory_db 200 officer (pos 0) released (codes "bail") rows (pos 0)

update_ok :
    (update_custody_status memory_db 200 officer (pos 0) released (codes "bail") rows).0 ≡ ok
unfolding update_custody_status is_legal_transition Dict.lookup bytes_beq int_beq custody_str
    validate_transition
update_ok = refl

update_step_example :
    (r : ArrestRow) × (memory_db.arrests.find (pos 0) rows ≡ some r)
    × Spelled r.custody_status (custody_str released)
    × ((needs_reason released && is_empty (codes "bail")) ≡ false)
update_step_example =
    update_custody_status-Step memory_db 200 officer (pos 0) released (codes "bail") rows update_ok

record_example :
    Recorded memory_db 200
      (arrest_of 200 officer (pos 1) (codes "35201") (codes "Canal") (pos 0))
      rows
      (record_arrest memory_db 200 officer (pos 1) (codes "35201") (codes "Canal") (pos 0) rows)
    × ((is_ok
            (record_arrest memory_db 200 officer
              (pos 1)
              (codes "35201")
              (codes "Canal")
              (pos 0)
              rows).0
          && not (memory_db.person_exists (codes "35201") rows))
        ≡ false)
record_example =
    record_arrest-Recorded memory_db 200 officer (pos 1) (codes "35201") (codes "Canal") (pos 0)
      rows

abbrev calls : List ArrestCall
calls =
    dispute_call 200 officer (pos 0) (codes "no warrant")
    ∷ update_call 210 officer (pos 0) bail_granted []
    ∷ record_call 220 officer (pos 1) (codes "35201") (codes "Canal") (pos 0)
    ∷ update_call 230 officer (pos 0) released (codes "acquitted")
    ∷ []

abbrev expiry : Bytes → ℤ
expiry s = pos 1000

execute_ok :
    (update_ranked memory_db expiry ok 200 officer (pos 0) (sql_execute (pos 7)) true rows).0 ≡ ok
unfolding update_ranked Dict.lookup bytes_beq int_beq validate_state
execute_ok = refl

warrants_never_example :
    (request_warrant memory_db 200 officer
        (pos 1)
        (codes "35201")
        arrest
        (codes "Khan")
        (codes "Lahore")
        (codes "2026-12-31")
        []
        rows
      ≡ (rank_insufficient, none, rows))
    × (execute_warrant memory_db expiry 200 officer (pos 0) rows ≡ (rank_insufficient, rows))
    × (cancel_warrant memory_db expiry 200 officer (pos 0) (codes "lapsed") rows
        ≡ ((if is_empty (codes "lapsed") then invalid_input else rank_insufficient), rows))
warrants_never_example =
    warrants_never memory_db expiry 200 officer (pos 1) (pos 0) arrest (codes "35201")
      (codes "Khan") (codes "Lahore") (codes "2026-12-31") [] (codes "lapsed") rows

bail_ok : (bail_ranked memory_db ok 200 officer surety_bail surety rows).0 ≡ ok
unfolding bail_ranked Dict.lookup bytes_beq int_beq
bail_ok = refl

revoke_ok : (revoke_ranked memory_db ok 200 officer (pos 0) (codes "absent") rows).0 ≡ ok
unfolding revoke_ranked Dict.lookup bytes_beq int_beq
revoke_ok = refl

bails_never_example :
    (record_bail memory_db 200 officer
        (pos 0)
        surety
        5000
        (codes "Lahore")
        (codes "Khan")
        []
        (codes "A")
        (codes "35203")
        (codes "042")
        rows
      ≡ (rank_insufficient, none, rows))
    × (revoke_bail memory_db 200 officer (pos 0) (codes "absent") rows
        ≡ ((if is_empty (codes "absent") then invalid_input else rank_insufficient), rows))
bails_never_example =
    bails_never memory_db 200 officer (pos 0) (pos 0) surety 5000 (codes "Lahore") (codes "Khan") []
      (codes "A") (codes "35203") (codes "042") (codes "absent") rows
