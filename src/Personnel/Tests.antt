-- ===== src/Personnel/Tests.antt =====
-- Officers, a change and an array of observers, and the theorems about them at concrete inputs.
use justice_flow.Base.{
  ◌↔◌, arith, stoi, ◌≡◌, refl, true, false, Option, bytes_beq, none, some, List, [], ◌∷◌, ◌++◌, pos,
  ℕ, Bytes, codes,
}
use justice_flow.Types.{ok, si, SessionContext}
use justice_flow.OsLayer.UnixSocket.{UnixSocket}
use justice_flow.Gateway.Handlers.{served, crashes}
use justice_flow.Auth.Manager.{parse_officer_rank}
use justice_flow.Personnel.{mark_duty_start, change_staff, create_patrol_route, insert_staff}
use justice_flow.Personnel.Changes.{Reports, change_staff-Reports, IsGiven, insert_staff-IsGiven}
use justice_flow.Personnel.Queries.{
  Officer, get_officer_by_id, get_officers_by_station, get_officers_by_status,
}
use justice_flow.Personnel.Queries.Reading.{ranked_officer_crashes}
use justice_flow.Personnel.Queries.Officers.{
  NameOfficers, no_rows, short_row, full_row, station_officers-named,
}
use justice_flow.Personnel.Observers.{EvidenceMgr, attach, detach, notify_all}
use justice_flow.Personnel.Observers.Listed.{Holds, attached, removed, present, observers_refine}

abbrev session : SessionContext
session = record {
  session_token = codes "ab";
  is_valid = true;
  expires_at = 100;
  created_at = 1;
  belt_number = codes "7";
  station_id = pos 3;
  rank = si;
  cnic = codes "1";
  officer_id = pos 7;
}

abbrev free_connection : UnixSocket
free_connection = record { connected = true; locked = false }

change_staff-Reports_example :
    Reports
      (some [])
      session
      (change_staff (λ sql. some []) session (mark_duty_start (pos 4)) free_connection)
      free_connection
change_staff-Reports_example =
    change_staff-Reports (λ sql. some []) session (mark_duty_start (pos 4)) free_connection refl

insert_staff-IsGiven_example :
    (insert_staff
        (λ sql. some ((codes "12" ∷ []) ∷ []))
        session
        (create_patrol_route (pos 3) (codes "B1") (codes "Mall") [])
        free_connection
      ≡ served (true, some (pos 12), ok, free_connection))
    ↔ IsGiven (some ((codes "12" ∷ []) ∷ [])) session free_connection (pos 12)
insert_staff-IsGiven_example =
    insert_staff-IsGiven (λ sql. some ((codes "12" ∷ []) ∷ [])) session
      (create_patrol_route (pos 3) (codes "B1") (codes "Mall") []) free_connection (pos 12) refl

-- An officer with the number of a rank, a row without a status, and one with the name of a rank.
abbrev numbered : List Bytes
numbered = codes "7" ∷ codes "A" ∷ codes "1" ∷ codes "3" ∷ codes "0" ∷ []

abbrev short : List Bytes
short = codes "8" ∷ codes "B" ∷ []

abbrev seven : Officer
seven = record {
  officer_id = pos 7;
  belt_number = codes "A";
  cnic = codes "1";
  current_rank = pos 3;
  status = pos 0;
}

abbrev ranked : List Bytes
ranked = codes "7" ∷ codes "A" ∷ codes "1" ∷ codes "SI" ∷ codes "0" ∷ []

numbered_first : NameOfficers (numbered ∷ short ∷ []) (seven ∷ [])
unfolding stoi
numbered_first = full_row refl refl refl (short_row (omega arith) no_rows)

station_officers-named_example :
    (get_officers_by_station (λ sql. some (numbered ∷ short ∷ [])) (pos 3) [] free_connection
      ≡ served (ok, [] ++ seven ∷ [], free_connection))
    × (get_officers_by_status (λ sql. some (numbered ∷ short ∷ [])) (pos 3) 0 [] free_connection
        ≡ served (ok, [] ++ seven ∷ [], free_connection))
station_officers-named_example =
    station_officers-named (λ sql. some (numbered ∷ short ∷ [])) (pos 3) 0 (numbered ∷ short ∷ [])
      (numbered ∷ short ∷ []) (seven ∷ []) (seven ∷ []) [] free_connection numbered_first
      numbered_first refl refl refl refl

ranked_officer_crashes_example :
    get_officer_by_id (λ sql. some (ranked ∷ [])) (pos 7) free_connection ≡ crashes
unfolding parse_officer_rank bytes_beq
ranked_officer_crashes_example =
    ranked_officer_crashes (λ sql. some (ranked ∷ [])) (pos 7) (codes "7") (codes "A") (codes "1")
      (codes "SI") (codes "0") [] [] si free_connection refl refl refl refl

-- The audit, a null pointer and a trigger.
abbrev three : List (Option ℕ)
three = some 10 ∷ none ∷ some 20 ∷ []

abbrev mgr : EvidenceMgr
mgr = record {
  observers = three ++ none ∷ none ∷ none ∷ none ∷ none ∷ none ∷ none ∷ [];
  observer_count = 3;
}

observers_refine_example :
    Holds (attach (some 10) mgr) (attached (some 10) three)
    × Holds (detach (some 10) mgr) (removed (some 10) three)
    × (notify_all mgr ≡ present three)
observers_refine_example = observers_refine (some 10) three mgr (record {
  behind = none ∷ none ∷ none ∷ none ∷ none ∷ none ∷ none ∷ [];
  places = refl;
  has_count = refl;
  ten = refl;
})
