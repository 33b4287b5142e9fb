-- ===== src/Personnel/Rosters.antt =====
-- The lists of src/system/subsystem1/subsystem1.cpp: duties, patrol routes, ranks and deployments.
use justice_flow.Base.{
  Bool, Option, none, some, List, [], ◌∷◌, ℤ, Bytes, codes, int_decimal, if◌then◌else◌,
}
use justice_flow.Types.{ResultCode}
use justice_flow.OsLayer.UnixSocket.{UnixSocket, Rows}
use justice_flow.Gateway.Handlers.{Served}
use justice_flow.Personnel.{pieces}
use justice_flow.Personnel.Queries.{
  IdRow, PatrolRoute, read_pair, read_deployment, read_route, list_rows,
}

abbrev pub Listing : Type 0 → Type 0
Listing A = List A → UnixSocket → Served (ResultCode × List A × UnixSocket)

duty_columns : Bytes
duty_columns = codes "SELECT duty_id, officer_id, status, duty_date FROM duty_roster WHERE "

on_date : Option Bytes → Bytes
on_date none = []
on_date (some date) = pieces (codes " AND duty_date='" ∷ date ∷ codes "'" ∷ [])

unfoldable pub get_duty_roster : (Bytes → Option Rows) → ℤ → Option Bytes → Listing IdRow
unfolding list_rows read_pair duty_columns on_date int_decimal
get_duty_roster answer station date = list_rows read_pair answer (
    pieces
      (duty_columns ∷ codes "station_id=" ∷ int_decimal station ∷ on_date date ∷ codes ";" ∷ []))

unfoldable pub get_active_duties : (Bytes → Option Rows) → ℤ → Listing IdRow
unfolding list_rows read_pair duty_columns int_decimal
get_active_duties answer station = list_rows read_pair answer (
    pieces (
      duty_columns
      ∷ codes "station_id="
      ∷ int_decimal station
      ∷ codes " AND status='ON_DUTY';"
      ∷ []))

unfoldable pub get_officer_duty_history : (Bytes → Option Rows) → ℤ → ℤ → ℤ → Listing IdRow
unfolding list_rows read_pair duty_columns int_decimal
get_officer_duty_history answer officer from to = list_rows read_pair answer (
    pieces (
      duty_columns
      ∷ codes "officer_id="
      ∷ int_decimal officer
      ∷ codes " AND scheduled_start >= to_timestamp("
      ∷ int_decimal from
      ∷ codes ") AND scheduled_end <= to_timestamp("
      ∷ int_decimal to
      ∷ codes ");"
      ∷ []))

unfoldable pub get_patrol_routes_by_station : (Bytes → Option Rows) → ℤ → Listing PatrolRoute
unfolding list_rows read_route int_decimal
get_patrol_routes_by_station answer station = list_rows read_route answer (
    pieces (
      codes
        "SELECT route_id, station_id, beat_code, route_name FROM patrol_routes WHERE station_id="
      ∷ int_decimal station
      ∷ codes " AND active=TRUE;"
      ∷ []))

unfoldable pub get_officer_rank_history : (Bytes → Option Rows) → ℤ → Listing IdRow
unfolding list_rows read_pair int_decimal
get_officer_rank_history answer officer = list_rows read_pair answer (
    pieces (
      codes "SELECT history_id, officer_id, new_rank, effective_date FROM officer_rank_history "
      ∷ codes "WHERE officer_id="
      ∷ int_decimal officer
      ∷ codes " ORDER BY effective_date DESC;"
      ∷ []))

unfoldable pub get_officer_deployments : (Bytes → Option Rows) → ℤ → Bool → Listing IdRow
unfolding list_rows read_deployment int_decimal
get_officer_deployments answer officer active_only = list_rows read_deployment answer (
    pieces (
      codes
        "SELECT deployment_id, officer_id, station_id FROM officer_deployments WHERE officer_id="
      ∷ int_decimal officer
      ∷ (if active_only then codes " AND active=TRUE" else [])
      ∷ codes ";"
      ∷ []))
