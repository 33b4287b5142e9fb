-- ===== src/Forensic/Status.antt =====
-- The states of a laboratory request: the edges of src/system/subsystem3/forensic/src/
-- forensic_manager.cpp, which compares texts, and the same as a relation on an enumeration.
use justice_flow.Base.{
  ◌≡◌, Bool, true, ◌&&◌, List, [], ◌∷◌, Bytes, bytes_eq, bytes_beq, codes, ◌==◌, any, arith,
}

pub data LabStatus : Type 0 where
  requested received_by_lab under_examination report_ready report_delivered contested : LabStatus

-- The texts of the states.
unfoldable pub lab_str : LabStatus → Bytes
lab_str requested = codes "REQUESTED"
lab_str received_by_lab = codes "RECEIVED_BY_LAB"
lab_str under_examination = codes "UNDER_EXAMINATION"
lab_str report_ready = codes "REPORT_READY"
lab_str report_delivered = codes "REPORT_DELIVERED"
lab_str contested = codes "CONTESTED"

edges : List (Bytes × Bytes)
edges =
    (codes "REQUESTED", codes "RECEIVED_BY_LAB")
    ∷ (codes "RECEIVED_BY_LAB", codes "UNDER_EXAMINATION")
    ∷ (codes "UNDER_EXAMINATION", codes "REPORT_READY")
    ∷ (codes "REPORT_READY", codes "REPORT_DELIVERED")
    ∷ (codes "REPORT_DELIVERED", codes "CONTESTED")
    ∷ []

same_edge : Bytes → Bytes → Bytes × Bytes → Bool
same_edge from to (f, t) = f == from && t == to

unfoldable pub validate_transition : Bytes → Bytes → Bool
unfolding edges same_edge
validate_transition from to = any (same_edge from to) edges

-- The order of the work: each state has one that follows it, but the last.
pub data Advance : LabStatus → LabStatus → Type 0 where
  receive : Advance requested received_by_lab
  examine : Advance received_by_lab under_examination
  report : Advance under_examination report_ready
  deliver : Advance report_ready report_delivered
  contest : Advance report_delivered contested

ruleset advances = (receive, examine, report, deliver, contest)

pub legal-Advance :
    (f t : LabStatus) → validate_transition (lab_str f) (lab_str t) ≡ true → Advance f t
unfolding validate_transition lab_str bytes_beq
legal-Advance f t h = grind (arith, advances)

-- Any number of advances.
pub data Progress : LabStatus → LabStatus → Type 0 where
  here : {f : LabStatus} → Progress f f
  onward : {f t u : LabStatus} → Advance f t → Progress t u → Progress f u

pub Progress-trans : {f t u : LabStatus} → Progress f t → Progress t u → Progress f u
Progress-trans here q = q
Progress-trans (onward a p) q = onward a (Progress-trans p q)
