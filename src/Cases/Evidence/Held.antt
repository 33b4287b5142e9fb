-- ===== src/Cases/Evidence/Held.antt =====
-- The mapping of an evidence manager over several calls of
-- src/system/subsystem2/src/controllers/EvidenceManager.cpp.
use justice_flow.Base.{
  ℕ, ◌≡◌, refl, true, false, Option, none, some, [], ◌∷◌, ℤ, Bytes, is_empty, ◌⊎◌, inl, inr, subst,
}
use justice_flow.Types.{ResultCode, ok, invalid_state, file_system_error, SessionContext}
use justice_flow.OsLayer.Mapping.{MmapHandler, map_file, mapped_at}
use justice_flow.OsLayer.UnixSocket.{UnixSocket, Outcome, returns, blocks, Rows, execute}
use justice_flow.Gateway.Handlers.{served, crashes, waits}
use justice_flow.Cases.ChargeSheet.{stoll}
use justice_flow.Cases.Evidence.{
  Evidence, Files, sized, opened_file, map_file_to_memory, evidence_sql, Item, Logged, logged_as,
  logged_row, inserted, secured, log_and_secure_evidence,
}

-- Where the call returns, the manager holds a mapping.
Mapped : Logged → Type 0
Mapped (served r) = r.2.is_mapped ≡ true
Mapped crashes = Unit
Mapped waits = Unit

logged_as-Mapped :
    (i : Item) (officer_id : ℤ) (number : Bytes) (h : MmapHandler) (db : UnixSocket) (n : Option ℤ)
    → h.is_mapped ≡ true
    → Mapped (logged_as i officer_id number h db n)
unfolding Mapped logged_as
logged_as-Mapped i officer_id number h db none m = tt
logged_as-Mapped i officer_id number h db (some n) m = m

inserted-Mapped :
    (i : Item) (officer_id : ℤ) (h : MmapHandler) (o : Outcome (ResultCode × Rows × UnixSocket))
    → h.is_mapped ≡ true
    → Mapped (inserted i officer_id h o)
unfolding Mapped inserted logged_row
inserted-Mapped i officer_id h blocks m = tt
inserted-Mapped i officer_id h (returns (ok, (id ∷ number ∷ rest) ∷ rows, db)) m =
    logged_as-Mapped i officer_id number h db (stoll id) m
inserted-Mapped i officer_id h (returns (ok, (id ∷ []) ∷ rows, db)) m = tt
inserted-Mapped i officer_id h (returns (ok, [] ∷ rows, db)) m = tt
inserted-Mapped i officer_id h (returns (ok, [], db)) m = m
inserted-Mapped i officer_id h (returns (rc, rows, db)) m = m

-- A code other than OK.
pub IsRefusal : ResultCode → Type 0
IsRefusal rc = (rc ≡ invalid_state) ⊎ (rc ≡ file_system_error)

-- A handler that is mapped stays so and refuses every file.
Refuses : MmapHandler → ResultCode × MmapHandler → Type 0
Refuses h r = IsRefusal r.0 × (r.1 ≡ h)

sized-Refuses :
    (F : Files) (fd : ℤ) (size : Option ℕ) (h : MmapHandler)
    → h.is_mapped ≡ true
    → Refuses h (sized F fd size h)
unfolding Refuses IsRefusal sized map_file
sized-Refuses F fd none h m = (inr refl, refl)
sized-Refuses F fd (some size) h m = rw m (inl refl, refl)

opened-Refuses :
    (F : Files) (fd : Option ℤ) (h : MmapHandler)
    → h.is_mapped ≡ true
    → Refuses h (opened_file F fd h)
unfolding Refuses IsRefusal opened_file
opened-Refuses F none h m = (inr refl, refl)
opened-Refuses F (some fd) h m = sized-Refuses F fd (F.size_of fd) h m

secured-refused :
    (answer : Bytes → Option Rows) (i : Item) (officer_id : ℤ) (h : MmapHandler) (db : UnixSocket)
    (r : ResultCode × MmapHandler)
    → Refuses h r
    → (rc : ResultCode) × IsRefusal rc
      × (secured answer i officer_id r db ≡ served (rc, none, h, db))
unfolding Refuses IsRefusal secured
secured-refused answer i officer_id h db (rc, g) (inl e, same) =
    (invalid_state, inl refl, rw e (rw same refl))
secured-refused answer i officer_id h db (rc, g) (inr e, same) =
    (file_system_error, inr refl, rw e (rw same refl))

-- While the manager holds a mapping, a call with a file is refused with INVALID_STATE or
-- FILE_SYSTEM_ERROR, sends nothing to the database and leaves the mapping as it is.
pub file_refused :
    (F : Files) (answer : Bytes → Option Rows) (i : Item) (session : SessionContext)
    (h : MmapHandler) (db : UnixSocket)
    → session.is_valid ≡ true
    → is_empty i.file_path ≡ false
    → h.is_mapped ≡ true
    → (rc : ResultCode) × IsRefusal rc
      × (log_and_secure_evidence F answer i session h db ≡ served (rc, none, h, db))
unfolding log_and_secure_evidence map_file_to_memory
file_refused F answer i session h db valid file m = rw valid (
    rw file (
      secured-refused answer i session.officer_id h db _
        (opened-Refuses F (F.opened i.file_path) h m)))

log-Mapped :
    (F : Files) (answer : Bytes → Option Rows) (i : Item) (session : SessionContext)
    (h : MmapHandler) (db : UnixSocket) (fd : ℤ) (size a : ℕ)
    → session.is_valid ≡ true
    → is_empty i.file_path ≡ false
    → h.is_mapped ≡ false
    → F.opened i.file_path ≡ some fd
    → F.size_of fd ≡ some size
    → F.mmap fd size false ≡ some a
    → Mapped (log_and_secure_evidence F answer i session h db)
unfolding log_and_secure_evidence map_file_to_memory secured opened_file sized map_file mapped_at
log-Mapped F answer i session h db fd size a valid file free opens sizes maps =
    rw (valid, file, opens, sizes, free, maps)
      (inserted-Mapped i session.officer_id _
        (execute (answer (evidence_sql i session.officer_id)) db) refl)

-- Once a call with a valid session has opened and mapped a file, whatever that call returns, every later
-- call of the manager with a file is refused with INVALID_STATE or FILE_SYSTEM_ERROR, sends nothing to
-- the database and leaves the mapping as it is.
pub second_file_refused :
    (F : Files) (answer : Bytes → Option Rows) (i : Item) (session : SessionContext)
    (h : MmapHandler) (db : UnixSocket) (fd : ℤ) (size a : ℕ)
    → session.is_valid ≡ true
    → is_empty i.file_path ≡ false
    → h.is_mapped ≡ false
    → F.opened i.file_path ≡ some fd
    → F.size_of fd ≡ some size
    → F.mmap fd size false ≡ some a
    → (rc : ResultCode) (e : Option Evidence) (h' : MmapHandler) (db' : UnixSocket)
    → log_and_secure_evidence F answer i session h db ≡ served (rc, e, h', db')
    → (F' : Files) (answer' : Bytes → Option Rows) (j : Item) (session' : SessionContext)
      (db'' : UnixSocket)
    → session'.is_valid ≡ true
    → is_empty j.file_path ≡ false
    → (rc' : ResultCode) × IsRefusal rc'
      × (log_and_secure_evidence F' answer' j session' h' db'' ≡ served (rc', none, h', db''))
unfolding Mapped
second_file_refused F answer i session h db fd size a valid file free opens sizes maps rc e h' db'
      first F' answer' j session' db'' valid' file' =
    file_refused F' answer' j session' h' db'' valid' file' (
      subst Mapped first
        (log-Mapped F answer i session h db fd size a valid file free opens sizes maps))
