-- ===== src/Personnel/Changes.antt =====
-- What the changes and the inserts of src/system/subsystem1/subsystem1.cpp report.
use justice_flow.Base.{
  ℤ, [], ◌∷◌, stoi, value, invalid_argument, out_of_range, Stoi, ◌≡◌, ◌↔◌, refl, sym, Bool, true,
  false, Option, none, some, List, Bytes, absurd, arith, subst, if◌then◌else◌,
}
use justice_flow.Types.{ResultCode, ok, auth_failed, db_error, is_ok, SessionContext}
use justice_flow.OsLayer.UnixSocket.{UnixSocket, Rows, execute, lock, unlock}
use justice_flow.Gateway.Handlers.{served}
use justice_flow.Personnel.{
  Changed, reported, change, StaffChange, change_staff, change_sql, given_out, id_of, given_id,
  insert_returning, StaffInsert, insert_staff, insert_sql,
}

-- The caller has a valid session, and the connected server answers the statement.
pub record IsMade (answer : Option (List (List Bytes))) (session : SessionContext) (db : UnixSocket)
    : Type 0 where
  pub valid : session.is_valid ≡ true
  pub up : db.connected ≡ true
  pub rows : List (List Bytes)
  pub rows_answered : answer ≡ some rows

-- The change returns, reports success by its code alone, and does so exactly where it was made.
pub record Reports (answer : Option (List (List Bytes))) (session : SessionContext)
    (result : Changed) (db : UnixSocket) : Type 0 where
  pub code : ResultCode
  pub report : result ≡ served (is_ok code, code, record db { locked = false })
  pub made : (is_ok code ≡ true) ↔ IsMade answer session db

-- Where it is not made, its code is no OK.
failed-Reports :
    (answer : Option Rows) (session : SessionContext) (code : ResultCode) (db : UnixSocket)
    → is_ok code ≡ false
    → ¬ IsMade answer session db
    → Reports answer session (served (false, code, record db { locked = false })) db
failed-Reports answer session code db fails unmade = record {
  code = code;
  report = rw fails refl;
  made = (λ h. absurd (ground (arith, h, fails)), λ m. absurd (unmade m));
}

settled :
    (answer : Option Rows) (session : SessionContext) (valid up : Bool)
    → session.is_valid ≡ valid
    → let db : UnixSocket = record { connected = up; locked = false } in
      Reports answer session
        (if valid then reported (execute answer db) else served (false, auth_failed, db))
        db
unfolding reported execute lock unlock
settled answer session false up h =
    failed-Reports answer session auth_failed _ refl (λ m. ground (arith, h, m.valid))
settled none session true up h =
    failed-Reports none session db_error _ refl (λ m. ground (arith, m.rows_answered))
settled (some rows) session true false h =
    failed-Reports (some rows) session db_error _ refl (λ m. ground (arith, m.up))
settled (some rows) session true true h = record {
  code = ok;
  report = refl;
  made = (λ e. record { valid = h; up = refl; rows = rows; rows_answered = refl }, λ m. refl);
}

-- On a free connection each of the seven changes that give no id out (the start, end, cancellation and status
-- of a duty, the status of an officer, the end of a route and of a deployment) returns and leaves the
-- connection free; it reports success exactly when its code is OK, and this is so exactly when the session is
-- valid, the connection is up and the server answers the statement of the change.
pub change_staff-Reports :
    (answer : Bytes → Option Rows) (session : SessionContext) (c : StaffChange) (db : UnixSocket)
    → db.locked ≡ false
    → Reports (answer (change_sql c)) session (change_staff answer session c db) db
unfolding change change_staff
change_staff-Reports answer session c db free =
    subst
      (λ l.
        let d : UnixSocket = record { connected = db.connected; locked = l } in
        Reports (answer (change_sql c)) session (change answer session (change_sql c) d) d)
      (sym free) (settled (answer (change_sql c)) session session.is_valid db.connected refl)

-- The caller has a valid session, and the connected server answers the statement with a first row whose first
-- column is read as the number.
pub record IsGiven (answer : Option (List (List Bytes))) (session : SessionContext)
    (db : UnixSocket) (n : ℤ) : Type 0 where
  pub valid : session.is_valid ≡ true
  pub up : db.connected ≡ true
  pub column : Bytes
  pub columns : List Bytes
  pub rows : List (List Bytes)
  pub rows_answered : answer ≡ some ((column ∷ columns) ∷ rows)
  pub number : stoi column ≡ value n

given_id-number :
    (x : Stoi) (db : UnixSocket) (n : ℤ)
    → given_id x db ≡ served (true, some n, ok, db)
    → x ≡ value n
unfolding given_id
given_id-number (value m) db n e = grind (arith, e)
given_id-number invalid_argument db n e = absurd (ground (arith, e))
given_id-number out_of_range db n e = absurd (ground (arith, e))

first_column :
    (a b : Bytes) (cs ds : List Bytes) (rows rows' : Rows)
    → some ((a ∷ cs) ∷ rows) ≡ some ((b ∷ ds) ∷ rows')
    → a ≡ b
first_column a b cs ds rows rows' e = grind (arith, e)

settled_insert :
    (answer : Option Rows) (session : SessionContext) (valid up : Bool) (n : ℤ)
    → session.is_valid ≡ valid
    → let db : UnixSocket = record { connected = up; locked = false } in
      ((if valid then given_out (execute answer db) else served (false, none, auth_failed, db))
        ≡ served (true, some n, ok, db))
      ↔ IsGiven answer session db n
unfolding given_out id_of given_id execute lock unlock
settled_insert answer session false up n h =
    (λ e. absurd (ground (arith, e)), λ g. absurd (ground (arith, h, g.valid)))
settled_insert none session true up n h =
    (λ e. absurd (ground (arith, e)), λ g. absurd (ground (arith, g.rows_answered)))
settled_insert (some rows) session true false n h =
    (λ e. absurd (ground (arith, e)), λ g. absurd (ground (arith, g.up)))
settled_insert (some []) session true true n h =
    (λ e. absurd (ground (arith, e)), λ g. absurd (ground (arith, g.rows_answered)))
settled_insert (some ([] ∷ rows)) session true true n h =
    (λ e. absurd (ground (arith, e)), λ g. absurd (ground (arith, g.rows_answered)))
settled_insert (some ((column ∷ columns) ∷ rows)) session true true n h =
    let db : UnixSocket = record { connected = true; locked = false } in
    (
      λ e. record {
        valid = h;
        up = refl;
        column = column;
        columns = columns;
        rows = rows;
        rows_answered = refl;
        number = given_id-number (stoi column) db n e;
      },
      λ g.
          let same = first_column column g.column columns g.columns rows g.rows g.rows_answered in
          rw (same, g.number) refl,
    )

-- On a free connection an insert of the subsystem reports success with an id exactly when the session is
-- valid, the connection is up, and the server answers the statement of the insert with a first row whose
-- first column is read as that id; the code is OK then, and the connection free.
pub insert_staff-IsGiven :
    (answer : Bytes → Option Rows) (session : SessionContext) (i : StaffInsert) (db : UnixSocket)
    (n : ℤ)
    → db.locked ≡ false
    → (insert_staff answer session i db ≡ served (true, some n, ok, record db { locked = false }))
      ↔ IsGiven (answer (insert_sql i)) session db n
unfolding insert_returning insert_staff
insert_staff-IsGiven answer session i db n free =
    subst
      (λ l.
        let d : UnixSocket = record { connected = db.connected; locked = l } in
        (insert_returning answer session (insert_sql i) d
          ≡ served (true, some n, ok, record db { locked = false }))
        ↔ IsGiven (answer (insert_sql i)) session d n)
      (sym free)
      (settled_insert (answer (insert_sql i)) session session.is_valid db.connected n refl)
