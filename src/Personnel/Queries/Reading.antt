-- ===== src/Personnel/Queries/Reading.antt =====
-- What the queries of src/system/subsystem1/subsystem1.cpp make of the rows.
use justice_flow.Base.{
  ◌≡◌, refl, sym, ap, ◌∙◌, true, false, Option, some, List, [], ◌∷◌, ◌++◌, ℤ, Bytes, codes,
  invalid_argument, stoi, append-nil, append_assoc, Bool-cases, inl, inr, absurd, arith,
  bytes_beq_iff, ◌==◌, bytes_eq,
}
use justice_flow.Types.{ok, OfficerRank}
use justice_flow.Auth.Manager.{parse_officer_rank}
use justice_flow.OsLayer.UnixSocket.{UnixSocket, Rows, execute, lock}
use justice_flow.Gateway.Handlers.{served, crashes}
use justice_flow.Personnel.Queries.{
  Officer, RowRead, skipped, read, throws, ◌>>=◌, number, read_officer, pushed, read_rows, filled,
  listing, list_rows, one_officer, found, get_officer, get_officer_by_id, officer_by_id_sql,
}

module _ {A : Type 0} (reader : List Bytes → RowRead A) where
  -- No number of the row makes the reader throw.
  abbrev IsReadable : RowRead A → Type 0
  IsReadable throws = ⊥
  IsReadable _ = Unit

  abbrev pub AllReadable : Rows → Type 0
  AllReadable [] = Unit
  AllReadable (row ∷ rows) = IsReadable (reader row) × AllReadable rows

  abbrev with_row : RowRead A → List A → List A
  with_row (read a) l = a ∷ l
  with_row _ l = l

  -- What is read, row by row.
  abbrev pub kept : Rows → List A
  kept [] = []
  kept (row ∷ rows) = with_row (reader row) (kept rows)

  pushed-kept :
      (r : RowRead A) (rows : Rows) (out : List A)
      → IsReadable r
      → ((out : List A) → read_rows reader rows out ≡ some (out ++ kept rows))
      → pushed reader r (read_rows reader rows) out ≡ some (out ++ with_row r (kept rows))
  unfolding pushed
  pushed-kept skipped rows out h k = k out
  pushed-kept (read a) rows out h k =
      k (out ++ a ∷ []) ∙ ap some (append_assoc out (a ∷ []) (kept rows))
  pushed-kept throws rows out h k = absurd h

  pub read_rows-kept :
      (rows : Rows) (out : List A)
      → AllReadable rows
      → read_rows reader rows out ≡ some (out ++ kept rows)
  unfolding read_rows
  read_rows-kept [] out h = ap some (sym (append-nil out))
  read_rows-kept (row ∷ rows) out h =
      pushed-kept (reader row) rows out h.0 (λ o. read_rows-kept rows o h.1)

named-stoi :
    (text name : Bytes)
    → text == name ≡ true
    → stoi name ≡ invalid_argument
    → stoi text ≡ invalid_argument
named-stoi text name e h = ap stoi ((bytes_beq_iff text name).0 e) ∙ h

-- The ranks that a login can read are no numbers.
rank_text-stoi :
    (text : Bytes) (rank : OfficerRank)
    → parse_officer_rank text ≡ some rank
    → stoi text ≡ invalid_argument
unfolding parse_officer_rank stoi
rank_text-stoi text rank h = elim (Bool-cases (text == codes "CONSTABLE")) [
  | inl e ↦ named-stoi text (codes "CONSTABLE") e refl
  | inr c ↦ elim (Bool-cases (text == codes "INSPECTOR")) [
    | inl e ↦ named-stoi text (codes "INSPECTOR") e refl
    | inr i ↦ elim (Bool-cases (text == codes "SI")) [
      | inl e ↦ named-stoi text (codes "SI") e refl
      | inr s ↦ elim (Bool-cases (text == codes "DSP")) [
        | inl e ↦ named-stoi text (codes "DSP") e refl
        | inr d ↦ absurd (ground (arith, h, c, i, s, d))
      ]
    ]
  ]
]

bind-throws :
    (m : RowRead ℤ) (f : ℤ → RowRead Officer) (db : UnixSocket)
    → ((i : ℤ) → f i ≡ throws)
    → one_officer (m >>= f) db ≡ crashes
unfolding one_officer
bind-throws skipped f db k = refl
bind-throws (read i) f db k = rw (k i) refl
bind-throws throws f db k = refl

-- A row whose rank is a text ends the reading, whatever its id is.
ranked_row :
    (id belt cnic rank status : Bytes) (rest : List Bytes) (db : UnixSocket)
    → stoi rank ≡ invalid_argument
    → one_officer (read_officer (id ∷ belt ∷ cnic ∷ rank ∷ status ∷ rest)) db ≡ crashes
unfolding one_officer read_officer
ranked_row id belt cnic rank status rest db h = bind-throws (number (stoi id)) _ db (λ i. rw h refl)

-- An officer whose rank the login can read cannot be looked up: on a row with that rank getOfficerById ends
-- in the exception of `std::stoi`.
pub ranked_officer_crashes :
    (answer : Bytes → Option Rows) (n : ℤ) (id belt cnic rank status : Bytes) (rest : List Bytes)
    (rows : Rows) (r : OfficerRank) (db : UnixSocket)
    → parse_officer_rank rank ≡ some r
    → db.locked ≡ false
    → db.connected ≡ true
    → answer (officer_by_id_sql n) ≡ some ((id ∷ belt ∷ cnic ∷ rank ∷ status ∷ rest) ∷ rows)
    → get_officer_by_id answer n db ≡ crashes
unfolding get_officer_by_id found
ranked_officer_crashes answer n id belt cnic rank status rest rows r db parsed free up replies =
    rw (get_officer, replies, execute, lock, free, up)
      (ranked_row id belt cnic rank status rest (record { connected = true; locked = false })
        (rank_text-stoi rank r parsed))

-- A list query on a free connection gives OK and, behind what the caller had, what its rows hold: the rows
-- with too few columns are left out, and the others are read in their order.
pub list_rows-kept :
    {A : Type 0} (reader : List Bytes → RowRead A) (answer : Bytes → Option Rows) (sql : Bytes)
    (rows : Rows) (out : List A) (db : UnixSocket)
    → AllReadable reader rows
    → db.locked ≡ false
    → db.connected ≡ true
    → answer sql ≡ some rows
    → list_rows reader answer sql out db
      ≡ served (ok, out ++ kept reader rows, record db { locked = false })
unfolding list_rows listing filled
list_rows-kept reader answer sql rows out db readable free up replies =
    rw (list_rows, replies, execute, lock, free, up, read_rows-kept reader rows out readable) refl
