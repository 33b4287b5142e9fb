-- ===== src/Postgres/Memory.antt =====
-- A table in memory that keeps the laws of Postgres.antt: every statement on it succeeds.
use justice_flow.Base.{
  ℕ, ◌≡◌, refl, ap, Option, none, some, ℤ, pos, int_eq, ◌==◌, if◌then◌else◌, arith, length,
}
use justice_flow.Base.Dict
use justice_flow.Base.Dict.{Dict}
use justice_flow.Postgres.{Table, ExecResult, command_ok, failed, map_row}

module _ {Row Update New : Type 0} (apply : ℕ → Update → Row → Row) (create : ℕ → New → Row) where
  abbrev pub exec_rows : ℕ → Update → ℤ → Dict ℤ Row → Option Row → ExecResult × Dict ℤ Row
  exec_rows now u k d none = (command_ok 0, d)
  exec_rows now u k d (some r) = (command_ok 1, Dict.insert k (apply now u r) d)

  abbrev pub insert_rows : ℕ → New → ℤ → Dict ℤ Row → Option Row → Option ℤ × Dict ℤ Row
  insert_rows now n k d none = (some k, Dict.insert k (create now n) d)
  insert_rows now n k d (some r) = (none, d)

  pub exec_rows-done :
      (now : ℕ) (u : Update) (k j : ℤ) (d : Dict ℤ Row) (o : Option Row)
      → Dict.lookup k d ≡ o
      → Dict.lookup j (exec_rows now u k d o).1
        ≡ (if k == j then map_row (apply now u) (Dict.lookup j d) else Dict.lookup j d)
  exec_rows-done now u k j d none p = ground (arith, p, int_eq.test_iff k j)
  exec_rows-done now u k j d (some r) p =
      ground (arith, p, int_eq.test_iff k j, Dict.lookup-insert k j (apply now u r) d)

  pub insert_rows-fresh :
      (now : ℕ) (n : New) (k i : ℤ) (d : Dict ℤ Row) (o : Option Row)
      → Dict.lookup k d ≡ o
      → (insert_rows now n k d o).0 ≡ some i
      → Dict.lookup i d ≡ none
  insert_rows-fresh now n k i d none p h = ground (arith, p, h)
  insert_rows-fresh now n k i d (some r) p h = ground (arith, p, h)

  pub insert_rows-done :
      (now : ℕ) (n : New) (k i j : ℤ) (d : Dict ℤ Row) (o : Option Row)
      → (insert_rows now n k d o).0 ≡ some i
      → Dict.lookup j (insert_rows now n k d o).1
        ≡ (if i == j then some (create now n) else Dict.lookup j d)
  insert_rows-done now n k i j d none h = ground (arith, h, Dict.lookup-insert k j (create now n) d)
  insert_rows-done now n k i j d (some r) h = ground (arith, h)

  pub insert_rows-failed :
      (now : ℕ) (n : New) (k : ℤ) (d : Dict ℤ Row) (o : Option Row)
      → (insert_rows now n k d o).0 ≡ none
      → (insert_rows now n k d o).1 ≡ d
  insert_rows-failed now n k d none h = grind (arith, h)
  insert_rows-failed now n k d (some r) h = refl

  pub no_failure :
      (now : ℕ) (u : Update) (k : ℤ) (d : Dict ℤ Row) (o : Option Row)
      → (exec_rows now u k d o).0 ≡ failed
      → (exec_rows now u k d o).1 ≡ d
  no_failure now u k d none h = refl
  no_failure now u k d (some r) h = grind (arith, h)

  -- A table of a database that holds its rows.
  abbrev pub memory_table :
      (Db : Type 0) (get : Db → Dict ℤ Row) (put : Dict ℤ Row → Db → Db)
      → ((d : Dict ℤ Row) (db : Db) → get (put d db) ≡ d)
      → Table Db Row Update New apply create
  memory_table Db get put get_put = record {
    find = λ k db. Dict.lookup k (get db);
    fetch = λ k db. Dict.lookup k (get db);
    exec = λ now u k db.
        let x = exec_rows now u k (get db) (Dict.lookup k (get db)) in (x.0, put x.1 db);
    insert_row = λ now n db.
        let k = pos (length (get db)) in
        let x = insert_rows now n k (get db) (Dict.lookup k (get db)) in (x.0, put x.1 db);
    fetch_shows = λ k db r p. p;
    exec_done = λ now u k db n j p.
        rw (get_put (exec_rows now u k (get db) (Dict.lookup k (get db))).1 db)
          (exec_rows-done now u k j (get db) (Dict.lookup k (get db)) refl);
    exec_failed = λ now u k db j p.
        rw (get_put (exec_rows now u k (get db) (Dict.lookup k (get db))).1 db)
          (ap (Dict.lookup j) (no_failure now u k (get db) (Dict.lookup k (get db)) p));
    insert_fresh = λ now n db k p.
        insert_rows-fresh now n (pos (length (get db))) k (get db)
          (Dict.lookup (pos (length (get db))) (get db)) refl p;
    insert_done = λ now n db k j p.
        let o = Dict.lookup (pos (length (get db))) (get db) in
        rw (get_put (insert_rows now n (pos (length (get db))) (get db) o).1 db)
          (insert_rows-done now n (pos (length (get db))) k j (get db) o p);
    insert_failed = λ now n db j p.
        let o = Dict.lookup (pos (length (get db))) (get db) in
        rw (get_put (insert_rows now n (pos (length (get db))) (get db) o).1 db)
          (ap (Dict.lookup j) (insert_rows-failed now n (pos (length (get db))) (get db) o p));
  }
