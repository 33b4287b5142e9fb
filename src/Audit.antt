-- ===== src/Audit.antt =====
-- src/system/subsystem3/audit: the five statements of audit_query.cpp. Their parameters are `$1` to `$3`, so
-- no text of a caller is part of a statement.
pub mod Query
pub mod Manager
mod Tests
use justice_flow.Base.{Bytes, codes, ◌++◌}

-- The columns and the table, at the start of four statements.
unfoldable pub select_cols : Bytes
select_cols =
    codes "SELECT al.audit_log_id,        al.table_name,        al.record_pk, "
    ++ (codes "       al.operation,        al.officer_id, "
        ++ (codes "       COALESCE(al.belt_number, '') AS belt_number,        al.backend_pid, "
            ++ (codes "       COALESCE(al.client_addr::TEXT, '') AS client_addr, "
                ++ (codes "       COALESCE(al.old_values::TEXT, '') AS old_values, "
                    ++ (codes "       COALESCE(al.new_values::TEXT, '') AS new_values, "
                        ++ (codes
                            "       EXTRACT(EPOCH FROM al.changed_at)::BIGINT AS epoch FROM   audit.Audit_Log al "))))))

unfoldable pub sql_case_history : Bytes
unfolding select_cols
sql_case_history =
    select_cols
    ++ (codes "WHERE  (al.table_name = 'CASES'    AND al.record_pk = $1) "
        ++ (codes "OR     (al.table_name = 'EVIDENCE' AND al.record_pk IN "
            ++ (codes
                  "            (SELECT evidence_id FROM subsystem2.evidence WHERE case_id = $1)) "
                ++ (codes "OR     (al.table_name = 'WARRANTS' AND al.record_pk IN "
                    ++ (codes
                          "            (SELECT warrant_id FROM subsystem3.warrants WHERE case_id = $1)) "
                        ++ (codes "OR     (al.table_name = 'ARRESTS'  AND al.record_pk IN "
                            ++ (codes
                                  "            (SELECT arrest_id FROM subsystem3.arrests WHERE case_id = $1)) "
                                ++ (codes
                                      "OR     (al.table_name = 'BAIL_RECORDS' AND al.record_pk IN "
                                    ++ (codes
                                          "            (SELECT br.bail_id FROM subsystem3.bail_records br "
                                        ++ (codes
                                              "             JOIN   subsystem3.arrests a ON br.arrest_id = a.arrest_id "
                                            ++ (codes "             WHERE  a.case_id = $1)) "
                                                ++ (codes
                                                      "OR     (al.table_name = 'CHARGE_SHEETS' AND al.record_pk IN "
                                                    ++ (codes
                                                          "            (SELECT charge_sheet_id FROM subsystem3.charge_sheets WHERE case_id = $1)) "
                                                        ++ (codes
                                                            "OR     (al.table_name = 'ACCUSED' AND al.record_pk IN "
                                                            ++ (codes
                                                            "            (SELECT accused_id FROM subsystem2.accused WHERE case_id = $1)) "
                                                            ++ (codes
                                                            "ORDER  BY al.changed_at DESC;"))))))))))))))))

unfoldable pub sql_officer_actions : Bytes
unfolding select_cols
sql_officer_actions =
    select_cols
    ++ (codes "WHERE  al.officer_id = $1 AND    al.changed_at >= to_timestamp($2::BIGINT) "
        ++ (codes "AND    al.changed_at <= to_timestamp($3::BIGINT) ORDER  BY al.changed_at DESC;"))

unfoldable pub sql_table_changes : Bytes
unfolding select_cols
sql_table_changes =
    select_cols
    ++ (codes "WHERE  al.table_name = $1 AND    al.record_pk  = $2 ORDER  BY al.changed_at ASC;")

unfoldable pub sql_time_window : Bytes
unfolding select_cols
sql_time_window =
    select_cols
    ++ (codes "WHERE  al.changed_at >= to_timestamp($1::BIGINT) "
        ++ (codes "AND    al.changed_at <= to_timestamp($2::BIGINT) ORDER  BY al.changed_at DESC;"))

-- The same columns in the four parts of the last statement.
unfoldable pub suspicious_cols : Bytes
suspicious_cols =
    codes "SELECT al.audit_log_id,        al.table_name, al.record_pk, al.operation, "
    ++ (codes "       al.officer_id, COALESCE(al.belt_number,'') AS belt_number, "
        ++ (codes "       al.backend_pid,        COALESCE(al.client_addr::TEXT,'') AS client_addr, "
            ++ (codes "       COALESCE(al.old_values::TEXT,'') AS old_values, "
                ++ (codes "       COALESCE(al.new_values::TEXT,'') AS new_values, "
                    ++ (codes
                        "       EXTRACT(EPOCH FROM al.changed_at)::BIGINT AS epoch FROM   audit.Audit_Log al ")))))

unfoldable pub bulk_change : Bytes
unfolding suspicious_cols
bulk_change =
    suspicious_cols
    ++ (codes "WHERE  al.changed_at >= NOW() - INTERVAL '24 hours' AND    al.officer_id IN "
        ++ (codes "           (SELECT officer_id FROM subsystem1.officers WHERE station_id = $1) "
            ++ (codes "AND    al.backend_pid IN (            SELECT backend_pid "
                ++ (codes "           FROM   audit.Audit_Log "
                    ++ (codes "           WHERE  changed_at >= NOW() - INTERVAL '24 hours' "
                        ++ (codes "           AND    officer_id IN "
                            ++ (codes
                                  "                      (SELECT officer_id FROM subsystem1.officers WHERE station_id = $1) "
                                ++ (codes
                                      "           GROUP  BY backend_pid, date_trunc('hour', changed_at) "
                                    ++ (codes "           HAVING COUNT(*) > 20        ) ")))))))))

unfoldable pub rapid_delete : Bytes
unfolding suspicious_cols
rapid_delete =
    suspicious_cols
    ++ (codes "WHERE  al.changed_at >= NOW() - INTERVAL '24 hours' "
        ++ (codes "AND    al.operation   = 'DELETE' AND    al.officer_id IN "
            ++ (codes
                  "           (SELECT officer_id FROM subsystem1.officers WHERE station_id = $1) "
                ++ (codes "AND    al.officer_id IN (            SELECT officer_id "
                    ++ (codes
                          "           FROM   audit.Audit_Log            WHERE  operation    = 'DELETE' "
                        ++ (codes "           AND    changed_at  >= NOW() - INTERVAL '24 hours' "
                            ++ (codes "           AND    officer_id IN "
                                ++ (codes
                                      "                      (SELECT officer_id FROM subsystem1.officers WHERE station_id = $1) "
                                    ++ (codes "           GROUP  BY officer_id, "
                                        ++ (codes
                                              "                     (EXTRACT(EPOCH FROM changed_at)::BIGINT / 300) "
                                            ++ (codes
                                                "           HAVING COUNT(*) >= 5        ) ")))))))))))

unfoldable pub after_hours : Bytes
unfolding suspicious_cols
after_hours =
    suspicious_cols
    ++ (codes "WHERE  al.changed_at >= NOW() - INTERVAL '24 hours' AND    al.officer_id IN "
        ++ (codes "           (SELECT officer_id FROM subsystem1.officers WHERE station_id = $1) "
            ++ (codes "AND    (            EXTRACT(HOUR FROM al.changed_at AT TIME ZONE 'UTC') < 6 "
                ++ (codes
                      "           OR            EXTRACT(HOUR FROM al.changed_at AT TIME ZONE 'UTC') >= 22 "
                    ++ (codes "       ) ")))))

unfoldable pub jurisdiction_violation : Bytes
unfolding suspicious_cols
jurisdiction_violation =
    suspicious_cols
    ++ (codes "WHERE  al.changed_at >= NOW() - INTERVAL '24 hours' "
        ++ (codes "AND    al.table_name IN ('CASES', 'EVIDENCE') AND    al.officer_id IN ( "
            ++ (codes "           SELECT officer_id FROM subsystem1.officers "
                ++ (codes "           WHERE  station_id != $1        ) AND    ( "
                    ++ (codes "    (al.table_name = 'CASES' AND al.record_pk IN "
                        ++ (codes
                              "        (SELECT case_id FROM subsystem2.cases WHERE station_id = $1))     OR "
                            ++ (codes "    (al.table_name = 'EVIDENCE' AND al.record_pk IN "
                                ++ (codes
                                      "        (SELECT e.evidence_id FROM subsystem2.evidence e "
                                    ++ (codes
                                          "         JOIN   subsystem2.cases c ON e.case_id = c.case_id "
                                        ++ (codes
                                            "         WHERE  c.station_id = $1)) ) ORDER  BY epoch DESC;"))))))))))

unfoldable pub sql_suspicious : Bytes
unfolding bulk_change rapid_delete after_hours jurisdiction_violation
sql_suspicious =
    bulk_change
    ++ (codes "UNION ALL "
        ++ (rapid_delete
            ++ (codes "UNION ALL "
                ++ (after_hours ++ (codes "UNION ALL " ++ jurisdiction_violation)))))
