-- ===== src/Store/ActionLogs.antt =====
-- internal/store/action_logs.go
use hookwatch.Models.{ActionLog}
use hookwatch.Prelude.{
  Bool, List, Result, String, [], any, err, if◌then◌else◌, nat_eq, ok, pos, select, string_eq,
  update_where, ◌&&◌, ◌++◌, ◌==◌, ◌∷◌,
}
use hookwatch.Store.Db.{
  Db, StoreError, Write, action_exists, driver, foreign_key_violation, format_time, not_found,
  request_exists, unique_violation,
}
use hookwatch.Store.Order.{OrderBy}

-- A zero time is written as NULL and read back as the zero time.
unfoldable pub log_row : ActionLog → ActionLog
unfolding format_time
log_row log = record log {
  started_at = format_time log.started_at;
  completed_at = format_time log.completed_at;
}

unfoldable pub create_action_log : Bool → ActionLog → Write (Unit {0})
unfolding log_row
create_action_log fails log db =
    if fails
    then (err driver, db)
    else if any (λ l. l.uuid == log.uuid) db.action_logs
    then (err unique_violation, db)
    else if action_exists log.action_id db && request_exists log.request_id db
    then (ok tt, record db { action_logs = db.action_logs ++ log_row log ∷ [] })
    else (err foreign_key_violation, db)

unfoldable pub updated_log : ActionLog → ActionLog → ActionLog
unfolding format_time
updated_log log row = record row {
  status = log.status;
  result = log.result;
  started_at = format_time log.started_at;
  completed_at = format_time log.completed_at;
}

unfoldable pub update_action_log : Bool → ActionLog → Write (Unit {0})
unfolding updated_log
update_action_log fails log db =
    if fails
    then (err driver, db)
    else if any (λ l. l.uuid == log.uuid) db.action_logs
    then (
      ok tt,
      record db {
        action_logs = update_where (λ row. row.uuid == log.uuid) (updated_log log) db.action_logs;
      },
    )
    else (err not_found, db)

unfoldable pub list_action_logs_by_request :
    OrderBy ActionLog → Bool → String → Db → Result StoreError (List ActionLog)
list_action_logs_by_request order fails request_id db =
    if fails
    then err driver
    else ok (
        order.sort (λ l. pos l.started_at)
          (select (λ l. l.request_id == request_id) db.action_logs))
