-- ===== src/Handlers/Audit/Tests.antt =====
-- A log of three events, two of one instant.
use mathlib.Core.List.{Perm}
use librelock_server.Common.{length, text, ℕ, ◌≤◌, ◌≡◌, refl, none, some, List, [], ◌∷◌, arith}
use librelock_server.Common.Sorts.{IsSorted, sort_by}
use librelock_server.Handlers.Audit.{is_newer, list_audit_events}
use librelock_server.Handlers.Audit.Pages.{shown, read_pages, audit_page-bounded, audit_pages}
use librelock_server.Http.{reply, events}
use librelock_server.Models.{AuditEvent, Db, org_updated}
use librelock_server.Samples.{acme, calm}

abbrev event_at : ℕ → ℕ → AuditEvent
event_at id at = record {
  id = id;
  action = org_updated;
  actor_id = 1;
  actor_name = text "ann";
  target_id = none;
  target_name = [];
  created_at = at;
}

abbrev log_rows : List AuditEvent
log_rows = event_at 1 50 ∷ event_at 3 70 ∷ event_at 2 70 ∷ []

abbrev logged : Db
logged = record acme { audit_events = some log_rows }

second_page :
    list_audit_events calm (text "2") (text "1") logged
    ≡ reply 200 (events (event_at 2 70 ∷ event_at 1 50 ∷ []) 3)
unfolding list_audit_events sort_by librelock_server.Handlers.Audit.parse_offset
    librelock_server.Common.Numbers.atoi librelock_server.Handlers.Audit.parse_limit
second_page = refl

odd_limit :
    list_audit_events calm (text "501") (text "-1") logged ≡ list_audit_events calm [] [] logged
unfolding list_audit_events librelock_server.Handlers.Audit.parse_offset
    librelock_server.Handlers.Audit.parse_limit librelock_server.Common.Numbers.atoi
odd_limit = refl

audit_pages_example :
    let log = sort_by is_newer log_rows in
    (read_pages calm 2 0 2 logged ≡ log) × IsSorted is_newer log × Perm log log_rows
audit_pages_example =
    audit_pages calm 2 logged log_rows refl refl (omega arith) (omega arith) 2 (omega arith)
      (omega arith)

audit_page-bounded_example : length (shown (list_audit_events calm (text "2") [] logged).body) ≤ 500
audit_page-bounded_example = audit_page-bounded calm (text "2") [] logged
