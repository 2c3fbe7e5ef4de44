-- ===== src/Store/Audit.antt =====
-- server/internal/store/repo_auditlog.go: the audit trail.
use ouro_pass.Base.{is_unset, Text, ℕ, Bool, List, [], ◌∷◌, ◌++◌}
use ouro_pass.Store.Table.{find}
use ouro_pass.Store.Domain.{AuditLog, Db}
use ouro_pass.Store.Exec.{Env, Exec, query, insert}
use ouro_pass.Store.Timestamp.{ts, stamp_lt}
use ouro_pass.Store.Order.{order_by}
use ouro_pass.Store.Jobs.{limit}

abbrev pub audit_of : AuditLog → Text
audit_of a = a.audit_id

abbrev pub newer_audit : AuditLog → AuditLog → Bool
newer_audit a b = stamp_lt (ts b.created_at) (ts a.created_at)

module _ (env : Env) where
  unfoldable pub append : AuditLog → Exec Db (Unit {0})
  unfolding insert
  append a =
      insert env (λ db. is_unset (find audit_of a.audit_id db.audits))
        (λ db. record db { audits = db.audits ++ (a ∷ []) })

  unfoldable pub recent : ℕ → Exec Db (List AuditLog)
  unfolding query order_by
  recent n = query env (λ db. limit n (order_by newer_audit db.audits))
