-- ===== src/Store/Admins.antt =====
-- server/internal/store/repo_adminuser.go and repo_adminsession.go.
use ouro_pass.Base.{
  ltb, is_unset, select, Text, text_eq, ℕ, not, ◌||◌, none, some, List, [], ◌∷◌, ◌++◌,
}
use ouro_pass.Store.Table.{find, update}
use ouro_pass.Store.Domain.{AdminUser, AdminSession, Db}
use ouro_pass.Store.Exec.{
  not_found, expired, Env, Exec, pure, ◌>>=◌, ◌>>◌, require, some_or, now, query, exec, insert,
}

abbrev pub admin_of : AdminUser → Text
admin_of u = u.admin_id

abbrev pub owner_key_of : AdminUser → Text
owner_key_of u = u.owner_key_hash

abbrev pub token_of : AdminSession → Text
token_of s = s.session_token

-- `ON CONFLICT (owner_key_hash) DO UPDATE SET role=excluded.role`
unfoldable pub upsert_user : AdminUser → List AdminUser → List AdminUser
unfolding find
upsert_user u rows = elim (find owner_key_of u.owner_key_hash rows) [
  | none ↦ rows ++ (u ∷ [])
  | some _ ↦
      update (λ x. text_eq x.owner_key_hash u.owner_key_hash) (λ x. record x { role = u.role }) rows
]

module _ (env : Env) where
  unfoldable pub upsert : AdminUser → Exec Db (Unit {0})
  unfolding insert upsert_user
  upsert u =
      insert env
        (λ db.
          not (is_unset (find owner_key_of u.owner_key_hash db.admin_users))
          || is_unset (find admin_of u.admin_id db.admin_users))
        (λ db. record db { admin_users = upsert_user u db.admin_users })

  unfoldable pub get_by_owner_key_hash : Text → Exec Db AdminUser
  unfolding query ◌>>=◌
  get_by_owner_key_hash key_hash = do
    found ← query env (λ db. find owner_key_of key_hash db.admin_users)
    some_or found not_found

  unfoldable pub get_by_id : Text → Exec Db AdminUser
  unfolding query ◌>>=◌
  get_by_id id = do
    found ← query env (λ db. find admin_of id db.admin_users)
    some_or found not_found

  unfoldable pub touch_login : Text → ℕ → Exec Db (Unit {0})
  unfolding exec
  touch_login id now =
      exec env
        (λ db. record db {
          admin_users =
              update (λ u. text_eq u.admin_id id) (λ u. record u { last_login_at = some now })
                db.admin_users;
        })
        (λ db. tt)

  unfoldable pub create_session : AdminSession → Exec Db (Unit {0})
  unfolding insert
  create_session s =
      insert env (λ db. is_unset (find token_of s.session_token db.admin_sessions))
        (λ db. record db { admin_sessions = db.admin_sessions ++ (s ∷ []) })

  -- `GetValid`
  unfoldable pub get_valid : Text → ℕ → Exec Db AdminSession
  unfolding query ◌>>=◌
  get_valid token now = do
    found ← query env (λ db. find token_of token db.admin_sessions)
    s ← some_or found not_found
    require (not (ltb s.expires_at now)) expired
    pure s

  unfoldable pub delete_session : Text → Exec Db (Unit {0})
  unfolding exec
  delete_session token =
      exec env
        (λ db. record db {
          admin_sessions = select (λ s. not (text_eq s.session_token token)) db.admin_sessions;
        })
        (λ db. tt)
