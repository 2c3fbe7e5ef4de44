-- ===== src/Admin.antt =====
-- server/internal/core/admin/admin.go: administrators, their roles and their sessions.
pub mod Access
pub mod Sessions
pub mod Login
use ouro_pass.Base.{
  leb, if◌then◌else◌, any, Text, is_empty, text_eq, ℕ, ◌+◌, Bool, not, ◌&&◌, Option, none, some,
  List, [],
}
use ouro_pass.Store.Domain.{
  nonce_admin_login, nonce_step_up, AdminRole, owner, operator, viewer, AdminUser, Db,
}
use ouro_pass.Store.Exec.{
  not_found, unauthorized, forbidden, Result, err, Env, Exec, pure, lift, ◌>>=◌, ◌>>◌, or_error,
  ignore, attempt, require, now, fresh,
}
use ouro_pass.Outside.{Outside}
use ouro_pass.Store.Admins
use ouro_pass.WalletAuth

pub record AdminConfig : Type 0 where
  pub owner_key_hashes : List Text
  pub pool_id : Text
  pub session_ttl : ℕ

unfoldable pub role_rank : AdminRole → ℕ
role_rank owner = 3
role_rank operator = 2
role_rank viewer = 1

unfoldable pub at_least : AdminRole → AdminRole → Bool
unfolding role_rank
at_least have min = leb (role_rank min) (role_rank have)

-- A configured hash that is empty is dropped.
unfoldable pub is_owner_key : AdminConfig → Text → Bool
is_owner_key config hash = not (is_empty hash) && any (text_eq hash) config.owner_key_hashes

abbrev pub ip_of : Text → Option Text
ip_of [] = none
ip_of ip = some ip

module _ (env : Env) (out : Outside) (config : AdminConfig) where
  abbrev pub new_owner : Text → Text → ℕ → AdminUser
  new_owner id hash t = record {
    admin_id = id;
    pool_id = config.pool_id;
    owner_key_hash = hash;
    role = owner;
    last_login_at = none;
    created_at = t;
  }

  -- An owner of the chain is written as one before it is read.
  unfoldable pub owner_user : Text → Exec Db AdminUser
  unfolding now fresh Admins.upsert Admins.get_by_owner_key_hash ◌>>=◌
  owner_user hash = do
    t ← now env
    id ← fresh env
    Admins.upsert env (new_owner id hash t)
    Admins.get_by_owner_key_hash env hash

  -- Only the missing row is a refusal; another failure is passed on.
  abbrev pub known_user : Result AdminUser → Result AdminUser
  known_user (err not_found) = err forbidden
  known_user r = r

  unfoldable pub resolve_user : Text → Exec Db AdminUser
  unfolding attempt owner_user is_owner_key Admins.get_by_owner_key_hash ◌>>=◌
  resolve_user hash =
      let added = (do r ← attempt (Admins.get_by_owner_key_hash env hash); lift (known_user r)) in
      if is_owner_key config hash then owner_user hash else added

  unfoldable pub open_session : AdminUser → Text → Exec Db (Text × AdminRole)
  unfolding now fresh ignore Admins.create_session Admins.touch_login ◌>>=◌
  open_session user ip = do
    plain ← fresh env
    t ← now env
    Admins.create_session env (record {
      session_token = out.hash_token plain;
      admin_id = user.admin_id;
      expires_at = t + config.session_ttl;
      ip = ip_of ip;
      created_at = t;
    })
    ignore (Admins.touch_login env user.admin_id t)
    pure (plain, user.role)

  unfoldable pub verify : Text → Text → Text → Text → Exec Db (Text × AdminRole)
  unfolding or_error resolve_user open_session WalletAuth.verify ◌>>=◌
  verify cose_key nonce signature ip = do
    hash ←
        or_error unauthorized (WalletAuth.verify env out nonce_admin_login cose_key nonce signature)
    user ← resolve_user hash
    open_session user ip

  unfoldable pub authenticate : Text → Exec Db AdminUser
  unfolding now or_error Admins.get_valid Admins.get_by_id ◌>>=◌
  authenticate session_token = do
    t ← now env
    sess ← or_error unauthorized (Admins.get_valid env (out.hash_token session_token) t)
    or_error unauthorized (Admins.get_by_id env sess.admin_id)

  unfoldable pub logout : Text → Exec Db (Unit {0})
  unfolding Admins.delete_session
  logout session_token = Admins.delete_session env (out.hash_token session_token)

  unfoldable pub verify_step_up : Text → Text → Text → Text → Exec Db (Unit {0})
  unfolding or_error WalletAuth.verify ◌>>=◌
  verify_step_up cose_key nonce signature expected = do
    hash ← or_error unauthorized (WalletAuth.verify env out nonce_step_up cose_key nonce signature)
    require (text_eq hash expected) forbidden
