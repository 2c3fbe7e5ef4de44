-- ===== src/Admin/Sessions.antt =====
-- The sessions of administrators: server/internal/core/admin/admin.go.
use ouro_pass.Base.{Text, ℕ, ◌≤◌, ◌≡◌, ap, ◌∙◌, some, arith}
use ouro_pass.Store.Table.{find}
use ouro_pass.Store.Domain.{AdminUser, AdminSession, Db}
use ouro_pass.Store.Exec.{unauthorized, ok, Env, World, next, ◌>>=◌, or_error, bind-ok, now, query}
use ouro_pass.Store.Inversion.{or_error-ok}
use ouro_pass.Outside.{Outside}
use ouro_pass.Admin.{AdminConfig, authenticate}
use ouro_pass.Store.Admins

-- The session of the token is in the table and has not expired when the call reads the clock, and the
-- administrator is that of its row.
pub record ValidSession (env : Env) (out : Outside) (token : Text) (user : AdminUser) (w : World Db)
    : Type 0 where
  pub row : AdminSession
  pub stored : find Admins.token_of (out.hash_token token) w.db.admin_sessions ≡ some row
  pub in_time : env.time w.tick ≤ row.expires_at
  pub administrator : find Admins.admin_of row.admin_id w.db.admin_users ≡ some user

module _ (env : Env) where
  get_valid-ok :
      (token : Text) (t : ℕ) (s : AdminSession) (w w' : World Db)
      → Admins.get_valid env token t w ≡ (ok s, w')
      → (find Admins.token_of token w.db.admin_sessions ≡ some s)
        × (t ≤ s.expires_at)
        × (w' ≡ next w)
  unfolding Admins.get_valid query ◌>>=◌
  get_valid-ok token t s w w' h = ground arith

  get_by_id-ok :
      (id : Text) (u : AdminUser) (w w' : World Db)
      → Admins.get_by_id env id w ≡ (ok u, w')
      → (find Admins.admin_of id w.db.admin_users ≡ some u) × (w' ≡ next w)
  unfolding Admins.get_by_id query ◌>>=◌
  get_by_id-ok id u w w' h = ground arith

module _ (env : Env) (out : Outside) (config : AdminConfig) where
  -- A cookie that is accepted is the token of a session in time, after three interactions.
  pub authenticate-ValidSession :
      (cookie : Text) (user : AdminUser) (w w1 : World Db)
      → authenticate env out config cookie w ≡ (ok user, w1)
      → ValidSession env out cookie user w × (w1 ≡ next (next (next w)))
  unfolding authenticate now ◌>>=◌
  authenticate-ValidSession cookie user w w1 h =
      let valid =
        or_error unauthorized (Admins.get_valid env (out.hash_token cookie) (env.time w.tick)) in
      let reading = λ (s : AdminSession). or_error unauthorized (Admins.get_by_id env s.admin_id) in
      let rest : (valid >>= reading) (next w) ≡ (ok user, w1) = h in
      let (s, w2, got, end) = bind-ok valid reading (next w) user w1 rest in
      let (stored, in_time, same) =
        get_valid-ok env (out.hash_token cookie) (env.time w.tick) s (next w) w2 (
          or_error-ok unauthorized (Admins.get_valid env (out.hash_token cookie) (env.time w.tick))
            (next w) s w2 got) in
      let (known, same') =
        get_by_id-ok env s.admin_id user w2 w1
          (or_error-ok unauthorized (Admins.get_by_id env s.admin_id) w2 user w1 end) in
      (
        record { row = s; stored = stored; in_time = in_time; administrator = rw same at known },
        same' ∙ ap next same,
      )
