-- ===== src/Http/Guarded.antt =====
-- Who may change the tables through the administration plane: server/internal/httpapi.
use ouro_pass.Base.{
  Bool-cases, Text, lit, ℕ, ◌≡◌, refl, ap, ◌∙◌, ◌⊎◌, inl, inr, true, false, Option, some, List,
}
use ouro_pass.Store.Domain.{AdminUser, Db}
use ouro_pass.Store.Exec.{Env, World, next}
use ouro_pass.Store.Keeps.{Keeps, keeps_rules}
use ouro_pass.Outside.{Outside}
use ouro_pass.Http.Flow.{
  Answer, Flow, go, ◌>>=◌, error_reply, not_implemented, or_reply, some_or_reply, check, bind-go,
  or_reply-go, some_or_reply-go, check-go,
}
use ouro_pass.Http.Holds.{Holds, holds_rules, bind-cases}
use ouro_pass.Http.AdminLogin.{Deps, Head, require_session, require_role}
use ouro_pass.Http.Routes.{Call, min_role, handle, admin_api}
use ouro_pass.Admin.{at_least, authenticate}
use ouro_pass.Admin.Sessions.{ValidSession, authenticate-ValidSession}
use ouro_pass.Store.Admins
use ouro_pass.Admin

module _ (env : Env) (out : Outside) (deps : Deps) where
  Keeps-authenticate :
      (P : Db → Type 0) (c : Text) → Keeps P (Admin.authenticate env out deps.config c)
  unfolding Admin.authenticate Admins.get_valid Admins.get_by_id
  Keeps-authenticate P c = search (keeps_rules) depth 14

  -- The cookie that was sent, and the session that it is the token of.
  pub record Session (head : Head) (user : AdminUser) (w : World Db) : Type 0 where
    pub cookie : Text
    pub sent : head.cookie ≡ some cookie
    pub valid : ValidSession env out cookie user w

  pub Holds-require_session :
      (P : Db → Type 0) (head : Head) → Holds P (require_session env out deps head)
  unfolding require_session
  Holds-require_session P head = search (holds_rules, Keeps-authenticate) depth 14

  pub require_session-go :
      (head : Head) (user : AdminUser) (w w1 : World Db)
      → require_session env out deps head w ≡ (go user, w1)
      → Session head user w × (w1 ≡ next (next (next w)))
  unfolding require_session
  require_session-go head user w w1 h =
      let authenticated = λ (c : Text).
        or_reply (λ e. error_reply 401 (lit "unauthorized") (lit "invalid or expired session"))
          (Admin.authenticate env out deps.config c) in
      let missing = error_reply 401 (lit "unauthorized") (lit "admin session required") in
      let (u, wa, checked, rest) =
        bind-go (check deps.has_admin not_implemented)
          (λ u. some_or_reply head.cookie missing >>= authenticated) w user w1 h in
      let (c, wb, sent, end) =
        bind-go (some_or_reply head.cookie missing) authenticated wa user w1 rest in
      let (_, same) = check-go deps.has_admin not_implemented w wa checked in
      let (cookie, same') = some_or_reply-go head.cookie missing wa c wb sent in
      let (valid, after) = authenticate-ValidSession env out deps.config c user w w1 (
        rw (same ∙ same')
          (or_reply-go _ (Admin.authenticate env out deps.config c) wb user w1 end)) in
      (record { cookie = c; sent = cookie; valid = valid }, after)

  -- A call of a resource of the administration plane that changes any table comes with the cookie of
  -- a session that is in the table and has not expired when the call reads the clock, and the role in
  -- the row of that session's administrator is at least the one that the route asks for; this holds
  -- whether the call ends with an answer or with an error.
  pub admin_api-guarded :
      (listers : Text → Option (ℕ → Text → ℕ → Option (List Text))) (head : Head) (call : Call)
      (w : World Db)
      → ((admin_api env out deps listers head call w).1.db ≡ w.db)
        ⊎ ((user : AdminUser) × Session head user w × (at_least user.role (min_role call) ≡ true))
  unfolding admin_api require_role ◌>>=◌
  admin_api-guarded listers head call w =
      let after = λ (user : AdminUser). require_role env out deps (min_role call) user >>= λ _.
      handle env out deps listers user head call in
      let same = (Holds-require_session (λ db. db ≡ w.db) head).held w refl in
      elim (bind-cases (require_session env out deps head) after w) [
        | inl (e, w1, stopped, ends) ↦
            inl (ap (λ (x : Flow Answer × World Db). x.1.db) ends ∙ (rw stopped at same))
        | inr (user, w1, known, goes) ↦
            let (session, _) = require_session-go head user w w1 known in
            elim (Bool-cases (at_least user.role (min_role call))) [
              | inl may ↦ inr (user, session, may)
              | inr refused ↦ inl (
                  ap (λ (x : Flow Answer × World Db). x.1.db) goes
                  ∙ stopped user w1 refused
                  ∙ (rw known at same))
            ]
      ]
    where
      stopped :
          (user : AdminUser) (w1 : World Db)
          → at_least user.role (min_role call) ≡ false
          → ((require_role env out deps (min_role call) user >>= λ _.
                handle env out deps listers user head call)
              w1).1.db
            ≡ w1.db
      stopped user w1 refused = rw (◌>>=◌, refused)
