-- ===== src/Admin/Login.antt =====
-- What a login leaves in the tables: server/internal/core/admin/admin.go.
use mathlib.Core.Path.{subst}
use ouro_pass.Store.Admins
use ouro_pass.WalletAuth
use ouro_pass.Base.{
  Bool-cases, Text, text_eq, text_eq_refl, ℕ, ◌+◌, ◌≡◌, refl, sym, ap, ◌∙◌, ◌⊎◌, inl, inr, true,
  false, none, some, List, [], ◌∷◌, ◌++◌, arith,
}
use ouro_pass.Store.Table.{find, update, find-update, find-insert}
use ouro_pass.Store.Domain.{
  nonce_admin_login, AdminRole, owner, AuthNonce, AdminUser, AdminSession, Db,
}
use ouro_pass.Store.Exec.{
  unauthorized, Result, ok, Env, World, Exec, next, pure, lift, ◌>>=◌, ok_injective, or_error,
  ignore, bind-ok, now, fresh, exec, insert,
}
use ouro_pass.Store.Inversion.{or_error-ok}
use ouro_pass.Store.Keeps.{Keeps, Keeps-insert, keeps_rules}
use ouro_pass.Outside.{Outside}
use ouro_pass.WalletAuth.Binding.{Verified, verify-Verified}
use ouro_pass.Admin.{
  AdminConfig, is_owner_key, ip_of, owner_user, resolve_user, open_session, verify,
}
use ouro_pass.Admin.Access.{resolve_user-Known}

-- No nonce differs.
abbrev SameNonces : List AuthNonce → Db → Type 0
SameNonces xs db = db.nonces ≡ xs

module _ (env : Env) (out : Outside) (config : AdminConfig) where
  -- The session that a login opens: it is found by the returned token's hash, and it is that of the
  -- administrator with the given role whom the key hash finds; the time is the one read before it.
  pub record Opened (hash token : Text) (role : AdminRole) (after : World Db) : Type 0 where
    pub session : AdminSession
    pub stored : find Admins.token_of (out.hash_token token) after.db.admin_sessions ≡ some session
    pub user : AdminUser
    pub row : find Admins.owner_key_of hash after.db.admin_users ≡ some user
    pub own : session.admin_id ≡ user.admin_id
    pub with_role : user.role ≡ role
    pub until :
        (n : ℕ) × (after.tick ≡ n + 3) × (session.expires_at ≡ env.time n + config.session_ttl)

  touch-cases :
      (id : Text) (t : ℕ) (w : World Db)
      → (ignore (Admins.touch_login env id t) w ≡ (ok tt, next w))
        ⊎ (ignore (Admins.touch_login env id t) w ≡ (
          ok tt,
          record {
            db = record w.db {
              admin_users =
                  update
                    (λ u. text_eq u.admin_id id)
                    (λ u. record u { last_login_at = some t })
                    w.db.admin_users;
            };
            tick = w.tick + 1;
          },
        ))
  unfolding ignore Admins.touch_login exec
  touch-cases id t w = elim (Bool-cases (env.fault w.tick)) [
    | inl f ↦ inl (rw f refl)
    | inr fine ↦ inr (rw fine refl)
  ]

  abbrev new_session : AdminUser → Text → Text → ℕ → AdminSession
  new_session u ip token t = record {
    session_token = out.hash_token token;
    admin_id = u.admin_id;
    expires_at = t + config.session_ttl;
    ip = ip_of ip;
    created_at = t;
  }

  create_session-ok :
      (s : AdminSession) (w w' : World Db)
      → Admins.create_session env s w ≡ (ok tt, w')
      → (find Admins.token_of s.session_token w.db.admin_sessions ≡ none)
        × (w' ≡ record {
          db = record w.db { admin_sessions = w.db.admin_sessions ++ (s ∷ []) };
          tick = w.tick + 1;
        })
  unfolding Admins.create_session insert
  create_session-ok s w w' h = (ground arith, ground arith)

  touched_row :
      (hash id : Text) (t : ℕ) (u : AdminUser) (rows : List AdminUser)
      → find Admins.owner_key_of hash rows ≡ some u
      → (v : AdminUser) × (find Admins.owner_key_of hash
            (update (λ u. text_eq u.admin_id id) (λ u. record u { last_login_at = some t }) rows)
          ≡ some v)
        × (u.admin_id ≡ v.admin_id)
        × (v.role ≡ u.role)
  touched_row hash id t u rows h =
      let found =
        find-update Admins.owner_key_of hash (λ u. text_eq u.admin_id id)
          (λ u. record u { last_login_at = some t }) rows (λ r. refl) in
      elim (Bool-cases (text_eq u.admin_id id)) [
        | inl hit ↦ (record u { last_login_at = some t }, found ∙ rw h (rw hit refl), refl, refl)
        | inr miss ↦ (u, found ∙ rw h (rw miss refl), refl, refl)
      ]

  -- The tables with the new session in them, before the login is stamped.
  abbrev with_session : AdminSession → World Db → World Db
  with_session s w = record {
    db = record w.db { admin_sessions = w.db.admin_sessions ++ (s ∷ []) };
    tick = w.tick + 1;
  }

  abbrev ResultOf : Text → Text → AdminRole → World Db → World Db → Type 0
  ResultOf hash token role w w' = Opened hash token role w' × (w'.db.nonces ≡ w.db.nonces)

  found_session :
      (s : AdminSession) (rows : List AdminSession)
      → find Admins.token_of s.session_token rows ≡ none
      → find Admins.token_of s.session_token (rows ++ (s ∷ [])) ≡ some s
  found_session s rows free =
      find-insert Admins.token_of s.session_token rows s
      ∙ rw free (rw (text_eq_refl s.session_token) refl)

  stamped :
      (hash plain ip : Text) (u : AdminUser) (w w4 : World Db)
      → find Admins.owner_key_of hash w.db.admin_users ≡ some u
      → find Admins.token_of (out.hash_token plain) w.db.admin_sessions ≡ none
      → ignore
          (Admins.touch_login env u.admin_id (env.time (w.tick + 1)))
          (with_session (new_session u ip plain (env.time (w.tick + 1))) (next (next w)))
        ≡ (ok tt, w4)
      → ResultOf hash plain u.role w w4
  stamped hash plain ip u w w4 row free h =
      let t = env.time (w.tick + 1) in
      let s = new_session u ip plain t in
      let w3 = with_session s (next (next w)) in
      let clock : w.tick + 1 + 1 + 1 + 1 ≡ w.tick + 1 + 3 = omega arith in
      elim (touch-cases u.admin_id t w3) [
        | inl k ↦
            let e : next w3 ≡ w4 = ap (λ (x : Result (Unit {0}) × World Db). x.1) (sym k ∙ h) in
            subst (ResultOf hash plain u.role w) e (
              record {
                session = s;
                stored = found_session s w.db.admin_sessions free;
                user = u;
                row = row;
                own = refl;
                with_role = refl;
                until = (w.tick + 1, clock, refl);
              },
              refl,
            )
        | inr k ↦
            let (v, found, own, same_role) = touched_row hash u.admin_id t u w.db.admin_users row in
            subst (ResultOf hash plain u.role w)
              (ap (λ (x : Result (Unit {0}) × World Db). x.1) (sym k ∙ h))
              (
                record {
                  session = s;
                  stored = found_session s w.db.admin_sessions free;
                  user = v;
                  row = found;
                  own = own;
                  with_role = same_role;
                  until = (w.tick + 1, clock, refl);
                },
                refl,
              )
      ]

  open_session-Opened :
      (hash ip token : Text) (u : AdminUser) (role : AdminRole) (w w' : World Db)
      → find Admins.owner_key_of hash w.db.admin_users ≡ some u
      → open_session env out config u ip w ≡ (ok (token, role), w')
      → ResultOf hash token role w w' × (u.role ≡ role)
  unfolding open_session fresh now ◌>>=◌
  open_session-Opened hash ip token u role w w' row h =
      let plain = env.random w.tick in
      let t = env.time (w.tick + 1) in
      let s = new_session u ip plain t in
      let stamping = ignore (Admins.touch_login env u.admin_id t) in
      let answering : Exec Db (Text × AdminRole) = pure (plain, u.role) in
      let (_, w3, made, rest) =
        bind-ok (Admins.create_session env s) (λ _. stamping >>= λ _. answering) (next (next w))
          (token, role) w' h in
      let (free, after) = create_session-ok s (next (next w)) w3 made in
      let (_, w4, stamp, end) = bind-ok stamping (λ _. answering) w3 (token, role) w' rest in
      let opened =
        stamped hash plain ip u w w4 row free
          (subst (λ (x : World Db). stamping x ≡ (ok tt, w4)) after stamp) in
      let result : (plain, u.role) ≡ (token, role) =
        ok_injective (ap (λ (x : Result (Text × AdminRole) × World Db). x.0) end) in
      let world : w4 ≡ w' = ap (λ (x : Result (Text × AdminRole) × World Db). x.1) end in
      (
        subst (ResultOf hash token role w) world
            (subst (λ (x : Text × AdminRole). ResultOf hash x.0 x.1 w w4) result opened),
        ap (λ (x : Text × AdminRole). x.1) result,
      )

  Keeps-upsert : (xs : List AuthNonce) (v : AdminUser) → Keeps (SameNonces xs) (Admins.upsert env v)
  unfolding Admins.upsert
  Keeps-upsert xs v = Keeps-insert env _ _ (λ db _ h. h)

  Keeps-owner_user :
      (xs : List AuthNonce) (hash : Text) → Keeps (SameNonces xs) (owner_user env out config hash)
  unfolding owner_user Admins.get_by_owner_key_hash
  Keeps-owner_user xs hash = search (keeps_rules, Keeps-upsert) depth 14

  Keeps-lift : (xs : List AuthNonce) (r : Result AdminUser) → Keeps (SameNonces xs) (lift r)
  Keeps-lift xs r = record { at = λ w h. h }

  Keeps-resolve_user :
      (xs : List AuthNonce) (hash : Text) → Keeps (SameNonces xs) (resolve_user env out config hash)
  unfolding resolve_user Admins.get_by_owner_key_hash
  Keeps-resolve_user xs hash = search (keeps_rules, Keeps-owner_user, Keeps-lift) depth 14

  -- What a login secures.
  pub record LoggedIn (nonce signature token : Text) (role : AdminRole) (before after : World Db)
      : Type 0 where
    pub hash : Text
    pub signed : Db
    pub verified :
        Verified env out nonce_admin_login nonce signature hash
          (env.time before.tick)
          before.db
          signed
    pub spent : after.db.nonces ≡ signed.nonces
    pub opened : Opened hash token role after
    pub reason :
        ((is_owner_key config hash ≡ true) × (role ≡ owner))
        ⊎ ((is_owner_key config hash ≡ false)
            × ((u : AdminUser) × (find Admins.owner_key_of hash before.db.admin_users ≡ some u)
                × (u.role ≡ role)))

  Verified-users :
      (nonce signature hash : Text) (t : ℕ) (before after : Db)
      → Verified env out nonce_admin_login nonce signature hash t before after
      → after.admin_users ≡ before.admin_users
  Verified-users nonce signature hash t before after v =
      let (n, used, _) = v.used in ap (λ (d : Db). d.admin_users) used.after_db

  -- A login that succeeds was signed: the nonce was stored for logins, issued to the hash of the key
  -- that signed it, unused and not past its expiry at the time that the call reads first, and in the
  -- tables after it is spent, with no other change in the nonces. Its token is that of a session in the
  -- table, which belongs to the administrator with that key hash and ends a session's life after the
  -- time that is read for it. The role is the owner's if the key is configured as an owner's,
  -- and else the role of a row with that key hash that was there before.
  pub verify-LoggedIn :
      (cose_key nonce signature ip token : Text) (role : AdminRole) (w w' : World Db)
      → verify env out config cose_key nonce signature ip w ≡ (ok (token, role), w')
      → LoggedIn nonce signature token role w w'
  unfolding verify
  verify-LoggedIn cose_key nonce signature ip token role w w' h =
      let signing = WalletAuth.verify env out nonce_admin_login cose_key nonce signature in
      let opening = λ (u : AdminUser). open_session env out config u ip in
      let (hash, w1, signed, rest) =
        bind-ok (or_error unauthorized signing)
          (λ hash. resolve_user env out config hash >>= opening) w (token, role) w' h in
      let verified =
        verify-Verified env out nonce_admin_login cose_key nonce signature hash w w1
          (or_error-ok unauthorized signing w hash w1 signed) in
      let (u, w2, resolved, last) =
        bind-ok (resolve_user env out config hash) opening w1 (token, role) w' rest in
      let known = resolve_user-Known env out config hash u w1 w2 resolved in
      let ((opened, nonces), same_role) =
        open_session-Opened hash ip token u role w2 w' known.row last in
      let untouched : w2.db.nonces ≡ w1.db.nonces =
        ap (λ (x : Result AdminUser × World Db). x.1.db.nonces) (sym resolved)
        ∙ (Keeps-resolve_user w1.db.nonces hash).at w1 refl in
      let users = Verified-users nonce signature hash (env.time w.tick) w.db w1.db verified in
      record {
        hash = hash;
        signed = w1.db;
        verified = verified;
        spent = nonces ∙ untouched;
        opened = opened;
        reason = elim (known.reason) [
          | inl (configured, is_owner) ↦ inl (configured, sym same_role ∙ is_owner)
          | inr (other, same) ↦ inr (
            other,
            (
              u,
              ap (find Admins.owner_key_of hash) (sym (ap (λ (d : Db). d.admin_users) same ∙ users))
                  ∙ known.row,
              same_role,
            ),
          )
        ];
      }
