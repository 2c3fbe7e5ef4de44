-- ===== src/Admin/Access.antt =====
-- Who an administrator is: server/internal/core/admin/admin.go.
use ouro_pass.Store.Admins
use ouro_pass.Base.{
  Bool-cases, Option-cases, some_injective, select, Text, text_eq, text_eq_refl, text_eq_complete,
  ℕ, ◌+◌, ◌≡◌, refl, sym, ap, ◌∙◌, ◌⊎◌, inl, inr, true, false, not, none, some, List, [], ◌∷◌,
  arith,
}
use ouro_pass.Store.Table.{find, find-update, find-insert, find-key}
use ouro_pass.Store.Domain.{owner, AdminUser, AdminSession, Db}
use ouro_pass.Store.Exec.{
  not_found, unauthorized, Result, ok, err, Env, World, ◌>>=◌, or_error, attempt, bind-ok, now,
  fresh, query, exec, insert,
}
use ouro_pass.Outside.{Outside}
use ouro_pass.Admin.{
  AdminConfig, is_owner_key, new_owner, owner_user, known_user, resolve_user, authenticate, logout,
}

module _ (env : Env) (out : Outside) (config : AdminConfig) where
  get_user-ok :
      (hash : Text) (u : AdminUser) (w w' : World Db)
      → Admins.get_by_owner_key_hash env hash w ≡ (ok u, w')
      → (find Admins.owner_key_of hash w.db.admin_users ≡ some u) × (w'.db ≡ w.db)
  unfolding Admins.get_by_owner_key_hash query ◌>>=◌
  get_user-ok hash u w w' h = ground arith

  -- After `Upsert` the row of the key has the role that was written.
  find-upsert_user :
      (v : AdminUser) (rows : List AdminUser)
      → (u : AdminUser) × (find Admins.owner_key_of v.owner_key_hash (Admins.upsert_user v rows)
          ≡ some u)
        × (u.role ≡ v.role)
  unfolding Admins.upsert_user
  find-upsert_user v rows = elim (Option-cases (find Admins.owner_key_of v.owner_key_hash rows)) [
    | inl new ↦
        rw (Admins.upsert_user, new)
          (
            v,
            find-insert Admins.owner_key_of v.owner_key_hash rows v
                ∙ rw new (rw (text_eq_refl v.owner_key_hash) refl),
            refl,
          )
    | inr (u, old) ↦
        rw (Admins.upsert_user, old)
          (
            record u { role = v.role },
            find-update Admins.owner_key_of v.owner_key_hash
                  (λ x. text_eq x.owner_key_hash v.owner_key_hash) (λ x. record x { role = v.role })
                  rows (λ r. refl)
                ∙ rw old (
                    rw
                      (text_eq_complete u.owner_key_hash v.owner_key_hash
                        (find-key Admins.owner_key_of v.owner_key_hash rows u old))
                      refl),
            refl,
          )
  ]

  upsert-ok :
      (v : AdminUser) (w w' : World Db)
      → Admins.upsert env v w ≡ (ok tt, w')
      → w'.db ≡ record w.db { admin_users = Admins.upsert_user v w.db.admin_users }
  unfolding Admins.upsert insert
  upsert-ok v w w' h = ground arith

  owner_user-owner :
      (hash : Text) (u : AdminUser) (w w' : World Db)
      → owner_user env out config hash w ≡ (ok u, w')
      → (u.role ≡ owner) × (find Admins.owner_key_of hash w'.db.admin_users ≡ some u)
  unfolding owner_user
  owner_user-owner hash u w w' h =
      let reading = Admins.get_by_owner_key_hash env hash in
      let writing = λ (t : ℕ) (id : Text).
        Admins.upsert env (new_owner env out config id hash t) >>= λ _. reading in
      let (t, w1, _, rest1) = bind-ok (now env) (λ t. fresh env >>= writing t) w u w' h in
      let (id, w2, _, rest2) = bind-ok (fresh env) (writing t) w1 u w' rest1 in
      let (_, w3, written, rest3) =
        bind-ok (Admins.upsert env (new_owner env out config id hash t)) (λ _. reading) w2 u w'
          rest2 in
      let (row, same) = get_user-ok hash u w3 w' rest3 in
      let after = upsert-ok (new_owner env out config id hash t) w2 w3 written in
      let (v, found, role) =
        find-upsert_user (new_owner env out config id hash t) w2.db.admin_users in
      let there : some v ≡ some u =
        sym found
        ∙ ap (λ (d : Db). find Admins.owner_key_of hash d.admin_users) (sym after)
        ∙ row in
      (
        ap (λ (x : AdminUser). x.role) (sym (some_injective there)) ∙ role,
        ap (λ (d : Db). find Admins.owner_key_of hash d.admin_users) same ∙ row,
      )

  known_user-ok :
      (r : Result AdminUser) (u : AdminUser) → known_user env out config r ≡ ok u → r ≡ ok u
  known_user-ok (ok a) u h = h
  known_user-ok (err not_found) u h = absurd (cc)
  known_user-ok (err _) u h = h

  -- An administrator is found by the key that signed: as the owner if the key is configured, and else
  -- only as a row that was there before.
  pub record Known (hash : Text) (u : AdminUser) (before after : Db) : Type 0 where
    pub row : find Admins.owner_key_of hash after.admin_users ≡ some u
    pub reason :
        ((is_owner_key config hash ≡ true) × (u.role ≡ owner))
        ⊎ ((is_owner_key config hash ≡ false) × (after ≡ before))

  added_user-ok :
      (hash : Text) (u : AdminUser) (s : Result AdminUser × World Db) (w w' : World Db)
      → Admins.get_by_owner_key_hash env hash w ≡ s
      → ◌≡◌ {A = Result AdminUser × World Db} (known_user env out config s.0, s.1) (ok u, w')
      → (find Admins.owner_key_of hash w.db.admin_users ≡ some u) × (w'.db ≡ w.db)
  added_user-ok hash u (r, w1) w w' e h =
      let is_ok : r ≡ ok u = known_user-ok r u (ap (λ (x : Result AdminUser × World Db). x.0) h) in
      let (row, same) = get_user-ok hash u w w1 (e ∙ (λ i. (is_ok i, w1))) in
      (row, ap (λ (x : Result AdminUser × World Db). x.1.db) (sym h) ∙ same)

  pub resolve_user-Known :
      (hash : Text) (u : AdminUser) (w w' : World Db)
      → resolve_user env out config hash w ≡ (ok u, w')
      → Known hash u w.db w'.db
  unfolding resolve_user attempt ◌>>=◌
  resolve_user-Known hash u w w' h = elim (Bool-cases (is_owner_key config hash)) [
    | inl a ↦
        let (role, row) = owner_user-owner hash u w w' (rw a at h) in
        record { row = row; reason = inl (a, role) }
    | inr a ↦
        let (row, same) =
          added_user-ok hash u (Admins.get_by_owner_key_hash env hash w) w w' refl (rw a at h) in
        record {
          row = ap (λ (d : Db). find Admins.owner_key_of hash d.admin_users) same ∙ row;
          reason = inr (a, same);
        }
  ]

  gone :
      (token : Text) (rows : List AdminSession)
      → find Admins.token_of token (select (λ s. not (text_eq s.session_token token)) rows) ≡ none
  unfolding find
  gone token [] = refl
  gone token (s ∷ rows) = ground (arith, gone token rows)

  logout-gone :
      (token : Text) (w w' : World Db)
      → logout env out config token w ≡ (ok tt, w')
      → find Admins.token_of (out.hash_token token) w'.db.admin_sessions ≡ none
  unfolding logout Admins.delete_session exec
  logout-gone token w w' h =
      let e : w'.db ≡ record w.db {
        admin_sessions =
            select (λ s. not (text_eq s.session_token (out.hash_token token))) w.db.admin_sessions;
      } =
        ground arith in
      ap (λ (d : Db). find Admins.token_of (out.hash_token token) d.admin_sessions) e
      ∙ gone (out.hash_token token) w.db.admin_sessions

  unknown_session :
      (token : Text) (w : World Db)
      → find Admins.token_of (out.hash_token token) w.db.admin_sessions ≡ none
      → (authenticate env out config token w).0 ≡ err unauthorized
  unfolding authenticate now or_error Admins.get_valid query ◌>>=◌
  unknown_session token w none_there = elim (Bool-cases (env.fault (w.tick + 1))) [
    | inl f ↦ rw f refl
    | inr f ↦ rw f (rw none_there refl)
  ]

  -- After a logout the session's token is refused, as long as the tables stay as they are.
  pub logout-authenticate :
      (token : Text) (w w' later : World Db)
      → logout env out config token w ≡ (ok tt, w')
      → later.db ≡ w'.db
      → (authenticate env out config token later).0 ≡ err unauthorized
  logout-authenticate token w w' later h same = unknown_session token later (
      ap (λ (d : Db). find Admins.token_of (out.hash_token token) d.admin_sessions) same
      ∙ logout-gone token w w' h)
