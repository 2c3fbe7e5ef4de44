-- ===== src/Store/Tokens.antt =====
-- server/internal/store/repo_issuedtoken.go: the ledger of access tokens; and the tables that the
-- authorization server only reads: repo_oauthclient.go (Get), repo_blacklist.go and
-- repo_issuerconfig.go.
use ouro_pass.Base.{
  if◌then◌else◌, is_unset, any, Text, lit, is_empty, text_eq, ℕ, Bool, true, false, ◌&&◌, some, [],
  ◌∷◌, ◌++◌,
}
use ouro_pass.Store.Table.{find, update, count}
use ouro_pass.Store.Domain.{token_active, token_revoked, IssuedToken, OAuthClient, Db}
use ouro_pass.Store.Exec.{
  not_found, ok, Env, Exec, pure, ◌>>=◌, attempt, some_or, now, query, exec, insert,
}

abbrev pub jti_of : IssuedToken → Text
jti_of t = t.jti

abbrev pub client_id_of : OAuthClient → Text
client_id_of c = c.client_id

abbrev pub is_token_active : IssuedToken → Bool
is_token_active t = elim t.status [ token_active ↦ true | _ ↦ false ]

abbrev pub revoke_token_at : ℕ → IssuedToken → IssuedToken
revoke_token_at now t = record t { status = token_revoked; revoked_at = some now }

module _ (env : Env) where
  unfoldable pub create : IssuedToken → Exec Db (Unit {0})
  unfolding insert
  create t =
      insert env (λ db. is_unset (find jti_of t.jti db.issued_tokens))
        (λ db. record db { issued_tokens = db.issued_tokens ++ (t ∷ []) })

  unfoldable pub get : Text → Exec Db IssuedToken
  unfolding query ◌>>=◌
  get jti = do found ← query env (λ db. find jti_of jti db.issued_tokens); some_or found not_found

  unfoldable pub revoke : Text → ℕ → Exec Db (Unit {0})
  unfolding exec
  revoke jti now =
      exec env
        (λ db. record db {
          issued_tokens = update (λ t. text_eq t.jti jti) (revoke_token_at now) db.issued_tokens;
        })
        (λ db. tt)

  unfoldable pub revoke_by_stake_credential : Text → ℕ → Exec Db ℕ
  unfolding exec
  revoke_by_stake_credential sch now =
      let hit = λ (t : IssuedToken). text_eq t.stake_credential_hash sch && is_token_active t in
      exec env
        (λ db. record db { issued_tokens = update hit (revoke_token_at now) db.issued_tokens })
        (λ db. count hit db.issued_tokens)

  unfoldable pub get_client : Text → Exec Db OAuthClient
  unfolding query ◌>>=◌
  get_client id = do
    found ← query env (λ db. find client_id_of id db.clients)
    some_or found not_found

  -- `COUNT(1) > 0`
  unfoldable pub is_blacklisted : Text → Exec Db Bool
  unfolding query
  is_blacklisted sch = query env (λ db. any (λ x. text_eq x sch) db.blacklist)

  -- A failed read leaves `rules` empty, which is tested before the error: it gives no rules too.
  unfoldable pub get_tier_rules : Exec Db Text
  unfolding query attempt ◌>>=◌
  get_tier_rules = do
    rules ← attempt (query env (λ db. db.tier_rules))
    pure (elim rules [ ok (c ∷ s) ↦ c ∷ s | _ ↦ lit "[]" ])

  -- `SetTierRules`
  unfoldable pub set_tier_rules : Text → Exec Db (Unit {0})
  unfolding exec
  set_tier_rules rules =
      exec env (λ db. record db { tier_rules = if is_empty rules then lit "[]" else rules })
        (λ db. tt)

  -- `BlacklistRepo.Add`; the reason, which nothing reads, is not kept.
  unfoldable pub add_to_blacklist : Text → Exec Db (Unit {0})
  unfolding exec
  add_to_blacklist sch =
      exec env
        (λ db. record db {
          blacklist =
              if any (λ x. text_eq x sch) db.blacklist
              then db.blacklist
              else db.blacklist ++ (sch ∷ []);
        })
        (λ db. tt)
