-- ===== src/Oauth/Endpoint.antt =====
-- Used refresh tokens under the token endpoint of server/internal/core/oauth/token.go.
use ouro_pass.Store.Tokens
use ouro_pass.Store.Codes
use ouro_pass.Store.Grants
use ouro_pass.Keys
use ouro_pass.Store.Keys as KeyRepo
use ouro_pass.Base.{
  if◌then◌else◌, length, Text, lit, text_eq, ℕ, zero, suc, ◌^◌, ◌≡◌, refl, false, ◌&&◌, Option,
  List, [], ◌∷◌, ◌++◌,
}
use ouro_pass.Store.Domain.{
  ClientType, public, confidential, GrantStatus, grant_active, grant_rotated, grant_revoked,
  grant_expired, RefreshGrant, IssuedToken, Db,
}
use ouro_pass.Store.Exec.{
  invalid_grant, unsupported_grant, shutdown, Env, World, Exec, pure, raise, ◌>>◌, ignore,
}
use ouro_pass.Store.Keeps.{
  Keeps, Keeps-pure, Keeps-raise, Keeps-ignore, Keeps-if, Keeps-query, Keeps-exec, Keeps-with_tx,
  Keeps-insert, Keeps-bind, keeps_rules,
}
use ouro_pass.Outside.{Outside}
use ouro_pass.Store.Grants.{has_id, is_grant_active, with_status}
use ouro_pass.Store.Grants.Forest.{ids}
use ouro_pass.Oauth.{Config}
use ouro_pass.Oauth.Request.{TokenRequest, MintParams, is_expired}
use ouro_pass.Oauth.Token.{
  authenticate_client, check_grant, check_confidential, check_type, check_secret, mint,
  mint_for_code, token_auth_code, rotate_and_mint, refresh_grant, token_refresh, token,
}
use ouro_pass.Oauth.Frame.{Keeps-attest}
use ouro_pass.Oauth.Used.{empty_grant, IsUsed, IsUsed-update, IsUsed-insert}

module _ (env : Env) (id : Text) where
  Keeps-set_status :
      (grant : Text) (status : GrantStatus)
      → is_grant_active (with_status status empty_grant) ≡ false
      → Keeps (IsUsed id) (Grants.set_status env grant status)
  unfolding Grants.set_status
  Keeps-set_status grant status dead =
      Keeps-exec env _ _ (λ db h. IsUsed-update id db (has_id grant) status dead h)

  Keeps-rotate : (grant : Text) → Keeps (IsUsed id) (Grants.rotate_if_active env grant)
  unfolding Grants.rotate_if_active
  Keeps-rotate grant =
      Keeps-exec env _ _ (λ db h.
        IsUsed-update id db (λ g. has_id grant g && is_grant_active g) grant_rotated refl h)

  Keeps-create : (g : RefreshGrant) → Keeps (IsUsed id) (Grants.create env g)
  unfolding Grants.create
  Keeps-create g = Keeps-insert env _ _ (λ db allowed h. IsUsed-insert id db g h)

  Keeps-token_row : (t : IssuedToken) → Keeps (IsUsed id) (Tokens.create env t)
  unfolding Tokens.create IsUsed
  Keeps-token_row t = Keeps-insert env _ _ (λ db allowed h. h)

  Keeps-revoke_loop :
      (fuel : ℕ) (ids : List Text) → Keeps (IsUsed id) (Grants.revoke_loop env fuel ids)
  unfolding Grants.revoke_loop
  Keeps-revoke_loop fuel [] = Keeps-pure tt
  Keeps-revoke_loop zero (cur ∷ ids) = Keeps-raise shutdown
  Keeps-revoke_loop (suc fuel) (cur ∷ ids) =
      Keeps-bind _ _ (Keeps-set_status cur grant_revoked refl)
        (λ _. Keeps-bind _ _ (Keeps-query env _) (λ found. Keeps-revoke_loop fuel (ids ++ found)))

ruleset used_rules =
    (keeps_rules, Keeps-set_status, Keeps-rotate, Keeps-create, Keeps-token_row, Keeps-revoke_loop)

module _ (env : Env) (out : Outside) (config : Config) (id : Text) where
  Keeps-chain : (start : Text) → Keeps (IsUsed id) (Grants.revoke_chain env start)
  unfolding Grants.revoke_chain
  Keeps-chain start = record {
    at = λ w h.
        (Keeps-with_tx env (Grants.revoke_loop env (2 ^ length w.db.grants) (start ∷ []))
            (Keeps-revoke_loop env id (2 ^ length w.db.grants) (start ∷ []))).at
          w h;
  }

  Keeps-mint : (p : MintParams) → Keeps (IsUsed id) (mint env out config p)
  unfolding mint
  Keeps-mint p = search used_rules depth 12

  Keeps-signer : Keeps (IsUsed id) (Keys.active_signer env out)
  unfolding Keys.active_signer KeyRepo.list_by_status
  Keeps-signer = search keeps_rules depth 12

  Keeps-check_grant : (t : ℕ) (g : RefreshGrant) → Keeps (IsUsed id) (check_grant env t g)
  unfolding check_grant
  Keeps-check_grant t g = by_status g.status
    where
      by_status :
          (s : GrantStatus)
          → Keeps (IsUsed id) (elim s as (λ _. Exec Db (Unit {0})) [
            | grant_active ↦
                if is_expired t g.expires_at
                then (do
                  ignore (Grants.set_status env g.refresh_grant_id grant_expired)
                  raise invalid_grant)
                else pure tt
            | grant_rotated ↦ (do
              ignore (Grants.revoke_chain env g.refresh_grant_id)
              raise invalid_grant)
            | grant_revoked ↦ raise invalid_grant
            | grant_expired ↦ raise invalid_grant
          ])
      by_status grant_active =
          Keeps-if (is_expired t g.expires_at) _ _
            (Keeps-bind _ _
              (Keeps-ignore _ (Keeps-set_status env id g.refresh_grant_id grant_expired refl))
              (λ _. Keeps-raise invalid_grant))
            (Keeps-pure tt)
      by_status grant_rotated =
          Keeps-bind _ _ (Keeps-ignore _ (Keeps-chain g.refresh_grant_id))
            (λ _. Keeps-raise invalid_grant)
      by_status grant_revoked = Keeps-raise invalid_grant
      by_status grant_expired = Keeps-raise invalid_grant

  Keeps-type :
      (req : TokenRequest) (c : Option Text) (type : ClientType)
      → Keeps (IsUsed id) (check_type env out req c type)
  unfolding check_confidential Tokens.get_client
  Keeps-type req c public = Keeps-pure tt
  Keeps-type req c confidential = search keeps_rules depth 12

  Keeps-refresh : (req : TokenRequest) → Keeps (IsUsed id) (token_refresh env out config req)
  unfolding token_refresh refresh_grant rotate_and_mint check_secret Grants.get
  Keeps-refresh req =
      search
        (used_rules, Keeps-signer, Keeps-attest env out, Keeps-check_grant, Keeps-type, Keeps-mint)
        depth 20

  Keeps-consume : (code : Text) (t : ℕ) → Keeps (IsUsed id) (Codes.consume env code t)
  unfolding Codes.consume Codes.consume_body Codes.mark_consumed IsUsed
  Keeps-consume code t = search (keeps_rules, Keeps-exec) depth 14

  Keeps-code : (req : TokenRequest) → Keeps (IsUsed id) (token_auth_code env out config req)
  unfolding token_auth_code authenticate_client Tokens.get_client mint_for_code
  Keeps-code req =
      search (keeps_rules, Keeps-consume, Keeps-attest env out, Keeps-signer, Keeps-mint) depth 20

  -- No call of the token endpoint makes a used grant active again, whatever fails.
  pub token-IsUsed :
      (req : TokenRequest) (w : World Db)
      → IsUsed id w.db
      → IsUsed id (token env out config req w).1.db
  unfolding token
  token-IsUsed req w used =
      (Keeps-if (text_eq req.grant_type (lit "authorization_code")) _ _ (Keeps-code req) (
          Keeps-if (text_eq req.grant_type (lit "refresh_token")) _ _ (Keeps-refresh req)
            (Keeps-raise unsupported_grant))).at
        w used
