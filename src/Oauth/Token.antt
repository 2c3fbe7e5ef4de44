-- ===== src/Oauth/Token.antt =====
-- server/internal/core/oauth/token.go: the token endpoint.
use ouro_pass.Base.{if◌then◌else◌, Text, lit, text_eq, ℕ, ◌+◌, not, ◌&&◌, ◌||◌, Option, none, some}
use ouro_pass.Store.Domain.{
  ClientType, public, confidential, grant_active, grant_rotated, grant_revoked, grant_expired,
  RefreshGrant, AuthorizationCode, OAuthClient, Db,
}
use ouro_pass.Store.Exec.{
  crypto_error, invalid_grant, unsupported_grant, invalid_client_creds, invalid_request,
  not_eligible, Env, Exec, pure, raise, ◌>>=◌, ◌>>◌, or_error, ignore, require, some_or, now, fresh,
  with_tx,
}
use ouro_pass.Outside.{Outside}
use ouro_pass.Membership.{is_outside}
use ouro_pass.Oauth.{Config, Attested, attest}
use ouro_pass.Oauth.Request.{
  TokenRequest, TokenResponse, MintParams, is_public, bound_device, cnf_of, is_expired,
  secret_matches, pkce_matches, new_token, new_grant, device_matches, refresh_params,
}
use ouro_pass.Chain.Hex.{hex_decode, hex_encode}
use ouro_pass.Store.Codes
use ouro_pass.Store.Tokens
use ouro_pass.Store.Grants
use ouro_pass.Keys

-- `authenticateClient`
unfoldable pub authenticate_client :
    Outside → OAuthClient → AuthorizationCode → TokenRequest → Exec Db (Unit {0})
unfolding ◌>>=◌
authenticate_client out client code req = do
  require (pkce_matches out req.code_verifier code.code_challenge) invalid_grant
  require
      (is_public client.client_type
        || secret_matches out req.client_secret client.client_secret_hash)
      invalid_client_creds

module _ (env : Env) where
  -- The checks of the grant's state. A rotated grant is a replay: its whole chain is revoked.
  unfoldable pub check_grant : ℕ → RefreshGrant → Exec Db (Unit {0})
  unfolding ignore Grants.set_status Grants.revoke_chain ◌>>=◌
  check_grant t grant = elim grant.status [
    | grant_active ↦
        if is_expired t grant.expires_at
        then (do
          ignore (Grants.set_status env grant.refresh_grant_id grant_expired)
          raise invalid_grant)
        else pure tt
    | grant_rotated ↦ (do
      ignore (Grants.revoke_chain env grant.refresh_grant_id)
      raise invalid_grant)
    | grant_revoked ↦ raise invalid_grant
    | grant_expired ↦ raise invalid_grant
  ]

module _ (env : Env) (out : Outside) where
  -- A confidential client authenticates with its secret.
  unfoldable pub check_confidential : TokenRequest → Option Text → Exec Db (Unit {0})
  unfolding or_error Tokens.get_client ◌>>=◌
  check_confidential req client_id = do
    id ← some_or client_id invalid_client_creds
    client ← or_error invalid_client_creds (Tokens.get_client env id)
    require (secret_matches out req.client_secret client.client_secret_hash) invalid_client_creds

  abbrev pub check_type : TokenRequest → Option Text → ClientType → Exec Db (Unit {0})
  check_type req client_id public = pure tt
  check_type req client_id confidential = check_confidential req client_id

  unfoldable pub check_secret : TokenRequest → RefreshGrant → Exec Db (Unit {0})
  unfolding check_confidential
  check_secret req grant = check_type req grant.client_id grant.client_type

module _ (env : Env) (out : Outside) (config : Config) where
  unfoldable pub mint : MintParams → Exec Db TokenResponse
  unfolding now fresh bound_device Tokens.create Grants.create ◌>>=◌
  mint p = do
    bytes ← some_or (hex_decode p.sch) crypto_error
    t ← now env
    jti ← fresh env
    dev ← some_or (bound_device p.client_type p.device_pubkey) invalid_request
    access_token ←
        some_or
          (out.sign_access_token p.signer_kid p.signer_priv (record {
            issuer = config.issuer;
            subject = out.derive_sub bytes;
            audience = p.aud;
            issued_at = t;
            expiry = t + config.access_ttl;
            jti = jti;
            credentials = p.att.credentials;
            tier = p.att.tier;
            cnf = cnf_of out dev;
          }))
          crypto_error
    Tokens.create env (new_token p jti t (t + config.access_ttl))
    plain ← fresh env
    Grants.create env (new_grant p (out.hash_token plain) dev t (t + config.refresh_ttl))
    pure (record {
      access_token = access_token;
      refresh_token = plain;
      expires_at = t + config.access_ttl;
      tier = p.att.tier;
    })

  -- After the client is authenticated.
  unfoldable pub mint_for_code :
      TokenRequest → AuthorizationCode → OAuthClient → Exec Db TokenResponse
  unfolding attest mint Keys.active_signer ◌>>=◌
  mint_for_code req code client = do
    att ← attest env out code.stake_credential_hash
    require (not (is_outside att.state)) not_eligible
    signer ← Keys.active_signer env out
    mint (record {
      sch = code.stake_credential_hash;
      aud = code.aud;
      client_type = client.client_type;
      client_id = some client.client_id;
      att = att;
      device_pubkey = req.device_pubkey;
      rotated_from = none;
      signer_kid = signer.kid;
      signer_priv = signer.priv;
    })

  unfoldable pub token_auth_code : TokenRequest → Exec Db TokenResponse
  unfolding or_error now mint_for_code authenticate_client Codes.consume Tokens.get_client ◌>>=◌
  token_auth_code req = do
    t ← now env
    code ← or_error invalid_grant (Codes.consume env (out.hash_token req.code) t)
    require (text_eq code.client_id req.client_id && text_eq code.redirect_uri req.redirect_uri)
        invalid_grant
    client ← or_error invalid_client_creds (Tokens.get_client env req.client_id)
    authenticate_client out client code req
    mint_for_code req code client

  -- The body of the transaction: the compare-and-swap, and the successor.
  unfoldable pub rotate_and_mint : RefreshGrant → Attested → Keys.Signer → Exec Db TokenResponse
  unfolding mint hex_encode Grants.rotate_if_active ◌>>=◌
  rotate_and_mint grant att signer = do
    won ← Grants.rotate_if_active env grant.refresh_grant_id
    require won invalid_grant
    mint (refresh_params grant att signer)

  unfoldable pub refresh_grant : TokenRequest → RefreshGrant → Exec Db TokenResponse
  unfolding with_tx attest check_secret device_matches rotate_and_mint Keys.active_signer ◌>>=◌
  refresh_grant req grant = do
    check_secret env out req grant
    require (device_matches req grant) invalid_grant
    att ← attest env out grant.stake_credential_hash
    require (not (is_outside att.state)) not_eligible
    signer ← Keys.active_signer env out
    with_tx env (rotate_and_mint grant att signer)

  unfoldable pub token_refresh : TokenRequest → Exec Db TokenResponse
  unfolding or_error now check_grant refresh_grant Grants.get ◌>>=◌
  token_refresh req = do
    grant ← or_error invalid_grant (Grants.get env (out.hash_token req.refresh_token))
    t ← now env
    check_grant env t grant
    refresh_grant req grant

  unfoldable pub token : TokenRequest → Exec Db TokenResponse
  unfolding token_auth_code token_refresh
  token req =
      if text_eq req.grant_type (lit "authorization_code")
      then token_auth_code req
      else if text_eq req.grant_type (lit "refresh_token")
      then token_refresh req
      else raise unsupported_grant
