-- ===== src/Oauth/Exchange.antt =====
-- `tokenAuthCode` of server/internal/core/oauth/token.go: what a successful exchange did.
use mathlib.Core.Path.{subst}
use ouro_pass.Store.Tokens
use ouro_pass.Store.Codes
use ouro_pass.Keys
use ouro_pass.Base.{
  text_eq, text_eq_sound, ℕ, ◌≡◌, refl, sym, ap, ◌∙◌, Bool, true, false, not, ◌&&◌, ◌||◌, none,
  some,
}
use ouro_pass.Store.Table.{find}
use ouro_pass.Store.Domain.{AuthorizationCode, OAuthClient, Db}
use ouro_pass.Store.Exec.{
  invalid_grant, invalid_client_creds, not_eligible, ok, Env, World, ◌>>=◌, or_error, require,
  bind-ok, now,
}
use ouro_pass.Store.Inversion.{or_error-ok, require-ok, now-ok}
use ouro_pass.Outside.{Outside}
use ouro_pass.Membership.{State, is_outside}
use ouro_pass.Oauth.{Config, Attested, attest}
use ouro_pass.Oauth.Request.{
  TokenRequest, TokenResponse, MintParams, is_public, secret_matches, pkce_matches,
}
use ouro_pass.Oauth.Token.{authenticate_client, mint, mint_for_code, token_auth_code}
use ouro_pass.Oauth.Gate.{Eligible, not-true, attest-Eligible}
use ouro_pass.Oauth.Mint.{Minted, mint-Minted}
use ouro_pass.Oauth.Checks.{client_row, signer-same}

-- The code was stored, unused and in time, and is used up; client, redirect URI and verifier are
-- those it was bound to, a confidential client knows its secret, the credential is still eligible,
-- and one access token and one first grant are recorded for it.
pub record Exchanged (out : Outside) (req : TokenRequest) (resp : TokenResponse) (before after : Db)
    : Type 0 where
  pub code : AuthorizationCode
  pub mid : Db
  pub redeemed : (t : ℕ) × Codes.Redeemed (out.hash_token req.code) t code before mid
  pub same_client : code.client_id ≡ req.client_id
  pub same_uri : code.redirect_uri ≡ req.redirect_uri
  pub client : OAuthClient
  pub row : find Tokens.client_id_of req.client_id mid.clients ≡ some client
  pub pkce : pkce_matches out req.code_verifier code.code_challenge ≡ true
  pub secret :
      (is_public client.client_type
        || secret_matches out req.client_secret client.client_secret_hash)
      ≡ true
  pub eligible : (state : State) × Eligible out code.stake_credential_hash state mid
  pub minted :
      (p : MintParams) × (p.sch ≡ code.stake_credential_hash)
      × (p.aud ≡ code.aud)
      × (p.client_type ≡ client.client_type)
      × (p.rotated_from ≡ none)
      × (p.device_pubkey ≡ req.device_pubkey)
      × Minted out p resp mid after

both : (a b : Bool) → (a && b) ≡ true → (a ≡ true) × (b ≡ true)
both true b h = (refl, h)
both false b h = absurd (cc)

module _ (env : Env) (out : Outside) (config : Config) where
  abbrev code_params :
      TokenRequest → AuthorizationCode → OAuthClient → Attested → Keys.Signer → MintParams
  code_params req code client att s = record {
    sch = code.stake_credential_hash;
    aud = code.aud;
    client_type = client.client_type;
    client_id = some client.client_id;
    att = att;
    device_pubkey = req.device_pubkey;
    rotated_from = none;
    signer_kid = s.kid;
    signer_priv = s.priv;
  }

  mint_for_code-ok :
      (req : TokenRequest) (code : AuthorizationCode) (client : OAuthClient) (resp : TokenResponse)
      (w w' : World Db)
      → mint_for_code env out config req code client w ≡ (ok resp, w')
      → ((state : State) × Eligible out code.stake_credential_hash state w.db)
        × ((att : Attested) × (s : Keys.Signer) × Minted out
              (code_params req code client att s)
              resp
              w.db
              w'.db)
  unfolding mint_for_code
  mint_for_code-ok req code client resp w w' h =
      let minting = λ (att : Attested) (s : Keys.Signer).
        mint env out config (code_params req code client att s) in
      let signing = λ (att : Attested). Keys.active_signer env out >>= minting att in
      let gating = λ (att : Attested).
        require {S = Db} (not (is_outside att.state)) not_eligible >>= λ _. signing att in
      let (att, w1, attested, rest1) =
        bind-ok (attest env out code.stake_credential_hash) gating w resp w' h in
      let (_, w2, gated, rest2) =
        bind-ok (require {S = Db} (not (is_outside att.state)) not_eligible) (λ _. signing att) w1
          resp w' rest1 in
      let (held, same2) = require-ok (not (is_outside att.state)) not_eligible w1 w2 gated in
      let (same1, eligible) =
        attest-Eligible env out code.stake_credential_hash att w w1 attested
          (not-true (is_outside att.state) held) in
      let (s, w3, signed, rest3) =
        bind-ok (Keys.active_signer env out) (minting att) w2 resp w' rest2 in
      let same3 = signer-same env out s w2 w3 signed in
      (
        (att.state, eligible),
        (
          att,
          s,
          subst (λ d. Minted out (code_params req code client att s) resp d w'.db)
              (same3 ∙ same2 ∙ same1)
              (mint-Minted env out config (code_params req code client att s) resp w3 w' rest3),
        ),
      )

  authenticate-ok :
      (client : OAuthClient) (code : AuthorizationCode) (req : TokenRequest) (w w' : World Db)
      → authenticate_client out client code req w ≡ (ok tt, w')
      → (pkce_matches out req.code_verifier code.code_challenge ≡ true)
        × ((is_public client.client_type
              || secret_matches out req.client_secret client.client_secret_hash)
            ≡ true)
        × (w'.db ≡ w.db)
  unfolding authenticate_client
  authenticate-ok client code req w w' h =
      let (_, w1, first, rest) =
        bind-ok
          (require {S = Db} (pkce_matches out req.code_verifier code.code_challenge) invalid_grant)
          (λ _.
            require
              (is_public client.client_type
                || secret_matches out req.client_secret client.client_secret_hash)
              invalid_client_creds)
          w tt w' h in
      let (pkce, same) = require-ok _ invalid_grant w w1 first in
      let (secret, same') = require-ok _ invalid_client_creds w1 w' rest in
      (pkce, secret, same' ∙ same)

  -- An authorization code that is exchanged for tokens was unused and in time and is used up; the
  -- client, the redirect URI and the verifier are those it is bound to, a confidential client
  -- knows its secret, and the credential is still eligible.
  pub token_auth_code-Exchanged :
      (req : TokenRequest) (resp : TokenResponse) (w w' : World Db)
      → token_auth_code env out config req w ≡ (ok resp, w')
      → Exchanged out req resp w.db w'.db
  unfolding token_auth_code
  token_auth_code-Exchanged req resp w w' h =
      let consuming =
        λ (t : ℕ). or_error invalid_grant (Codes.consume env (out.hash_token req.code) t) in
      let minting = λ (code : AuthorizationCode) (client : OAuthClient).
        authenticate_client out client code req >>= λ _.
        mint_for_code env out config req code client in
      let asking = or_error invalid_client_creds (Tokens.get_client env req.client_id) in
      let bound = λ (code : AuthorizationCode).
        text_eq code.client_id req.client_id && text_eq code.redirect_uri req.redirect_uri in
      let checking = λ (code : AuthorizationCode).
        require {S = Db} (bound code) invalid_grant >>= λ _. asking >>= minting code in
      let (t, w1, timed, rest1) = bind-ok (now env) (λ t. consuming t >>= checking) w resp w' h in
      let (_, same1) = now-ok env w t w1 timed in
      let (code, w2, consumed_code, rest2) = bind-ok (consuming t) checking w1 resp w' rest1 in
      let redeemed = Codes.consume-Redeemed env (out.hash_token req.code) t w1 code w2 (
        or_error-ok invalid_grant (Codes.consume env (out.hash_token req.code) t) w1 code w2
          consumed_code) in
      let (_, w3, checked, rest3) =
        bind-ok (require {S = Db} (bound code) invalid_grant) (λ _. asking >>= minting code) w2 resp
          w' rest2 in
      let (matching, same3) = require-ok (bound code) invalid_grant w2 w3 checked in
      let (same_client, same_uri) = both _ _ matching in
      let (client, w4, asked, rest4) = bind-ok asking (minting code) w3 resp w' rest3 in
      let (row, same4) = client_row env out req.client_id client w3 w4 asked in
      let (_, w5, authenticated, rest5) =
        bind-ok (authenticate_client out client code req)
          (λ _. mint_for_code env out config req code client) w4 resp w' rest4 in
      let (pkce, secret, same5) = authenticate-ok client code req w4 w5 authenticated in
      let (eligible, (att, s, minted)) = mint_for_code-ok req code client resp w5 w' rest5 in
      let same : w5.db ≡ w2.db = same5 ∙ same4 ∙ same3 in
      record {
        code = code;
        mid = w2.db;
        redeemed = (
          t,
          subst (λ d. Codes.Redeemed (out.hash_token req.code) t code d w2.db) same1 redeemed,
        );
        same_client = text_eq_sound _ _ same_client;
        same_uri = text_eq_sound _ _ same_uri;
        client = client;
        row = ap (λ (d : Db). find Tokens.client_id_of req.client_id d.clients) (sym same3) ∙ row;
        pkce = pkce;
        secret = secret;
        eligible =
            subst (λ d. (state : State) × Eligible out code.stake_credential_hash state d) same
              eligible;
        minted = (
          code_params req code client att s,
          refl,
          refl,
          refl,
          refl,
          refl,
          subst (λ d. Minted out (code_params req code client att s) resp d w'.db) same minted,
        );
      }
