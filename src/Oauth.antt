-- ===== src/Oauth.antt =====
-- server/internal/core/oauth/oauth.go: the gate in front of issuance, and authorization.
pub mod Request
pub mod Token
pub mod Live
pub mod Gate
pub mod Frame
pub mod Authorize
pub mod Mint
pub mod Checks
pub mod Refresh
pub mod Replay
pub mod Used
pub mod Endpoint
pub mod Device
pub mod Revocation
pub mod Exchange
pub mod Introspection
use ouro_pass.Base.{
  if◌then◌else◌, any, Text, lit, is_empty, text_eq, ℕ, ◌+◌, not, ◌||◌, none, some, List, [], ◌∷◌,
}
use ouro_pass.Store.Domain.{
  activation_active, nonce_issue, nonce_activation, AuthorizationCode, OAuthClient, Db,
}
use ouro_pass.Store.Exec.{
  chain_error, not_found, invalid_client, invalid_request, not_eligible, access_denied, Result, err,
  Env, Exec, pure, lift, ◌>>=◌, ◌>>◌, or_error, attempt, require, some_or, now, fresh,
}
use ouro_pass.Outside.{Outside, ask}
use ouro_pass.Tier.{eval_rules}
use ouro_pass.Membership.{State, outside, pending, active, is_outside}
use ouro_pass.Attestor.{Claim, Facts, Attestation, AttestorResult, fact_any_active, empty_result}
use ouro_pass.Go.Maps.{get_text}
use ouro_pass.Attestor
use ouro_pass.WalletAuth
use ouro_pass.Store.Codes
use ouro_pass.Store.Tokens
use ouro_pass.Store.Activations

pub record Config : Type 0 where
  pub issuer : Text
  pub access_ttl : ℕ
  pub refresh_ttl : ℕ
  pub code_ttl : ℕ

pub record AuthorizeRequest : Type 0 where
  pub client_id : Text
  pub redirect_uri : Text
  pub aud : Text
  pub scope : List Text
  pub nonce : Text
  pub cose_key : Text
  pub signature : Text
  pub code_challenge : Text

pub record Attested : Type 0 where
  pub state : State
  pub tier : Text
  pub credentials : List Claim
  pub facts : Facts

unfoldable pub representative_state : AttestorResult → State
representative_state res =
    if text_eq (get_text fact_any_active res.facts) (lit "true")
    then active
    else if res.held
    then pending
    else outside

-- The claims of the held credentials.
unfoldable pub claims_of : List Attestation → List Claim
claims_of [] = []
claims_of (a ∷ atts) = let rest = claims_of atts in if a.held then a.claim ∷ rest else rest

module _ (env : Env) where
  -- The checks of a known client.
  unfoldable pub check_client : Text → Text → OAuthClient → Exec Db OAuthClient
  unfolding ◌>>=◌
  check_client redirect_uri aud c = do
    require (text_eq c.status (lit "active")) invalid_client
    require (any (text_eq redirect_uri) c.redirect_uris) invalid_request
    require (is_empty aud || any (text_eq aud) c.allowed_audiences) invalid_request
    pure c

  -- Only the missing client is turned into `invalid_client`; another failure is passed on.
  abbrev pub known_client : Result OAuthClient → Result OAuthClient
  known_client (err not_found) = err invalid_client
  known_client r = r

  unfoldable pub validate_client : Text → Text → Text → Exec Db OAuthClient
  unfolding attempt check_client Tokens.get_client ◌>>=◌
  validate_client client_id redirect_uri aud = do
    r ← attempt (Tokens.get_client env client_id)
    c ← lift (known_client r)
    check_client redirect_uri aud c

module _ (env : Env) (out : Outside) where
  -- A set that cannot be resolved or evaluated is an error.
  unfoldable pub ask_attestors : Text → Exec Db AttestorResult
  unfolding ask Attestor.evaluate ◌>>=◌
  ask_attestors sch = do
    outcomes ← ask (λ n. out.attestors n sch) chain_error
    some_or (Attestor.evaluate outcomes) chain_error

  unfoldable pub evaluate : Text → Exec Db AttestorResult
  unfolding ask_attestors Tokens.is_blacklisted ◌>>=◌
  evaluate sch = do
    blocked ← Tokens.is_blacklisted env sch
    if blocked then pure empty_result else ask_attestors sch

  unfoldable pub membership : Text → Exec Db State
  unfolding evaluate representative_state ◌>>=◌
  membership sch = do res ← evaluate sch; pure (representative_state res)

  unfoldable pub first_party_tier : Facts → Exec Db Text
  unfolding Tokens.get_tier_rules eval_rules ◌>>=◌
  first_party_tier facts = do
    rules ← Tokens.get_tier_rules env
    pure (eval_rules out.unmarshal_rules rules facts)

  -- The attestation of a result; without a membership no tier is computed.
  unfoldable pub attest_result : AttestorResult → Exec Db Attested
  unfolding representative_state claims_of first_party_tier ◌>>=◌
  attest_result res = do
    tier ← (if is_outside (representative_state res) then pure [] else first_party_tier res.facts)
    pure (record {
      state = representative_state res;
      tier = tier;
      credentials = claims_of res.attestations;
      facts = res.facts;
    })

  unfoldable pub attest : Text → Exec Db Attested
  unfolding evaluate attest_result ◌>>=◌
  attest sch = do res ← evaluate sch; attest_result res

  abbrev pub new_code : Config → AuthorizeRequest → Text → Text → ℕ → AuthorizationCode
  new_code config req sch plain t = record {
    code = out.hash_token plain;
    client_id = req.client_id;
    stake_credential_hash = sch;
    aud = req.aud;
    scope = req.scope;
    redirect_uri = req.redirect_uri;
    code_challenge = some req.code_challenge;
    expires_at = t + config.code_ttl;
    consumed_at = none;
    created_at = t;
  }

  -- The plain code is returned, its hash is stored.
  unfoldable pub store_code : Config → AuthorizeRequest → Text → Exec Db Text
  unfolding fresh now Codes.create ◌>>=◌
  store_code config req sch = do
    plain ← fresh env
    t ← now env
    Codes.create env (new_code config req sch plain t)
    pure plain

  -- After the client and the wallet: the gate.
  unfoldable pub issue_code : Config → AuthorizeRequest → Text → Exec Db Text
  unfolding evaluate representative_state store_code ◌>>=◌
  issue_code config req sch = do
    res ← evaluate sch
    require (not (is_outside (representative_state res))) not_eligible
    store_code config req sch

  unfoldable pub authorize : Config → AuthorizeRequest → Exec Db Text
  unfolding or_error validate_client issue_code WalletAuth.verify ◌>>=◌
  authorize config req = do
    _ ← validate_client env req.client_id req.redirect_uri req.aud
    require (not (is_empty req.code_challenge)) invalid_request
    sch ←
        or_error access_denied
          (WalletAuth.verify env out nonce_issue req.cose_key req.nonce req.signature)
    issue_code config req sch

  -- activation.go; the deep link is made from the code by the caller.
  unfoldable pub create_activation : Text → Text → Text → Text → Text → Exec Db (Text × ℕ)
  unfolding or_error membership fresh now WalletAuth.verify Activations.create ◌>>=◌
  create_activation channel_type channel_id nonce cose_key signature = do
    sch ←
        or_error access_denied (WalletAuth.verify env out nonce_activation cose_key nonce signature)
    state ← membership sch
    require (not (is_outside state)) not_eligible
    short ← fresh env
    t ← now env
    Activations.create env (record {
      code = out.hash_token short;
      stake_credential_hash = sch;
      channel_id = channel_id;
      channel_type = if is_empty channel_type then lit "telegram" else channel_type;
      status = activation_active;
      expires_at = t + 1800000000000;
      consumed_at = none;
      created_at = t;
    })
    pure (short, t + 1800000000000)
