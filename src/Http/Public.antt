-- ===== src/Http/Public.antt =====
-- server/internal/httpapi/handlers_wallet.go, handlers_verifier.go, handlers_verifier_introspect.go,
-- handlers_channels.go and handlers_activation.go: what anyone may call.
use ouro_pass.Base.{
  if◌then◌else◌, select, Text, lit, is_empty, text_eq, ℕ, true, not, Option, none, some, List, [],
  ◌∷◌, map,
}
use ouro_pass.Store.Domain.{NoncePurpose, nonce_issue, nonce_activation, ChannelConfig}
use ouro_pass.Store.Exec.{Error, invalid_client, not_eligible, access_denied, Result, ok, err, Env}
use ouro_pass.Outside.{PublicKey, Outside}
use ouro_pass.Http.Flow.{
  text, number, flag, objects, Failure, Answer, Http, ◌>>=◌, ◌>>◌, error_reply, bad_request,
  server_error, not_implemented, answer, or_reply, tried, some_or_reply, check,
}
use ouro_pass.Http.AdminLogin.{Deps}
use ouro_pass.Telegram.Settings.{decode_username}
use ouro_pass.Oauth.Live.{IntrospectResponse}
use ouro_pass.Http.ClientAdmin.{usable}
use ouro_pass.WalletAuth
use ouro_pass.Keys
use ouro_pass.Oauth
use ouro_pass.Oauth.Live
use ouro_pass.Store.Channels
use ouro_pass.Telegram.{telegram}

-- `memberNoncePurpose`
unfoldable pub member_nonce_purpose : Text → Option NoncePurpose
member_nonce_purpose p =
    if text_eq p (lit "issue")
    then some nonce_issue
    else if text_eq p (lit "activation")
    then some nonce_activation
    else none

pub record ChallengeBody : Type 0 where
  pub purpose : Text
  pub stake_address : Text

-- `tokenBody`, of a JSON or a form body.
pub record TokenBody : Type 0 where
  pub token : Text
  pub jti : Text
  pub hint : Text

pub record ActivationBody : Type 0 where
  pub channel_type : Text
  pub channel_id : Text
  pub nonce : Text
  pub cose_key : Text
  pub signature : Text

-- `oauthErrCode` of handlers_oauth.go
unfoldable pub oauth_err_code : Error → Text
oauth_err_code invalid_client = lit "invalid_client"
oauth_err_code not_eligible = lit "not_eligible"
oauth_err_code access_denied = lit "access_denied"
oauth_err_code e = lit "invalid_request"

-- An activation that is refused; the description is the text of the error.
unfoldable pub activation_failure : Error → Failure
unfolding oauth_err_code
activation_failure not_eligible = error_reply 403 (lit "not_eligible") []
activation_failure e = error_reply 400 (oauth_err_code e) []

-- What `telegram.DecodeUsername` finds for an instance that was read.
abbrev pub bot_of : Outside → Result ChannelConfig → Text
bot_of out (ok c) = decode_username out c.config
bot_of out (err e) = []

module _ (env : Env) (out : Outside) (deps : Deps) where
  unfoldable pub auth_challenge : Option ChallengeBody → Http (Text × ℕ)
  unfolding or_reply WalletAuth.challenge member_nonce_purpose ◌>>=◌
  auth_challenge decoded = do
    check deps.has_wallet not_implemented
    body ← some_or_reply decoded (bad_request (lit "malformed JSON body"))
    purpose ←
        some_or_reply (member_nonce_purpose body.purpose)
          (bad_request (lit "purpose must be issue or activation"))
    check (not (is_empty body.stake_address)) (bad_request (lit "stake_address required"))
    or_reply (λ e. bad_request [])
        (WalletAuth.challenge env out deps.nonce_ttl purpose body.stake_address)

  -- `jwks`: the keys of the document.
  unfoldable pub jwks : Http (List PublicKey)
  unfolding or_reply Keys.public_jwks_keys server_error ◌>>=◌
  jwks = do
    check deps.has_keys not_implemented
    or_reply server_error (Keys.public_jwks_keys env out)

  -- The `jti` of the body is not passed on.
  unfoldable pub introspect : TokenBody → Http IntrospectResponse
  unfolding or_reply Live.introspect server_error ◌>>=◌
  introspect body = do
    check deps.has_oauth not_implemented
    or_reply server_error (Live.introspect env out body.token [])

  unfoldable pub revoke : TokenBody → Http Answer
  unfolding or_reply Live.revoke server_error ◌>>=◌
  revoke body = do
    check deps.has_oauth not_implemented
    or_reply server_error (Live.revoke env out body.token body.hint)
    answer ((lit "revoked", flag true) ∷ [])

  abbrev pub public_view : ChannelConfig → List (Text × Text)
  public_view c =
      (lit "channel_id", c.channel_id)
      ∷ (lit "name", c.name)
      ∷ (lit "channel_type", c.channel_type)
      ∷ (lit "bot_username", decode_username out c.config)
      ∷ []

  -- `publicChannels`: an instance without a user name is left out.
  unfoldable pub public_channels : Http Answer
  unfolding or_reply Channels.list_active decode_username server_error ◌>>=◌
  public_channels = do
    insts ← or_reply server_error (Channels.list_active env deps.pool_id telegram)
    answer (
        (
          lit "channels",
          objects
              (map public_view (select (λ c. not (is_empty (decode_username out c.config))) insts)),
        )
        ∷ [])

  -- `activationCreate`: the code and the user name of the bot for the link.
  unfoldable pub activation_create : Option ActivationBody → Http Answer
  unfolding or_reply tried Channels.get Oauth.create_activation activation_failure decode_username
      ◌>>=◌
  activation_create decoded = do
    check deps.has_oauth not_implemented
    req ← some_or_reply decoded (bad_request (lit "malformed JSON body"))
    check (not (is_empty req.channel_id)) (bad_request (lit "channel_id is required"))
    inst ← tried (Channels.get env req.channel_id)
    check (usable telegram inst) (bad_request (lit "unknown or inactive channel instance"))
    check (not (is_empty (bot_of out inst)))
        (bad_request (lit "channel instance has no bot username configured"))
    code ← or_reply activation_failure (
        Oauth.create_activation env out req.channel_type req.channel_id req.nonce req.cose_key
          req.signature)
    answer (
        (lit "activation_code", text code.0)
        ∷ (lit "deep_link_bot", text (bot_of out inst))
        ∷ (lit "expires_at", number code.1)
        ∷ [])
