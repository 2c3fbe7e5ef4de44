-- ===== src/Http/OauthPlane.antt =====
-- server/internal/httpapi/handlers_oauth.go: the authorization page, the signed submission and the
-- token endpoint. The parsing of a body, of a form and of the redirect URI is net/http's and
-- net/url's: a body that does not decode is `none`.
use ouro_pass.Base.{
  if◌then◌else◌, select, Text, lit, is_empty, text_eq, ℕ, Bool, true, false, not, Option, List, [],
  ◌∷◌,
}
use ouro_pass.Store.Domain.{ChannelConfig}
use ouro_pass.Store.Exec.{
  Error, invalid_grant, unsupported_grant, invalid_client_creds, invalid_client, not_eligible,
  access_denied, Result, ok, err, Env,
}
use ouro_pass.Outside.{Outside}
use ouro_pass.Http.Flow.{
  Failure, Http, ◌>>=◌, ◌>>◌, error_reply, bad_request, not_implemented, answer, fail, or_reply,
  tried, some_or_reply, check,
}
use ouro_pass.Http.AdminLogin.{Deps}
use ouro_pass.Telegram.Settings.{decode_username}
use ouro_pass.Http.Public.{oauth_err_code, bot_of}
use ouro_pass.Oauth.{Config, AuthorizeRequest, validate_client}
use ouro_pass.Oauth.Request.{TokenRequest, TokenResponse}
use ouro_pass.Http.ClientAdmin.{usable}
use ouro_pass.Oauth
use ouro_pass.Oauth.Token
use ouro_pass.Store.Channels
use ouro_pass.Telegram.{telegram}

-- `oauthTokenErrCode`
unfoldable pub oauth_token_err_code : Error → Text
oauth_token_err_code invalid_grant = lit "invalid_grant"
oauth_token_err_code unsupported_grant = lit "unsupported_grant_type"
oauth_token_err_code invalid_client_creds = lit "invalid_client"
oauth_token_err_code invalid_client = lit "invalid_client"
oauth_token_err_code not_eligible = lit "not_eligible"
oauth_token_err_code e = lit "invalid_request"

-- `oauthErrDescription`
unfoldable pub oauth_err_description : Text → Text
oauth_err_description code =
    if text_eq code (lit "invalid_grant")
    then lit "the authorization code or refresh token is invalid, expired, or already used"
    else if text_eq code (lit "invalid_client")
    then lit "client authentication failed"
    else if text_eq code (lit "not_eligible")
    then lit "the stake credential is not eligible for membership"
    else if text_eq code (lit "unsupported_grant_type")
    then lit "unsupported grant_type"
    else if text_eq code (lit "access_denied")
    then lit "wallet authorization failed"
    else lit "invalid request"

-- `writeOAuthErr`
abbrev pub is_invalid_client : Error → Bool
is_invalid_client invalid_client = true
is_invalid_client e = false

unfoldable pub oauth_failure : Error → Failure
unfolding oauth_err_code oauth_err_description
oauth_failure e =
    error_reply (if is_invalid_client e then 401 else 400) (oauth_err_code e)
      (oauth_err_description (oauth_err_code e))

unfoldable pub token_status : Text → ℕ
token_status code =
    if text_eq code (lit "invalid_client")
    then 401
    else if text_eq code (lit "not_eligible")
    then 403
    else 400

unfoldable pub token_failure : Error → Failure
unfolding oauth_token_err_code oauth_err_description token_status
token_failure e =
    error_reply (token_status (oauth_token_err_code e)) (oauth_token_err_code e)
      (oauth_err_description (oauth_token_err_code e))

-- A redirect: the URI of the client and the parameters that are set in its query.
pub record Redirect : Type 0 where
  pub uri : Text
  pub params : List (Text × Text)

-- `authpage.ConnectData`
pub record ConnectQuery : Type 0 where
  pub response_type : Text
  pub client_id : Text
  pub redirect_uri : Text
  pub state : Text
  pub aud : Text
  pub scope : Text
  pub code_challenge : Text
  pub device_pubkey : Text

-- `authpage.BindData`
pub record BindPage : Type 0 where
  pub channel_type : Text
  pub channel_id : Text
  pub channel_name : Text
  pub bot_username : Text

pub record Submission : Type 0 where
  pub request : AuthorizeRequest
  pub state : Text

abbrev pub set_params : List (Text × Text) → List (Text × Text)
set_params = select (λ p. not (is_empty p.1))

-- An error that goes back to the client.
abbrev pub is_sent_back : Error → Bool
is_sent_back not_eligible = true
is_sent_back access_denied = true
is_sent_back e = false

abbrev pub name_of : Result ChannelConfig → Text
name_of (ok c) = c.name
name_of (err e) = []

module _ (env : Env) (out : Outside) (config : Config) (deps : Deps) (is_url : Text → Bool) where
  -- `connect`: the page is rendered with what the query says.
  unfoldable pub connect : ConnectQuery → Http ConnectQuery
  unfolding or_reply Oauth.validate_client oauth_failure ◌>>=◌
  connect q = do
    check deps.has_oauth not_implemented
    check (text_eq q.response_type (lit "code"))
        (error_reply 400 (lit "unsupported_response_type") (lit "response_type must be code"))
    or_reply oauth_failure (Oauth.validate_client env q.client_id q.redirect_uri q.aud)
    answer q

  abbrev pub bind_to : Text → Text → Http BindPage
  bind_to channel_type channel_id =
      if is_empty channel_id
      then answer (record {
        channel_type = channel_type;
        channel_id = [];
        channel_name = [];
        bot_username = [];
      })
      else (do
        inst ← tried (Channels.get env channel_id)
        check (usable telegram inst) (bad_request (lit "unknown or inactive channel instance"))
        answer (record {
          channel_type = channel_type;
          channel_id = channel_id;
          channel_name = name_of inst;
          bot_username = bot_of out inst;
        }))

  -- `bind`
  unfoldable pub bind : Text → Text → Http BindPage
  unfolding tried Channels.get decode_username ◌>>=◌
  bind channel_type channel_id = do
    check deps.has_oauth not_implemented
    bind_to (if is_empty channel_type then telegram else channel_type) channel_id

  unfoldable pub redirect_with_params : Text → List (Text × Text) → Http Redirect
  unfolding ◌>>=◌
  redirect_with_params uri params = do
    check (is_url uri) (bad_request (lit "bad redirect_uri"))
    answer (record { uri = uri; params = set_params params })

  -- Whether the code is granted or denied the browser goes back; other errors are answered here.
  abbrev pub send_back : Submission → Result Text → Http Redirect
  send_back sub (ok code) =
      redirect_with_params sub.request.redirect_uri
        ((lit "code", code) ∷ (lit "state", sub.state) ∷ [])
  send_back sub (err e) =
      if is_sent_back e
      then redirect_with_params sub.request.redirect_uri
          ((lit "error", oauth_err_code e) ∷ (lit "state", sub.state) ∷ [])
      else fail (oauth_failure e)

  -- `connectAuthorize`
  unfoldable pub connect_authorize : Option Submission → Http Redirect
  unfolding tried Oauth.authorize redirect_with_params oauth_err_code oauth_failure ◌>>=◌
  connect_authorize decoded = do
    check deps.has_oauth not_implemented
    sub ← some_or_reply decoded (bad_request (lit "malformed JSON body"))
    r ← tried (Oauth.authorize env out config sub.request)
    send_back sub r

  -- `oauthToken`
  unfoldable pub oauth_token : Option TokenRequest → Http TokenResponse
  unfolding or_reply Token.token token_failure ◌>>=◌
  oauth_token decoded = do
    check deps.has_oauth not_implemented
    req ← some_or_reply decoded (bad_request [])
    or_reply token_failure (Token.token env out config req)
