-- ===== src/Http/ChannelAdmin.antt =====
-- server/internal/httpapi/handlers_admin_resources.go: channel instances.
use ouro_pass.Base.{
  if◌then◌else◌, Text, lit, is_empty, text_eq, Bool, true, not, ◌||◌, Option, none, some, List, [],
  ◌∷◌, map,
}
use ouro_pass.Store.Domain.{AdminUser, ChannelConfig, is_channel_type}
use ouro_pass.Store.Exec.{Error, conflict, Env}
use ouro_pass.Outside.{InboundBot, Outside}
use ouro_pass.Http.Flow.{
  text, number, flag, fields, objects, Failure, Answer, Http, ◌>>=◌, ◌>>◌, error_reply, bad_request,
  server_error, not_implemented, answer, or_reply, some_or_reply, check, clock, random_id,
}
use ouro_pass.Http.AdminLogin.{Deps, Head, audit}
use ouro_pass.Telegram.Settings.{token_hint, decode_username, decode_token, encode_config}
use ouro_pass.Http.ClientAdmin.{or_missing}
use ouro_pass.Telegram.{telegram}
use ouro_pass.Store.Channels
use ouro_pass.Store.Sessions

pub record ChannelBody : Type 0 where
  pub channel_type : Text
  pub name : Text
  pub config : Text

pub record ChannelChange : Type 0 where
  pub name : Option Text
  pub status : Option Text
  pub config : Text

module _ (env : Env) (out : Outside) (deps : Deps) where
  -- `channelTokenHint`: empty where there is no cipher or no token to read.
  unfoldable pub channel_token_hint : ChannelConfig → Text
  unfolding decode_token token_hint
  channel_token_hint c =
      if not (text_eq c.channel_type telegram) || not deps.has_cipher
      then []
      else elim (decode_token out c.config) [ none ↦ [] | some token ↦ token_hint token ]

  -- `channelView`: never the token.
  unfoldable pub channel_view : ChannelConfig → List (Text × Text)
  unfolding decode_username channel_token_hint
  channel_view c =
      (lit "channel_id", c.channel_id)
      ∷ (lit "channel_type", c.channel_type)
      ∷ (lit "name", c.name)
      ∷ (lit "status", c.status)
      ∷ (if text_eq c.channel_type telegram
          then (lit "bot_username", decode_username out c.config)
            ∷ (lit "token_hint", channel_token_hint c)
            ∷ []
          else [])

  unfoldable pub admin_list_channels : Http Answer
  unfolding or_reply Channels.list channel_view server_error ◌>>=◌
  admin_list_channels = do
    insts ← or_reply server_error (Channels.list env deps.pool_id)
    answer ((lit "channels", objects (map channel_view insts)) ∷ [])

  abbrev pub inbound : Text → Http InboundBot
  inbound config =
      if is_empty config
      then answer (record { bot_token = []; bot_username = [] })
      else some_or_reply (out.unmarshal_inbound_bot config) (bad_request (lit "malformed config"))

  -- A user name or a token that is not supplied is that of the stored configuration.
  abbrev pub username_or_prior : Text → Option Text → Text
  username_or_prior [] (some prior) = decode_username out prior
  username_or_prior name _ = name

  abbrev pub token_or_prior : Text → Option Text → Option Text
  token_or_prior [] none = none
  token_or_prior [] (some prior) = decode_token out prior
  token_or_prior token _ = some token

  -- `encodeChannelConfig`
  unfoldable pub encode_channel_config : Text → Text → Option Text → Http Text
  unfolding or_reply encode_config decode_username decode_token server_error ◌>>=◌
  encode_channel_config channel_type config prior =
      if not (text_eq channel_type telegram) then answer config else (do
        check deps.has_cipher not_implemented
        cfg ← inbound config
        token ←
            some_or_reply (token_or_prior cfg.bot_token prior)
              (bad_request (lit "bot_token required"))
        check (not (is_empty token)) (bad_request (lit "bot_token required"))
        or_reply server_error (encode_config out token (username_or_prior cfg.bot_username prior)))

  unfoldable pub create_failure : Error → Failure
  unfolding server_error
  create_failure conflict =
      error_reply 409 (lit "conflict")
        (lit "an instance with that name already exists for this channel type")
  create_failure e = server_error e

  unfoldable pub admin_create_channel : AdminUser → Head → Option ChannelBody → Http Answer
  unfolding or_reply encode_channel_config clock random_id Channels.create audit is_channel_type
      create_failure ◌>>=◌
  admin_create_channel user head decoded = do
    body ← some_or_reply decoded (bad_request (lit "channel_type and name required"))
    check (not (is_empty body.name)) (bad_request (lit "channel_type and name required"))
    check (is_channel_type body.channel_type) (bad_request (lit "unsupported channel_type"))
    config ← encode_channel_config body.channel_type body.config none
    t ← clock env
    id ← random_id env
    or_reply create_failure (
        Channels.create env (record {
          channel_id = id;
          pool_id = deps.pool_id;
          channel_type = body.channel_type;
          name = body.name;
          config = config;
          status = lit "active";
          created_at = t;
          updated_at = t;
        }))
    audit env out deps user head (lit "channel.create") id
    answer ((lit "channel_id", text id) ∷ [])

  abbrev pub is_channel_status : Text → Bool
  is_channel_status s = text_eq s (lit "active") || text_eq s (lit "disabled")

  abbrev pub name_or : Option Text → Text → Text
  name_or (some (c ∷ s)) old = c ∷ s
  name_or _ old = old

  abbrev pub status_or : Option Text → Text → Text
  status_or none old = old
  status_or (some s) old = s

  abbrev pub config_or : ChannelConfig → Text → Http Text
  config_or inst config =
      if is_empty config
      then answer inst.config
      else encode_channel_config inst.channel_type config (some inst.config)

  unfoldable pub admin_update_channel : AdminUser → Head → Text → Option ChannelChange → Http Answer
  unfolding or_reply Channels.get encode_channel_config clock Channels.upsert audit or_missing
      channel_view server_error ◌>>=◌
  admin_update_channel user head id decoded = do
    inst ← or_reply (or_missing (lit "no such channel instance")) (Channels.get env id)
    body ← some_or_reply decoded (bad_request (lit "malformed JSON body"))
    check (is_channel_status (status_or body.status (lit "active")))
        (bad_request (lit "status must be active or disabled"))
    config ← config_or inst body.config
    t ← clock env
    let changed = record inst {
      name = name_or body.name inst.name;
      status = status_or body.status inst.status;
      config = config;
      updated_at = t;
    }
    or_reply server_error (Channels.upsert env changed)
    audit env out deps user head (lit "channel.update") id
    answer ((lit "channel", fields (channel_view changed)) ∷ [])

  -- `adminEnableChannel` and `adminDisableChannel`
  unfoldable pub set_channel_status : AdminUser → Head → Text → Text → Text → Http Answer
  unfolding or_reply Channels.get clock Channels.set_status audit or_missing server_error ◌>>=◌
  set_channel_status user head status action id = do
    or_reply (or_missing (lit "no such channel instance")) (Channels.get env id)
    t ← clock env
    or_reply server_error (Channels.set_status env id status t)
    audit env out deps user head action id
    answer ((lit "channel_id", text id) ∷ (lit "status", text status) ∷ [])

  -- `adminDeleteChannel`: the subscriptions are cancelled first.
  unfoldable pub admin_delete_channel : AdminUser → Head → Text → Http Answer
  unfolding or_reply Channels.get Sessions.cancel_by_channel_id Channels.delete audit or_missing
      server_error ◌>>=◌
  admin_delete_channel user head id = do
    or_reply (or_missing (lit "no such channel instance")) (Channels.get env id)
    cancelled ← or_reply server_error (Sessions.cancel_by_channel_id env id)
    or_reply server_error (Channels.delete env id)
    audit env out deps user head (lit "channel.delete") id
    answer ((lit "deleted", flag true) ∷ (lit "sessions_cancelled", number cancelled) ∷ [])
