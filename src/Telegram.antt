-- ===== src/Telegram.antt =====
-- server/internal/worker/telegram: the commands of the bot (telegram.go), its polling, and the
-- supervisor of the bots (supervisor.go).
pub mod Settings
pub mod Command
pub mod Running
use ouro_pass.Base.{
  leb, ◌==◌, if◌then◌else◌, is_unset, Text, lit, is_empty, text_eq, ℕ, ◌+◌, Bool, ◌&&◌, ◌||◌,
  Option, none, some, List, [], ◌∷◌, ◌++◌,
}
use ouro_pass.Store.Domain.{sub_active, sub_cancelled, ActivationCode, SubscriptionSession, Db}
use ouro_pass.Store.Exec.{
  Error, consumed, expired, Result, ok, err, Env, Exec, pure, ◌>>=◌, ◌>>◌, attempt, now, fresh,
}
use ouro_pass.Outside.{Outside}
use ouro_pass.Membership.{is_outside}
use ouro_pass.Oauth.{Attested, attest}
use ouro_pass.Go.Strings.{trim_space, to_lower, before, after}
use ouro_pass.Go.Maps.{get}
use ouro_pass.Store.Sessions
use ouro_pass.Store.Activations

-- The text before the first space, lower case, and without what follows an `@`.
unfoldable pub command_of : Text → Text
unfolding to_lower before
command_of text = before 64 (to_lower (before 32 text))

abbrev pub argument_of : Option Text → Text
argument_of none = []
argument_of (some s) = trim_space s

-- `parseCommand`
unfoldable pub parse_command : Text → Text × Text
unfolding command_of trim_space before after
parse_command text =
    let trimmed = trim_space text in
    if is_empty trimmed then ([], []) else (command_of trimmed, argument_of (after 32 trimmed))

-- The replies; the source's sentences in full are its own.
pub data Reply : Type 0 where
  help code_missing code_used code_expired code_invalid : Reply
  try_later not_member save_failed not_subscribed cancel_failed unsubscribed : Reply
  subscribed : Text → Reply
  status_of : SubscriptionSession → Reply

pub record Processor : Type 0 where
  pub pool_id : Text
  pub channel_id : Text

abbrev pub telegram : Text
telegram = lit "telegram"

abbrev pub reply_to_error : Error → Reply
reply_to_error consumed = code_used
reply_to_error expired = code_expired
reply_to_error _ = code_invalid

-- The code's own instance, or the bot's.
abbrev pub channel_of : Processor → ActivationCode → Text
channel_of p rec = if is_empty rec.channel_id then p.channel_id else rec.channel_id

-- The session that an activation stores; `sessionTTL` is 30 days.
abbrev pub new_session : Processor → Text → ActivationCode → Text → Text → ℕ → SubscriptionSession
new_session p user rec id tier t = record {
  session_id = id;
  pool_id = p.pool_id;
  stake_credential_hash = rec.stake_credential_hash;
  channel_id = channel_of p rec;
  channel_type = telegram;
  channel_user_id = user;
  status = sub_active;
  tier = tier;
  topics = [];
  entitlements = [];
  created_at = t;
  last_verified_at = t;
  expires_at = t + 2592000000000000;
  grace_until = none;
  cancelled_at = none;
}

module _ (env : Env) (out : Outside) (p : Processor) where
  unfoldable pub lookup : Text → Exec Db SubscriptionSession
  unfolding Sessions.get_by_instance_user Sessions.get_by_channel_user
  lookup user =
      if is_empty p.channel_id
      then Sessions.get_by_channel_user env p.pool_id telegram user
      else Sessions.get_by_instance_user env p.channel_id user

  abbrev pub reply_or : Reply → Reply → Result (Unit {0}) → Reply
  reply_or good bad (ok _) = good
  reply_or good bad (err _) = bad

  -- After the code is consumed and the credential attested.
  unfoldable pub subscribe : Text → ActivationCode → Attested → Exec Db Reply
  unfolding now fresh attempt is_outside Sessions.upsert ◌>>=◌
  subscribe user rec a = if is_outside a.state then pure not_member else (do
    t ← now env
    id ← fresh env
    r ← attempt (Sessions.upsert env (new_session p user rec id a.tier t))
    pure (reply_or (subscribed a.tier) save_failed r))

  abbrev pub attested_reply : Text → ActivationCode → Result Attested → Exec Db Reply
  attested_reply user rec (err _) = pure try_later
  attested_reply user rec (ok a) = subscribe user rec a

  abbrev pub consumed_reply : Text → Result ActivationCode → Exec Db Reply
  consumed_reply user (err e) = pure (reply_to_error e)
  consumed_reply user (ok rec) =
      attempt (attest env out rec.stake_credential_hash) >>= attested_reply user rec

  unfoldable pub activate : Text → Text → Exec Db Reply
  unfolding now attempt attest subscribe Activations.consume ◌>>=◌
  activate user [] = pure code_missing
  activate user code = do
    t ← now env
    r ← attempt (Activations.consume env (out.hash_token code) telegram p.channel_id t)
    consumed_reply user r

  abbrev pub found_reply : Result SubscriptionSession → Reply
  found_reply (err _) = not_subscribed
  found_reply (ok x) = status_of x

  unfoldable pub status : Text → Exec Db Reply
  unfolding lookup attempt ◌>>=◌
  status user = do r ← attempt (lookup user); pure (found_reply r)

  abbrev pub cancel_reply : Result SubscriptionSession → Exec Db Reply
  cancel_reply (err _) = pure not_subscribed
  cancel_reply (ok x) = do
    r ← attempt (Sessions.set_status env x.session_id sub_cancelled)
    pure (reply_or unsubscribed cancel_failed r)

  unfoldable pub unsubscribe : Text → Exec Db Reply
  unfolding lookup attempt Sessions.set_status ◌>>=◌
  unsubscribe user = do r ← attempt (lookup user); cancel_reply r

  -- `Handle`
  unfoldable pub handle : Text → Text → Exec Db Reply
  unfolding parse_command activate status unsubscribe
  handle user text =
      let (cmd, arg) = parse_command text in
      if text_eq cmd (lit "/start") || text_eq cmd (lit "/activate")
      then activate user arg
      else if text_eq cmd (lit "/status")
      then status user
      else if text_eq cmd (lit "/unsubscribe")
      then unsubscribe user
      else pure help

-- The next offset after an update.
unfoldable pub next_offset : ℕ → ℕ → ℕ
next_offset offset id = if leb offset id then id + 1 else offset

-- A failed poll: `getUpdatesBackoff`, in nanoseconds; the error's status, if it is of the API.
unfoldable pub get_updates_backoff : Option ℕ → ℕ → ℕ
get_updates_backoff none interval = interval
get_updates_backoff (some status) interval = if status == 409 then 30000000000 else interval

-- The supervisor: a configuration's fingerprint by channel, wanted and running.
abbrev pub Fingerprints : Type 0
Fingerprints = List (Text × Text)

unfoldable pub keep_running : Fingerprints → Fingerprints → Fingerprints
keep_running want [] = []
keep_running want ((id, print) ∷ running) =
    let rest = keep_running want running in
    elim (get id want) [
      | none ↦ rest
      | some wanted ↦ if text_eq wanted print then (id, print) ∷ rest else rest
    ]

-- The factory may refuse an instance; it is tried again at the next round.
unfoldable pub start_missing : (Text → Bool) → Fingerprints → Fingerprints → Fingerprints
start_missing builds [] running = running
start_missing builds ((id, print) ∷ want) running =
    start_missing builds want
      (if is_unset (get id running) && builds id then running ++ ((id, print) ∷ []) else running)

-- `reconcile`; without an answer of the store the running set stays.
unfoldable pub supervise : (Text → Bool) → Option Fingerprints → Fingerprints → Fingerprints
unfolding keep_running start_missing
supervise builds none running = running
supervise builds (some want) running = start_missing builds want (keep_running want running)
