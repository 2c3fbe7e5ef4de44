-- ===== src/Telegram/Command.antt =====
-- Activation by the bot of server/internal/worker/telegram/telegram.go.
use ouro_pass.Store.Activations
use ouro_pass.Store.Sessions
use ouro_pass.Base.{Text, ℕ, ◌≡◌, refl, sym, ap, ◌∙◌, Bool, true, false, List, [], ◌∷◌, arith}
use ouro_pass.Store.Domain.{ActivationCode, SubscriptionSession, Db}
use ouro_pass.Store.Exec.{
  Error, consumed, expired, Result, ok, err, Env, World, next, ◌>>=◌, attempt, now,
}
use ouro_pass.Store.Keeps.{Keeps, Keeps-pure, Keeps-attempt, Keeps-insert, Keeps-bind, keeps_rules}
use ouro_pass.Outside.{Outside}
use ouro_pass.Oauth.{Attested, attest}
use ouro_pass.Oauth.Frame.{Keeps-attest}
use ouro_pass.Telegram.{
  Reply, code_missing, code_used, code_expired, code_invalid, try_later, Processor, telegram,
  reply_to_error, subscribe, attested_reply, consumed_reply, activate,
}

-- The replies that a command gives before a code is consumed.
abbrev pub refuses_code : Reply → Bool
refuses_code code_missing = true
refuses_code code_used = true
refuses_code code_expired = true
refuses_code code_invalid = true
refuses_code _ = false

error_refuses : (e : Error) → refuses_code (reply_to_error e) ≡ true
error_refuses consumed = refl
error_refuses expired = refl
error_refuses _ = refl

module _ (env : Env) (out : Outside) (p : Processor) where
  -- The code's row was there for this bot, unused and not past its expiry at the given time, and in the
  -- tables after it is used up, with no other change in the codes.
  pub record Consumed (code : Text) (t : ℕ) (before after : Db) : Type 0 where
    pub rec : ActivationCode
    pub mid : Db
    pub activated :
        Activations.Activated (out.hash_token code) telegram p.channel_id t rec before mid
    pub kept : after.activation_codes ≡ mid.activation_codes

  abbrev SameCodes : List ActivationCode → Db → Type 0
  SameCodes xs db = db.activation_codes ≡ xs

  Keeps-upsert :
      (xs : List ActivationCode) (x : SubscriptionSession)
      → Keeps (SameCodes xs) (Sessions.upsert env x)
  unfolding Sessions.upsert
  Keeps-upsert xs x = Keeps-insert env _ _ (λ db _ h. h)

  Keeps-subscribe :
      (xs : List ActivationCode) (user : Text) (rec : ActivationCode) (a : Attested)
      → Keeps (SameCodes xs) (subscribe env out p user rec a)
  unfolding subscribe
  Keeps-subscribe xs user rec a = search (keeps_rules, Keeps-upsert) depth 14

  Keeps-attested_reply :
      (xs : List ActivationCode) (user : Text) (rec : ActivationCode) (r : Result Attested)
      → Keeps (SameCodes xs) (attested_reply env out p user rec r)
  Keeps-attested_reply xs user rec (err e) = Keeps-pure try_later
  Keeps-attested_reply xs user rec (ok a) = Keeps-subscribe xs user rec a

  Keeps-consumed_reply :
      (xs : List ActivationCode) (user : Text) (rec : ActivationCode)
      → Keeps (SameCodes xs) (consumed_reply env out p user (ok rec))
  Keeps-consumed_reply xs user rec =
      Keeps-bind (attempt (attest env out rec.stake_credential_hash))
        (attested_reply env out p user rec)
        (Keeps-attempt (attest env out rec.stake_credential_hash)
          (Keeps-attest env out {P = SameCodes xs} rec.stake_credential_hash))
        (Keeps-attested_reply xs user rec)

  Consumed-by :
      (code : Text) (t : ℕ) (user : Text) (r : Result ActivationCode) (w w1 : World Db)
      (reply : Reply) (w' : World Db)
      → Activations.consume env (out.hash_token code) telegram p.channel_id t w ≡ (r, w1)
      → consumed_reply env out p user r w1 ≡ (ok reply, w')
      → refuses_code reply ≡ false
      → Consumed code t w.db w'.db
  Consumed-by code t user (err e) w w1 reply w' h k good = absurd (ground (arith, error_refuses e))
  Consumed-by code t user (ok rec) w w1 reply w' h k good = record {
    rec = rec;
    mid = w1.db;
    activated =
        Activations.consume-Activated env (out.hash_token code) telegram p.channel_id t w rec w1 h;
    kept =
        ap (λ (x : Result Reply × World Db). x.1.db.activation_codes) (sym k)
        ∙ (Keeps-consumed_reply w1.db.activation_codes user rec).at w1 refl;
  }

  -- Whatever else goes wrong, after every reply but those that refuse the code the code is used up in
  -- the tables, also after the ones that say that the membership could not be checked or the session
  -- could not be saved; it was there for this bot, unused and not past its expiry when the call began.
  pub activate-Consumed :
      (user code : Text) (w w' : World Db) (reply : Reply)
      → activate env out p user code w ≡ (ok reply, w')
      → refuses_code reply ≡ false
      → Consumed code (env.time w.tick) w.db w'.db
  unfolding activate now attempt ◌>>=◌
  activate-Consumed user [] w w' reply h good = absurd (ground arith)
  activate-Consumed user (c ∷ code) w w' reply h good =
      let done =
        Activations.consume env (out.hash_token (c ∷ code)) telegram p.channel_id (env.time w.tick)
          (next w) in
      Consumed-by (c ∷ code) (env.time w.tick) user done.0 (next w) done.1 reply w' refl h good
