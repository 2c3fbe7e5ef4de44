-- ===== src/Http/Members.antt =====
-- server/internal/httpapi/handlers_admin_resources.go: members, subscriptions, the pool and its tier
-- rules.
use ouro_pass.Base.{
  if◌then◌else◌, is_unset, any, Text, lit, is_empty, text_eq, ℕ, true, not, Option, none, some,
  List, [], ◌∷◌, map,
}
use ouro_pass.Base.Int.{pos}
use ouro_pass.Go.Decimal.{parse_int}
use ouro_pass.Store.Domain.{sub_cancelled, SubscriptionSession, AdminUser, AttestorConfig}
use ouro_pass.Store.Exec.{chain_error, Result, ok, err, Env}
use ouro_pass.Outside.{PoolParams, Outside, ask}
use ouro_pass.Attestor.{kind_pool_stake}
use ouro_pass.Http.Flow.{
  text, number, flag, objects, session_rows, Answer, Http, ◌>>=◌, ◌>>◌, error_reply, bad_request,
  server_error, not_implemented, answer, or_reply, tried, some_or_reply, check, clock,
}
use ouro_pass.Http.AdminLogin.{Deps, Head, StepUp, require_step_up, audit}
use ouro_pass.Tier.Validity.{validate_rules}
use ouro_pass.Store.Sessions
use ouro_pass.Store.Tokens
use ouro_pass.Store.Grants
use ouro_pass.Store.Attestors

-- `adminMembers`: one entry for each credential, of its first session.
unfoldable pub first_sessions : List Text → List SubscriptionSession → List SubscriptionSession
first_sessions seen [] = []
first_sessions seen (s ∷ rows) =
    let rest =
      first_sessions
        (if any (λ x. text_eq x s.stake_credential_hash) seen
          then seen
          else s.stake_credential_hash ∷ seen)
        rows in
    if any (λ x. text_eq x s.stake_credential_hash) seen then rest else s ∷ rest

abbrev pub member_of : SubscriptionSession → List (Text × Text)
member_of s =
    (lit "stake_credential_hash", s.stake_credential_hash)
    ∷ (lit "tier", s.tier)
    ∷ (lit "channel_type", s.channel_type)
    ∷ []

-- The loop of `primaryPool`.
abbrev pub network_or_default : Text → Text
network_or_default n = if is_empty n then lit "mainnet" else n

module _ (out : Outside) where
  abbrev pub pool_of : Option PoolParams → Option (Text × Text)
  pool_of none = none
  pool_of (some p) =
      if is_empty p.pool_id then none else some (p.pool_id, network_or_default p.network)

  abbrev pub or_next : Option (Text × Text) → Text × Text → Text × Text
  or_next none rest = rest
  or_next (some p) rest = p

  unfoldable pub first_pool : List AttestorConfig → Text × Text
  first_pool [] = ([], [])
  first_pool (c ∷ rows) =
      let rest = first_pool rows in
      if text_eq c.kind kind_pool_stake
      then or_next (pool_of (out.unmarshal_pool c.params)) rest
      else rest

-- `strconv.Atoi` of the page, which counts only if it is positive.
unfoldable pub page_of : Text → ℕ
unfolding parse_int
page_of p = elim (parse_int p) [ some (pos n) ↦ n | _ ↦ 0 ]

module _ (env : Env) (out : Outside) (deps : Deps) where
  unfoldable pub admin_members : Http Answer
  unfolding or_reply Sessions.list_active first_sessions server_error ◌>>=◌
  admin_members = do
    sessions ← or_reply server_error (Sessions.list_active env deps.pool_id)
    answer ((lit "members", objects (map member_of (first_sessions [] sessions))) ∷ [])

  abbrev pub pool_or_none : Result (List AttestorConfig) → Text × Text
  pool_or_none (ok rows) = first_pool out rows
  pool_or_none (err e) = ([], [])

  unfoldable pub primary_pool : Http (Text × Text)
  unfolding tried Attestors.list_active first_pool ◌>>=◌
  primary_pool = do rows ← tried (Attestors.list_active env); answer (pool_or_none rows)

  unfoldable pub admin_get_pool : Http Answer
  unfolding or_reply Tokens.get_tier_rules primary_pool server_error ◌>>=◌
  admin_get_pool = do
    rules ← or_reply server_error (Tokens.get_tier_rules env)
    pool ← primary_pool
    answer (
        (lit "pool_id", text deps.pool_id)
        ∷ (lit "network", text pool.1)
        ∷ (lit "tier_rules", text rules)
        ∷ [])

  -- `adminSetTierRules`; the body's rules are raw JSON.
  unfoldable pub admin_set_tier_rules : AdminUser → Head → Option Text → Http Answer
  unfolding or_reply Tokens.set_tier_rules audit server_error validate_rules ◌>>=◌
  admin_set_tier_rules user head body = do
    rules ← some_or_reply body (bad_request (lit "body must be {\"tier_rules\": [...]}"))
    check (not (is_empty rules)) (bad_request (lit "body must be {\"tier_rules\": [...]}"))
    check (is_unset (validate_rules out.unmarshal_rules rules)) (bad_request (lit "invalid rules"))
    or_reply server_error (Tokens.set_tier_rules env rules)
    audit env out deps user head (lit "pool.tier_rules_set") deps.pool_id
    answer ((lit "pool_id", text deps.pool_id) ∷ (lit "tier_rules", text rules) ∷ [])

  -- `adminDelegators`. What can list delegators on a network is given: `none` where the source of
  -- the network cannot.
  unfoldable pub admin_delegators :
      (Text → Option (ℕ → Text → ℕ → Option (List Text))) → Text → Http Answer
  unfolding or_reply primary_pool ask page_of server_error ◌>>=◌
  admin_delegators listers page = do
    pool ← primary_pool
    check (not (is_empty pool.0))
        (error_reply 404 (lit "no_pool") (lit "no active pool_stake attestor configured"))
    lister ← some_or_reply (listers pool.1) not_implemented
    hashes ← or_reply server_error (ask (λ n. lister n pool.0 (page_of page)) chain_error)
    answer (
        (lit "delegators", objects (map (λ h. (lit "hash", h) ∷ []) hashes))
        ∷ (lit "page", number (page_of page))
        ∷ [])

  -- `adminRevokeMember`: the black list first, then tokens, grants and subscriptions.
  unfoldable pub admin_revoke_member : AdminUser → Head → Text → StepUp → Http Answer
  unfolding or_reply require_step_up clock Tokens.add_to_blacklist Tokens.revoke_by_stake_credential
      Grants.revoke_by_stake_credential Sessions.cancel_by_stake_credential audit server_error ◌>>=◌
  admin_revoke_member user head sch su = do
    require_step_up env out deps user su
    t ← clock env
    or_reply server_error (Tokens.add_to_blacklist env sch)
    tokens ← or_reply server_error (Tokens.revoke_by_stake_credential env sch t)
    grants ← or_reply server_error (Grants.revoke_by_stake_credential env sch)
    subs ← or_reply server_error (Sessions.cancel_by_stake_credential env sch)
    audit env out deps user head (lit "member.revoke") sch
    answer (
        (lit "revoked", flag true)
        ∷ (lit "tokens_revoked", number tokens)
        ∷ (lit "grants_revoked", number grants)
        ∷ (lit "sessions_cancelled", number subs)
        ∷ [])

  unfoldable pub admin_subscriptions : Http Answer
  unfolding or_reply Sessions.list_active server_error ◌>>=◌
  admin_subscriptions = do
    subs ← or_reply server_error (Sessions.list_active env deps.pool_id)
    answer ((lit "subscriptions", session_rows subs) ∷ [])

  unfoldable pub admin_cancel_sub : AdminUser → Head → Text → Http Answer
  unfolding or_reply Sessions.set_status audit server_error ◌>>=◌
  admin_cancel_sub user head id = do
    or_reply server_error (Sessions.set_status env id sub_cancelled)
    audit env out deps user head (lit "subscription.cancel") id
    answer ((lit "cancelled", flag true) ∷ [])
