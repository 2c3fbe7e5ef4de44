-- ===== src/Store/Sessions.antt =====
-- server/internal/store/repo_subscriptionsession.go: channel subscriptions.
use ouro_pass.Base.{
  if◌then◌else◌, is_unset, select, Text, text_eq, ℕ, Bool, true, false, not, ◌&&◌, ◌||◌, Option,
  none, some, List, [], ◌∷◌, ◌++◌,
}
use ouro_pass.Store.Table.{find, update, count}
use ouro_pass.Store.Domain.{SubStatus, sub_active, sub_cancelled, SubscriptionSession, Db}
use ouro_pass.Store.Exec.{not_found, Env, Exec, ◌>>=◌, some_or, query, exec, insert}

abbrev pub session_of : SubscriptionSession → Text
session_of x = x.session_id

-- The unique key `(channel_id, channel_user_id)`.
abbrev pub same_user : Text → Text → SubscriptionSession → Bool
same_user channel_id channel_user_id x =
    text_eq x.channel_id channel_id && text_eq x.channel_user_id channel_user_id

abbrev pub is_sub_active : SubscriptionSession → Bool
is_sub_active x = elim x.status [ sub_active ↦ true | _ ↦ false ]

-- What `DO UPDATE SET` takes over; the row keeps its id, its pool, its key and its creation time.
abbrev pub take_over : SubscriptionSession → SubscriptionSession → SubscriptionSession
take_over x row = record row {
  stake_credential_hash = x.stake_credential_hash;
  status = x.status;
  tier = x.tier;
  topics = x.topics;
  entitlements = x.entitlements;
  last_verified_at = x.last_verified_at;
  expires_at = x.expires_at;
  grace_until = x.grace_until;
  cancelled_at = x.cancelled_at;
}

unfoldable pub find_user : Text → Text → List SubscriptionSession → Option SubscriptionSession
find_user channel_id user [] = none
find_user channel_id user (x ∷ rows) =
    let rest = find_user channel_id user rows in
    if same_user channel_id user x then some x else rest

unfoldable pub find_first :
    (SubscriptionSession → Bool) → List SubscriptionSession → Option SubscriptionSession
find_first p [] = none
find_first p (x ∷ rows) = let rest = find_first p rows in if p x then some x else rest

unfoldable pub upsert_rows :
    SubscriptionSession → List SubscriptionSession → List SubscriptionSession
unfolding find_user
upsert_rows x rows = elim (find_user x.channel_id x.channel_user_id rows) [
  | none ↦ rows ++ (x ∷ [])
  | some _ ↦ update (same_user x.channel_id x.channel_user_id) (take_over x) rows
]

-- A new row must have a new `session_id`; a conflict on the unique key is an update.
abbrev pub upsert_allowed : SubscriptionSession → List SubscriptionSession → Bool
upsert_allowed x rows =
    not (is_unset (find_user x.channel_id x.channel_user_id rows))
    || is_unset (find session_of x.session_id rows)

module _ (env : Env) where
  unfoldable pub upsert : SubscriptionSession → Exec Db (Unit {0})
  unfolding insert upsert_rows
  upsert x =
      insert env (λ db. upsert_allowed x db.sessions)
        (λ db. record db { sessions = upsert_rows x db.sessions })

  unfoldable pub get_by_instance_user : Text → Text → Exec Db SubscriptionSession
  unfolding query find_user ◌>>=◌
  get_by_instance_user channel_id user = do
    found ← query env (λ db. find_user channel_id user db.sessions)
    some_or found not_found

  unfoldable pub get_by_channel_user : Text → Text → Text → Exec Db SubscriptionSession
  unfolding query find_first ◌>>=◌
  get_by_channel_user pool_id channel_type user = do
    found ← query env (λ db.
        find_first
          (λ x.
            text_eq x.pool_id pool_id
            && text_eq x.channel_type channel_type
            && text_eq x.channel_user_id user)
          db.sessions)
    some_or found not_found

  unfoldable pub list_active_by_instance : Text → Exec Db (List SubscriptionSession)
  unfolding query
  list_active_by_instance channel_id =
      query env (λ db. select (λ x. text_eq x.channel_id channel_id && is_sub_active x) db.sessions)

  unfoldable pub list_active_by_channel : Text → Text → Exec Db (List SubscriptionSession)
  unfolding query
  list_active_by_channel pool_id channel_type = query env (λ db.
      select
        (λ x. text_eq x.pool_id pool_id && text_eq x.channel_type channel_type && is_sub_active x)
        db.sessions)

  unfoldable pub list_active : Text → Exec Db (List SubscriptionSession)
  unfolding query
  list_active pool_id =
      query env (λ db. select (λ x. text_eq x.pool_id pool_id && is_sub_active x) db.sessions)

  unfoldable pub set_status : Text → SubStatus → Exec Db (Unit {0})
  unfolding exec
  set_status id s =
      exec env
        (λ db. record db {
          sessions =
              update (λ x. text_eq x.session_id id) (λ x. record x { status = s }) db.sessions;
        })
        (λ db. tt)

  abbrev cancel_where : (SubscriptionSession → Bool) → Exec Db ℕ
  cancel_where hit =
      exec env
        (λ db. record db {
          sessions = update hit (λ x. record x { status = sub_cancelled }) db.sessions;
        })
        (λ db. count hit db.sessions)

  unfoldable pub cancel_by_channel_id : Text → Exec Db ℕ
  unfolding exec
  cancel_by_channel_id channel_id =
      cancel_where (λ x. text_eq x.channel_id channel_id && is_sub_active x)

  unfoldable pub cancel_by_stake_credential : Text → Exec Db ℕ
  unfolding exec
  cancel_by_stake_credential sch =
      cancel_where (λ x. text_eq x.stake_credential_hash sch && is_sub_active x)
