-- ===== src/Http/Cascade.antt =====
-- The end of a channel instance: server/internal/httpapi/handlers_admin_resources.go.
use ouro_pass.Base.{
  Bool-cases, and-false, select, Text, lit, text_eq, ◌≡◌, refl, inl, inr, Bool, true, not, ◌&&◌,
  none, List, [], ◌∷◌,
}
use ouro_pass.Store.Domain.{sub_cancelled, SubscriptionSession, AdminUser, ChannelConfig, Db}
use ouro_pass.Store.Table.{find, update, count, count-update}
use ouro_pass.Store.Exec.{not_found, Env, World}
use ouro_pass.Outside.{Outside}
use ouro_pass.Http.Flow.{number, flag, Answer, go, server_error, or_reply}
use ouro_pass.Http.AdminLogin.{Deps, Head}
use ouro_pass.Http.ClientAdmin.{or_missing}
use ouro_pass.Http.ChannelAdmin.{admin_delete_channel}
use ouro_pass.Http.Triples.{
  Triple, Triple-bind, Triple-answer, Triple-exec, Triple-find, Triple-audit,
}
use ouro_pass.Store.Sessions
use ouro_pass.Store.Channels

find-select :
    (id : Text) (rows : List ChannelConfig)
    → find Channels.channel_of id (select (λ c. not (text_eq c.channel_id id)) rows) ≡ none
unfolding find
find-select id [] = refl
find-select id (c ∷ rows) = elim (Bool-cases (text_eq c.channel_id id)) [
  | inl hit ↦ rw hit (find-select id rows)
  | inr miss ↦ rw (miss, miss) (find-select id rows)
]

abbrev pub session_of_channel : Text → SubscriptionSession → Bool
session_of_channel id x = text_eq x.channel_id id && Sessions.is_sub_active x

module _ (env : Env) (out : Outside) (deps : Deps) where
  module _ (id : Text) where
    abbrev NoSessions : Db → Type 0
    NoSessions db = count (session_of_channel id) db.sessions ≡ 0

    -- The instance is gone, and no subscription of it is active.
    abbrev pub Closed : Db → Type 0
    Closed db = (find Channels.channel_of id db.channels ≡ none) × NoSessions db

    Triple-cancel :
        Triple
          (λ db. Unit {0})
          (or_reply server_error (Sessions.cancel_by_channel_id env id))
          (λ _ db. NoSessions db)
    unfolding Sessions.cancel_by_channel_id
    Triple-cancel =
        Triple-exec env server_error
          (λ db. record db {
            sessions =
                update (session_of_channel id) (λ x. record x { status = sub_cancelled })
                  db.sessions;
          })
          (λ db. count (session_of_channel id) db.sessions)
          (λ db p.
            count-update (session_of_channel id) (λ x. record x { status = sub_cancelled })
              db.sessions (λ r. and-false (text_eq r.channel_id id)))

    Triple-delete :
        Triple NoSessions (or_reply server_error (Channels.delete env id)) (λ _ db. Closed db)
    unfolding Channels.delete
    Triple-delete =
        Triple-exec env server_error
          (λ db. record db { channels = select (λ c. not (text_eq c.channel_id id)) db.channels })
          (λ db. tt) (λ db p. (find-select id db.channels, p))

    Triple-close :
        (user : AdminUser) (head : Head)
        → Triple
            (λ db. Unit {0})
            (admin_delete_channel env out deps user head id)
            (λ _ db. Closed db)
    unfolding admin_delete_channel Channels.get
    Triple-close user head =
        Triple-bind _ _
          (Triple-find {Q = λ _ db. Unit {0}} env (or_missing (lit "no such channel instance"))
            not_found (λ db. find Channels.channel_of id db.channels) (λ db a e p. tt))
          λ _. Triple-bind _ _ Triple-cancel λ cancelled. Triple-bind _ _ Triple-delete λ _.
            Triple-bind _ _
              (Triple-audit env out deps Closed user head (lit "channel.delete") id (λ db xs p. p))
              λ _.
                Triple-answer
                  ((lit "deleted", flag true) ∷ (lit "sessions_cancelled", number cancelled) ∷ [])
                  (λ db p. p)

    -- When a channel instance is deleted with success, it is gone, and none of its subscriptions is
    -- active.
    pub admin_delete_channel-Closed :
        (user : AdminUser) (head : Head) (body : Answer) (w w' : World Db)
        → admin_delete_channel env out deps user head id w ≡ (go body, w')
        → Closed w'.db
    admin_delete_channel-Closed user head body w w' h = (Triple-close user head).post w tt body w' h
