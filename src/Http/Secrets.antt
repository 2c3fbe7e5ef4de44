-- ===== src/Http/Secrets.antt =====
-- A new client secret: server/internal/httpapi/handlers_admin_resources.go.
use ouro_pass.Base.{Text, lit, ◌≡◌, refl, sym, ap, ◌∙◌, ◌≢◌, true, some, List, [], ◌∷◌}
use ouro_pass.Store.Domain.{OAuthClient, AdminUser, Db}
use ouro_pass.Store.Table.{find, find-key}
use ouro_pass.Store.Exec.{not_found, Env, World}
use ouro_pass.Store.Clients.{upsert_rows, find-upsert_rows, find-upsert_rows_ne}
use ouro_pass.Outside.{Outside}
use ouro_pass.Http.Flow.{text, Answer, go, error_reply, server_error}
use ouro_pass.Http.AdminLogin.{Deps, Head, StepUp}
use ouro_pass.Http.ClientAdmin.{or_missing, is_confidential, admin_regenerate_client_secret}
use ouro_pass.Http.Triples.{
  Triple, Triple-bind, Triple-answer, Triple-exec, Triple-find, Triple-check, Triple-audit,
  Triple-step_up, Triple-random_id,
}
use ouro_pass.Store.Tokens
use ouro_pass.Store.Clients
use mathlib.Core.Path.{subst}

module _ (env : Env) (out : Outside) (deps : Deps) (id : Text) (clients : List OAuthClient) where
  abbrev Unchanged : Db → Type 0
  Unchanged db = db.clients ≡ clients

  abbrev Known : OAuthClient → Db → Type 0
  Known c db = Unchanged db × (find Tokens.client_id_of id clients ≡ some c)

  abbrev Secret : OAuthClient → Db → Type 0
  Secret c db = Known c db × (is_confidential env out deps c ≡ true)

  -- The client has the secret, as its hash, with all else as before, and no other client has changed.
  pub record Regenerated (plain : Text) (db : Db) : Type 0 where
    pub old : OAuthClient
    pub known : find Tokens.client_id_of id clients ≡ some old
    pub confidential_client : is_confidential env out deps old ≡ true
    pub stored :
        find Tokens.client_id_of id db.clients
        ≡ some (record old { client_secret_hash = some (out.hash_token plain) })
    pub others :
        (k : Text)
        → id ≢ k
        → find Tokens.client_id_of k db.clients ≡ find Tokens.client_id_of k clients

  abbrev new_secret_body : Text → Answer
  new_secret_body plain = (lit "client_id", text id) ∷ (lit "client_secret", text plain) ∷ []

  regenerated :
      (c : OAuthClient) (plain : Text) (db : Db)
      → Secret c db
      → Regenerated plain (record db {
        clients =
            Clients.upsert_rows
              (record c { client_secret_hash = some (out.hash_token plain) })
              db.clients;
      })
  regenerated c plain db s =
      let own : c.client_id ≡ id = find-key Tokens.client_id_of id clients c s.0.1 in
      let new : OAuthClient = record c { client_secret_hash = some (out.hash_token plain) } in
      let here : find Tokens.client_id_of c.client_id db.clients ≡ some c =
        subst (λ (k : Text). find Tokens.client_id_of k db.clients ≡ some c) (sym own)
          (ap (find Tokens.client_id_of id) s.0.0 ∙ s.0.1) in
      let there = find-upsert_rows new c db.clients here in
      record {
        old = c;
        known = s.0.1;
        confidential_client = s.1;
        stored =
            subst
              (λ (k : Text).
                find Tokens.client_id_of k (Clients.upsert_rows new db.clients) ≡ some new)
              own there;
        others = λ k ne.
            find-upsert_rows_ne new k db.clients (λ e. ne (sym own ∙ e))
            ∙ ap (find Tokens.client_id_of k) s.0.0;
      }

  Triple-regenerate :
      (user : AdminUser) (head : Head) (su : StepUp)
      → Triple Unchanged
          (admin_regenerate_client_secret env out deps user head id su)
          (λ body db. (plain : Text) × (body ≡ new_secret_body plain) × Regenerated plain db)
  unfolding admin_regenerate_client_secret Tokens.get_client Clients.upsert
  Triple-regenerate user head su =
      Triple-bind _ _ (Triple-step_up env out deps Unchanged user su (λ db xs p. p)) λ _.
        Triple-bind {R = Known} _ _
          (Triple-find env (or_missing (lit "no such client")) not_found
            (λ db. find Tokens.client_id_of id db.clients) (λ db a e p. (p, rw p at e)))
          λ c.
            Triple-bind {R = λ _ db. Secret c db} _ _
              (Triple-check (is_confidential env out deps c)
                (error_reply 409 (lit "invalid_state") (lit "public clients have no secret"))
                (λ db e p. (p, e)))
              λ _. Triple-bind _ _ (Triple-random_id env out deps (Secret c)) λ plain.
                Triple-bind {R = λ _ db. Regenerated plain db} _ _
                  (Triple-exec env server_error
                    (λ db. record db {
                      clients =
                          Clients.upsert_rows
                            (record c { client_secret_hash = some (out.hash_token plain) })
                            db.clients;
                    })
                    (λ db. tt) (λ db s. regenerated c plain db s))
                  λ _.
                    Triple-bind _ _
                      (Triple-audit env out deps (Regenerated plain) user head
                        (lit "oauth_client.secret_regenerate") id
                        (λ db xs r. record {
                          old = r.old;
                          known = r.known;
                          confidential_client = r.confidential_client;
                          stored = r.stored;
                          others = r.others;
                        }))
                      λ _. Triple-answer (new_secret_body plain) (λ db r. (plain, refl, r))

  -- When a client's secret is regenerated with success, the client was there and is confidential, the
  -- answer carries the new secret and the table its hash in place of the old one, all else
  -- of the client is as before, and every other client is as before.
  pub regenerate-Regenerated :
      (user : AdminUser) (head : Head) (su : StepUp) (body : Answer) (w w' : World Db)
      → w.db.clients ≡ clients
      → admin_regenerate_client_secret env out deps user head id su w ≡ (go body, w')
      → (plain : Text) × (body ≡ new_secret_body plain) × Regenerated plain w'.db
  regenerate-Regenerated user head su body w w' same h =
      (Triple-regenerate user head su).post w same body w' h
