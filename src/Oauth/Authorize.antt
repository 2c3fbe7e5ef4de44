-- ===== src/Oauth/Authorize.antt =====
-- `Authorize` of server/internal/core/oauth/oauth.go: what it secures when it returns a code.
use mathlib.Core.Path.{subst}
use ouro_pass.WalletAuth
use ouro_pass.Store.Codes
use ouro_pass.Store.Tokens
use ouro_pass.Base.{
  is_unset, any, Text, lit, is_empty, text_eq, text_eq_sound, ℕ, ◌+◌, ◌≡◌, refl, ap, ◌∙◌, true,
  false, not, ◌||◌, some, [], ◌∷◌, ◌++◌, arith,
}
use ouro_pass.Store.Table.{find}
use ouro_pass.Store.Domain.{nonce_issue, OAuthClient, Db}
use ouro_pass.Store.Exec.{
  not_found, invalid_request, not_eligible, access_denied, Result, ok, err, Env, World, lift, ◌>>=◌,
  ◌>>◌, or_error, attempt, require, bind-ok, now, fresh, query, insert,
}
use ouro_pass.Store.Inversion.{or_error-ok, require-ok}
use ouro_pass.Outside.{Outside}
use ouro_pass.Membership.{State, is_outside}
use ouro_pass.Oauth.{
  Config, AuthorizeRequest, representative_state, check_client, known_client, validate_client,
  evaluate, new_code, store_code, issue_code, authorize,
}
use ouro_pass.Oauth.Gate.{Eligible, not-true, Answered-Eligible, evaluate-Answered}
use ouro_pass.WalletAuth.Binding.{Verified, verify-Verified}

module _ (env : Env) (out : Outside) where
  -- The stored code: hashed, bound to the request and to the credential, and unused.
  pub record CodeStored (config : Config) (req : AuthorizeRequest) (sch plain : Text)
      (before after : Db) : Type 0 where
    pub unused_id : is_unset (find Codes.code_of (out.hash_token plain) before.auth_codes) ≡ true
    pub stored :
        (t : ℕ) × (after ≡ record before {
          auth_codes = before.auth_codes ++ (new_code env out config req sch plain t ∷ []);
        })

  store_code-CodeStored :
      (config : Config) (req : AuthorizeRequest) (sch plain : Text) (w w' : World Db)
      → store_code env out config req sch w ≡ (ok plain, w')
      → CodeStored config req sch plain w.db w'.db
  unfolding store_code fresh now Codes.create insert ◌>>=◌
  store_code-CodeStored config req sch plain w w' h = record {
    unused_id = ground arith;
    stored = (env.time (w.tick + 1), ground arith);
  }

  -- What `Authorize` secures when it returns a code.
  pub record Authorized (config : Config) (req : AuthorizeRequest) (plain : Text)
      (before after : Db) : Type 0 where
    pub client :
        (c : OAuthClient) × (find Tokens.client_id_of req.client_id before.clients ≡ some c)
        × (c.status ≡ lit "active")
        × (any (text_eq req.redirect_uri) c.redirect_uris ≡ true)
        × ((is_empty req.aud || any (text_eq req.aud) c.allowed_audiences) ≡ true)
    pub challenged : is_empty req.code_challenge ≡ false
    pub issued :
        (sch : Text) × (n : ℕ) × (mid : Db) × (state : State) × Verified env out nonce_issue
          req.nonce req.signature sch
          (env.time n)
          before
          mid
        × Eligible out sch state mid
        × CodeStored config req sch plain mid after

  known_client-ok :
      (r : Result OAuthClient) (c : OAuthClient) → known_client env r ≡ ok c → r ≡ ok c
  known_client-ok (ok a) c h = h
  known_client-ok (err not_found) c h = absurd (cc)
  known_client-ok (err _) c h = h

  check_client-ok :
      (redirect_uri aud : Text) (a c : OAuthClient) (w w' : World Db)
      → check_client env redirect_uri aud a w ≡ (ok c, w')
      → (a ≡ c)
        × (w'.db ≡ w.db)
        × (text_eq c.status (lit "active") ≡ true)
        × (any (text_eq redirect_uri) c.redirect_uris ≡ true)
        × ((is_empty aud || any (text_eq aud) c.allowed_audiences) ≡ true)
  unfolding check_client ◌>>=◌
  check_client-ok redirect_uri aud a c w w' h = ground arith

  client_row :
      (client_id : Text) (r : Result OAuthClient) (c : OAuthClient) (w w1 : World Db)
      → Tokens.get_client env client_id w ≡ (r, w1)
      → r ≡ ok c
      → (find Tokens.client_id_of client_id w.db.clients ≡ some c) × (w1.db ≡ w.db)
  unfolding Tokens.get_client query ◌>>=◌
  client_row client_id r c w w1 h e = ground arith

  lift-ok :
      (r : Result OAuthClient) (c : OAuthClient) (w w' : World Db)
      → ◌≡◌ {A = Result OAuthClient × World Db} (lift r w) (ok c, w')
      → (r ≡ ok c) × (w'.db ≡ w.db)
  lift-ok r c w w' h = ground arith

  validate_client-ok :
      (client_id redirect_uri aud : Text) (c : OAuthClient) (w w' : World Db)
      → validate_client env client_id redirect_uri aud w ≡ (ok c, w')
      → (w'.db ≡ w.db)
        × (find Tokens.client_id_of client_id w.db.clients ≡ some c)
        × (text_eq c.status (lit "active") ≡ true)
        × (any (text_eq redirect_uri) c.redirect_uris ≡ true)
        × ((is_empty aud || any (text_eq aud) c.allowed_audiences) ≡ true)
  unfolding validate_client attempt
  validate_client-ok client_id redirect_uri aud c w w' h =
      let got = Tokens.get_client env client_id w in
      let (a, w1, known, rest) =
        bind-ok (lift (known_client env got.0)) (check_client env redirect_uri aud) got.1 c w'
          (unfold ◌>>=◌ in h) in
      let (r, same) = lift-ok (known_client env got.0) a got.1 w1 known in
      let (row, same') = client_row client_id got.0 a w got.1 refl (known_client-ok got.0 a r) in
      let (ac, same'', live, uri, aud_ok) = check_client-ok redirect_uri aud a c w1 w' rest in
      (same'' ∙ same ∙ same', row ∙ ap some ac, live, uri, aud_ok)

  issue_code-ok :
      (config : Config) (req : AuthorizeRequest) (sch plain : Text) (w w' : World Db)
      → issue_code env out config req sch w ≡ (ok plain, w')
      → ((state : State) × Eligible out sch state w.db) × CodeStored config req sch plain w.db w'.db
  unfolding issue_code
  issue_code-ok config req sch plain w w' h =
      let (res, w1, evaluated, rest) =
        bind-ok (evaluate env out sch)
          (λ res. do
            require (not (is_outside (representative_state res))) not_eligible
            store_code env out config req sch)
          w plain w' h in
      let (same, seen) = evaluate-Answered env out sch res w w1 evaluated in
      let (_, w2, required, last) =
        bind-ok (require (not (is_outside (representative_state res))) not_eligible)
          (λ _. store_code env out config req sch) w1 plain w' rest in
      let (gate, same') =
        require-ok (not (is_outside (representative_state res))) not_eligible w1 w2 required in
      (
        (
          representative_state res,
          Answered-Eligible out sch res (w.tick + 1) w.db seen
              (not-true (is_outside (representative_state res)) gate),
        ),
        subst (λ d. CodeStored config req sch plain d w'.db) (same' ∙ same)
            (store_code-CodeStored config req sch plain w2 w' last),
      )

  -- When `Authorize` returns a code, the client is registered and active, the redirect URI and the
  -- audience are among its own, a challenge was sent, the wallet signed a nonce that is spent by it,
  -- the credential is eligible, and the hash of the code is stored, bound to all of these.
  pub authorize-Authorized :
      (config : Config) (req : AuthorizeRequest) (plain : Text) (w w' : World Db)
      → authorize env out config req w ≡ (ok plain, w')
      → Authorized config req plain w.db w'.db
  unfolding authorize
  authorize-Authorized config req plain w w' h =
      let signing =
        or_error access_denied
          (WalletAuth.verify env out nonce_issue req.cose_key req.nonce req.signature) in
      let challenging = require {S = Db} (not (is_empty req.code_challenge)) invalid_request in
      let issuing = issue_code env out config req in
      let (c, w1, validated, rest) =
        bind-ok (validate_client env req.client_id req.redirect_uri req.aud)
          (λ _. challenging >>= λ _. signing >>= issuing) w plain w' h in
      let (same, row, live, uri, aud_ok) =
        validate_client-ok req.client_id req.redirect_uri req.aud c w w1 validated in
      let (_, w2, required, rest') =
        bind-ok challenging (λ _. signing >>= issuing) w1 plain w' rest in
      let (challenged, same') =
        require-ok (not (is_empty req.code_challenge)) invalid_request w1 w2 required in
      let (sch, w3, signed, rest'') = bind-ok signing issuing w2 plain w' rest' in
      let verified =
        verify-Verified env out nonce_issue req.cose_key req.nonce req.signature sch w2 w3 (
          or_error-ok access_denied
            (WalletAuth.verify env out nonce_issue req.cose_key req.nonce req.signature) w2 sch w3
            signed) in
      let (gate, stored) = issue_code-ok config req sch plain w3 w' rest'' in
      record {
        client = (c, row, text_eq_sound c.status (lit "active") live, uri, aud_ok);
        challenged = not-true (is_empty req.code_challenge) challenged;
        issued = (
          sch,
          w2.tick,
          w3.db,
          gate.0,
          subst
              (λ d.
                Verified env out nonce_issue req.nonce req.signature sch (env.time w2.tick) d w3.db)
              (same' ∙ same) verified,
          gate.1,
          stored,
        );
      }
