-- ===== src/Oauth/Checks.antt =====
-- The steps of `tokenRefresh` of server/internal/core/oauth/token.go, each when it succeeds.
use mathlib.Core.Path.{subst}
use ouro_pass.Store.Tokens
use ouro_pass.Store.Grants
use ouro_pass.Keys
use ouro_pass.Store.Keys as KeyRepo
use ouro_pass.Base.{
  ◌==◌, Text, ℕ, ◌+◌, ◌≡◌, refl, sym, ap, ◌∙◌, ◌⊎◌, inl, inr, Bool, true, false, ◌&&◌, Option, some,
  List, arith,
}
use ouro_pass.Store.Table.{find, update, count}
use ouro_pass.Store.Domain.{
  ClientType, public, confidential, grant_rotated, KeyStatus, key_active, RefreshGrant, OAuthClient,
  IssuerKey, Db,
}
use ouro_pass.Store.Exec.{
  crypto_error, invalid_grant, invalid_client_creds, no_active_key, Result, ok, Env, World, pure,
  ◌>>=◌, or_error, ignore, require, some_or, bind-ok, query, exec,
}
use ouro_pass.Store.Inversion.{some_or-ok, pure-ok, require-ok}
use ouro_pass.Outside.{Outside}
use ouro_pass.Oauth.{Config, Attested}
use ouro_pass.Oauth.Request.{
  TokenRequest, TokenResponse, is_public, is_expired, secret_matches, refresh_params,
}
use ouro_pass.Oauth.Token.{
  check_grant, check_confidential, check_type, check_secret, mint, rotate_and_mint,
}
use ouro_pass.Oauth.Mint.{Minted, mint-Minted}

abbrev pub is_active_grant : Text → RefreshGrant → Bool
is_active_grant id g = Grants.has_id id g && Grants.is_grant_active g

module _ (env : Env) (out : Outside) where
  pub get_row :
      (id : Text) (g : RefreshGrant) (w w' : World Db)
      → or_error invalid_grant (Grants.get env id) w ≡ (ok g, w')
      → (find Grants.grant_id id w.db.grants ≡ some g) × (w'.db ≡ w.db) × (w'.tick ≡ w.tick + 1)
  unfolding or_error Grants.get query ◌>>=◌
  get_row id g w w' h = ground arith

  pub check_grant-ok :
      (t : ℕ) (g : RefreshGrant) (w w' : World Db)
      → check_grant env t g w ≡ (ok tt, w')
      → (Grants.is_grant_active g ≡ true) × (is_expired t g.expires_at ≡ false) × (w'.db ≡ w.db)
  unfolding check_grant ignore ◌>>=◌
  check_grant-ok t g w w' h = ground arith

  pub client_row :
      (id : Text) (c : OAuthClient) (w w' : World Db)
      → or_error invalid_client_creds (Tokens.get_client env id) w ≡ (ok c, w')
      → (find Tokens.client_id_of id w.db.clients ≡ some c) × (w'.db ≡ w.db)
  unfolding or_error Tokens.get_client query ◌>>=◌
  client_row id c w w' h = ground arith

  check_confidential-ok :
      (req : TokenRequest) (client_id : Option Text) (w w' : World Db)
      → check_confidential env out req client_id w ≡ (ok tt, w')
      → (w'.db ≡ w.db)
        × ((id : Text) × (c : OAuthClient) × (client_id ≡ some id)
            × (find Tokens.client_id_of id w.db.clients ≡ some c)
            × (secret_matches out req.client_secret c.client_secret_hash ≡ true))
  unfolding check_confidential
  check_confidential-ok req client_id w w' h =
      let asking = λ (id : Text). or_error invalid_client_creds (Tokens.get_client env id) in
      let checking = λ (client : OAuthClient).
        require {S = Db} (secret_matches out req.client_secret client.client_secret_hash)
          invalid_client_creds in
      let (id, w1, known, rest) =
        bind-ok (some_or {S = Db} client_id invalid_client_creds) (λ id. asking id >>= checking) w
          tt w' h in
      let (is_id, same) = some_or-ok client_id invalid_client_creds w id w1 known in
      let (c, w2, asked, last) = bind-ok (asking id) checking w1 tt w' rest in
      let (row, same') = client_row id c w1 w2 asked in
      let (match, same'') =
        require-ok (secret_matches out req.client_secret c.client_secret_hash) invalid_client_creds
          w2 w' last in
      (
        same'' ∙ same' ∙ same,
        (
          id,
          c,
          is_id,
          ap (λ (d : Db). find Tokens.client_id_of id d.clients) (sym same) ∙ row,
          match,
        ),
      )

  pub check_secret-ok :
      (req : TokenRequest) (g : RefreshGrant) (w w' : World Db)
      → check_secret env out req g w ≡ (ok tt, w')
      → (w'.db ≡ w.db)
        × ((is_public g.client_type ≡ true)
            ⊎ ((id : Text) × (c : OAuthClient) × (g.client_id ≡ some id)
                × (find Tokens.client_id_of id w.db.clients ≡ some c)
                × (secret_matches out req.client_secret c.client_secret_hash ≡ true)))
  unfolding check_secret
  check_secret-ok req g w w' h = by_type g.client_type refl h
    where
      by_type :
          (type : ClientType)
          → g.client_type ≡ type
          → check_type env out req g.client_id type w ≡ (ok tt, w')
          → (w'.db ≡ w.db)
            × ((is_public g.client_type ≡ true)
                ⊎ ((id : Text) × (c : OAuthClient) × (g.client_id ≡ some id)
                    × (find Tokens.client_id_of id w.db.clients ≡ some c)
                    × (secret_matches out req.client_secret c.client_secret_hash ≡ true)))
      by_type public e h =
          (ap (λ (x : Result (Unit {0}) × World Db). x.1.db) (sym h), inl (ap is_public e))
      by_type confidential e h =
          let (same, found) = check_confidential-ok req g.client_id w w' h in (same, inr found)

  list-same :
      (s : KeyStatus) (rows : List IssuerKey) (w w' : World Db)
      → KeyRepo.list_by_status env s w ≡ (ok rows, w')
      → w'.db ≡ w.db
  unfolding KeyRepo.list_by_status query
  list-same s rows w w' h = ground arith

  pub signer-same :
      (s : Keys.Signer) (w w' : World Db) → Keys.active_signer env out w ≡ (ok s, w') → w'.db ≡ w.db
  unfolding Keys.active_signer
  signer-same s w w' h =
      let opening = λ (k : IssuerKey).
        some_or {S = Db} (out.decrypt k.encrypted_private_key) crypto_error >>= λ priv.
        pure (record { kid = k.kid; priv = priv }) in
      let (rows, w1, asked, rest) =
        bind-ok (KeyRepo.list_by_status env key_active)
          (λ rows. some_or (Keys.last rows) no_active_key >>= opening) w s w' h in
      let same = list-same key_active rows w w1 asked in
      let (k, w2, chosen, rest') =
        bind-ok (some_or (Keys.last rows) no_active_key) opening w1 s w' rest in
      let (_, same') = some_or-ok (Keys.last rows) no_active_key w1 k w2 chosen in
      let (priv, w3, opened, last) =
        bind-ok (some_or {S = Db} (out.decrypt k.encrypted_private_key) crypto_error)
          (λ priv. pure (record { kid = k.kid; priv = priv })) w2 s w' rest' in
      let (_, same'') =
        some_or-ok (out.decrypt k.encrypted_private_key) crypto_error w2 priv w3 opened in
      let (_, same''') = pure-ok _ w3 s w' last in same''' ∙ same'' ∙ same' ∙ same

  rotate_if_active-ok :
      (id : Text) (won : Bool) (w w' : World Db)
      → Grants.rotate_if_active env id w ≡ (ok won, w')
      → ((count (is_active_grant id) w.db.grants == 1) ≡ won)
        × (w'.db ≡ record w.db {
          grants = update (is_active_grant id) (Grants.with_status grant_rotated) w.db.grants;
        })
  unfolding Grants.rotate_if_active exec
  rotate_if_active-ok id won w w' h = ground arith

  pub rotate_and_mint-ok :
      (config : Config) (g : RefreshGrant) (att : Attested) (s : Keys.Signer) (resp : TokenResponse)
      (w w' : World Db)
      → rotate_and_mint env out config g att s w ≡ (ok resp, w')
      → ((count (is_active_grant g.refresh_grant_id) w.db.grants == 1) ≡ true)
        × Minted out
            (refresh_params g att s)
            resp
            (record w.db {
              grants =
                  update
                    (is_active_grant g.refresh_grant_id)
                    (Grants.with_status grant_rotated)
                    w.db.grants;
            })
            w'.db
  unfolding rotate_and_mint
  rotate_and_mint-ok config g att s resp w w' h =
      let minting = mint env out config (refresh_params g att s) in
      let (won, w1, swapped, rest) =
        bind-ok (Grants.rotate_if_active env g.refresh_grant_id)
          (λ won. require won invalid_grant >>= λ _. minting) w resp w' h in
      let (count_is, after) = rotate_if_active-ok g.refresh_grant_id won w w1 swapped in
      let (_, w2, required, rest') =
        bind-ok (require won invalid_grant) (λ _. minting) w1 resp w' rest in
      let (really, same) = require-ok won invalid_grant w1 w2 required in
      (
        count_is ∙ really,
        subst (λ d. Minted out (refresh_params g att s) resp d w'.db) (same ∙ after)
            (mint-Minted env out config _ resp w2 w' rest'),
      )
