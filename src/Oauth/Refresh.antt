-- ===== src/Oauth/Refresh.antt =====
-- `tokenRefresh` of server/internal/core/oauth/token.go: what a successful call did.
use mathlib.Core.Path.{subst}
use ouro_pass.Store.Tokens
use ouro_pass.Store.Grants
use ouro_pass.Keys
use ouro_pass.Base.{
  ◌==◌, ==_iff, Text, ℕ, ◌+◌, ◌≡◌, refl, sym, ap, ◌∙◌, ◌⊎◌, true, false, not, some,
}
use ouro_pass.Store.Table.{find, update, count}
use ouro_pass.Store.Domain.{grant_rotated, RefreshGrant, OAuthClient, Db}
use ouro_pass.Store.Exec.{
  invalid_grant, not_eligible, ok, Env, World, next, ◌>>=◌, or_error, require, bind-ok, now,
  with_tx,
}
use ouro_pass.Store.Inversion.{with_tx-ok, require-ok, now-ok}
use ouro_pass.Outside.{Outside}
use ouro_pass.Membership.{State, is_outside}
use ouro_pass.Oauth.{Config, Attested, attest}
use ouro_pass.Oauth.Request.{
  TokenRequest, TokenResponse, MintParams, is_public, is_expired, secret_matches, device_matches,
  refresh_params,
}
use ouro_pass.Oauth.Token.{check_grant, check_secret, rotate_and_mint, refresh_grant, token_refresh}
use ouro_pass.Oauth.Gate.{Eligible, not-true, attest-Eligible}
use ouro_pass.Oauth.Mint.{Minted}
use ouro_pass.Oauth.Checks.{
  is_active_grant, get_row, check_grant-ok, check_secret-ok, signer-same, rotate_and_mint-ok,
}
use ouro_pass.Chain.Hex.{hex_encode}

-- What a successful refresh did: the presented token is that of an active grant that is not past its
-- expiry at the given time, the client
-- is authenticated, the credential is still eligible, and in one step the grant is rotated and its
-- successor is recorded.
pub record Refreshed (out : Outside) (req : TokenRequest) (resp : TokenResponse) (now : ℕ)
    (before after : Db) : Type 0 where
  pub grant : RefreshGrant
  pub row : find Grants.grant_id (out.hash_token req.refresh_token) before.grants ≡ some grant
  pub was_active : Grants.is_grant_active grant ≡ true
  pub in_time : is_expired now grant.expires_at ≡ false
  pub authenticated :
      (is_public grant.client_type ≡ true)
      ⊎ ((id : Text) × (c : OAuthClient) × (grant.client_id ≡ some id)
          × (find Tokens.client_id_of id before.clients ≡ some c)
          × (secret_matches out req.client_secret c.client_secret_hash ≡ true))
  pub device : device_matches req grant ≡ true
  pub eligible : (state : State) × Eligible out grant.stake_credential_hash state before
  pub rotated_once : count (is_active_grant grant.refresh_grant_id) before.grants ≡ 1
  pub succeeded :
      (p : MintParams) × (p.rotated_from ≡ some grant.refresh_grant_id)
      × (p.sch ≡ grant.stake_credential_hash)
      × (p.aud ≡ grant.audience)
      × (p.client_type ≡ grant.client_type)
      × (p.device_pubkey ≡ hex_encode grant.bound_device_pubkey)
      × Minted out p resp
          (record before {
            grants =
                update
                  (is_active_grant grant.refresh_grant_id)
                  (Grants.with_status grant_rotated)
                  before.grants;
          })
          after

module _ (env : Env) (out : Outside) (config : Config) where
  refresh_grant-Refreshed :
      (req : TokenRequest) (resp : TokenResponse) (g : RefreshGrant) (t : ℕ) (w w' : World Db)
      → find Grants.grant_id (out.hash_token req.refresh_token) w.db.grants ≡ some g
      → Grants.is_grant_active g ≡ true
      → is_expired t g.expires_at ≡ false
      → refresh_grant env out config req g w ≡ (ok resp, w')
      → Refreshed out req resp t w.db w'.db
  unfolding refresh_grant
  refresh_grant-Refreshed req resp g t w w' row live in_time h =
      let rotating = λ (att : Attested) (s : Keys.Signer).
        with_tx env (rotate_and_mint env out config g att s) in
      let signing = λ (att : Attested). Keys.active_signer env out >>= rotating att in
      let gating = λ (att : Attested).
        require {S = Db} (not (is_outside att.state)) not_eligible >>= λ _. signing att in
      let attesting = attest env out g.stake_credential_hash >>= gating in
      let binding = require {S = Db} (device_matches req g) invalid_grant in
      let (_, w1, secret, rest1) =
        bind-ok (check_secret env out req g) (λ _. binding >>= λ _. attesting) w resp w' h in
      let (same1, authenticated) = check_secret-ok env out req g w w1 secret in
      let (_, w2, bound, rest2) = bind-ok binding (λ _. attesting) w1 resp w' rest1 in
      let (device, same2) = require-ok (device_matches req g) invalid_grant w1 w2 bound in
      let (att, w3, attested, rest3) =
        bind-ok (attest env out g.stake_credential_hash) gating w2 resp w' rest2 in
      let (_, w4, gated, rest4) =
        bind-ok (require {S = Db} (not (is_outside att.state)) not_eligible) (λ _. signing att) w3
          resp w' rest3 in
      let (held, same4) = require-ok (not (is_outside att.state)) not_eligible w3 w4 gated in
      let (same3, eligible) =
        attest-Eligible env out g.stake_credential_hash att w2 w3 attested
          (not-true (is_outside att.state) held) in
      let (s, w5, signed, rest5) =
        bind-ok (Keys.active_signer env out) (rotating att) w4 resp w' rest4 in
      let same5 = signer-same env out s w4 w5 signed in
      let (w6, body, same6) =
        with_tx-ok env (rotate_and_mint env out config g att s) w5 resp w' rest5 in
      let (once, minted) = rotate_and_mint-ok env out config g att s resp (next w5) w6 body in
      let before : w5.db ≡ w.db = same5 ∙ same4 ∙ same3 ∙ same2 ∙ same1 in
      record {
        grant = g;
        row = row;
        was_active = live;
        in_time = in_time;
        authenticated = authenticated;
        device = device;
        eligible = (
          att.state,
          subst (Eligible out g.stake_credential_hash att.state) (same2 ∙ same1) eligible,
        );
        rotated_once = (==_iff (count (is_active_grant g.refresh_grant_id) w.db.grants) 1).0 (
            ap (λ (d : Db). count (is_active_grant g.refresh_grant_id) d.grants == 1) (sym before)
            ∙ once);
        succeeded = (
          refresh_params g att s,
          refl,
          refl,
          refl,
          refl,
          refl,
          subst
              (λ d.
                Minted out (refresh_params g att s) resp
                  (record d {
                    grants =
                        update (is_active_grant g.refresh_grant_id)
                          (Grants.with_status grant_rotated) d.grants;
                  })
                  w'.db)
              before
              (subst
                (λ d.
                  Minted out (refresh_params g att s) resp
                    (record w5.db {
                      grants =
                          update (is_active_grant g.refresh_grant_id)
                            (Grants.with_status grant_rotated) w5.db.grants;
                    })
                    d)
                (sym same6) minted),
        );
      }

  -- A refresh that returns tokens was made with the token of an active grant that is not past its
  -- expiry at the time that the call reads, the second of its interactions, by an
  -- authenticated client with the bound device key, for a credential that is still eligible; it
  -- rotated that grant and no other, and recorded one access token and one successor grant that
  -- names it.
  pub token_refresh-Refreshed :
      (req : TokenRequest) (resp : TokenResponse) (w w' : World Db)
      → token_refresh env out config req w ≡ (ok resp, w')
      → Refreshed out req resp (env.time (w.tick + 1)) w.db w'.db
  unfolding token_refresh
  token_refresh-Refreshed req resp w w' h =
      let getting = or_error invalid_grant (Grants.get env (out.hash_token req.refresh_token)) in
      let refreshing = refresh_grant env out config req in
      let checking = λ (g : RefreshGrant) (t : ℕ). check_grant env t g >>= λ _. refreshing g in
      let (g, w1, got, rest1) = bind-ok getting (λ g. now env >>= checking g) w resp w' h in
      let (row, same1, tick1) = get_row env out (out.hash_token req.refresh_token) g w w1 got in
      let (t, w2, timed, rest2) = bind-ok (now env) (checking g) w1 resp w' rest1 in
      let (is_t, same2) = now-ok env w1 t w2 timed in
      let read_at : t ≡ env.time (w.tick + 1) = sym is_t ∙ ap env.time tick1 in
      let (_, w3, checked, rest3) =
        bind-ok (check_grant env t g) (λ _. refreshing g) w2 resp w' rest2 in
      let (live, in_time, same3) = check_grant-ok env out t g w2 w3 checked in
      let before : w3.db ≡ w.db = same3 ∙ same2 ∙ same1 in
      subst (λ d. Refreshed out req resp (env.time (w.tick + 1)) d w'.db) before
        (refresh_grant-Refreshed req resp g (env.time (w.tick + 1)) w3 w'
          (ap (λ (d : Db). find Grants.grant_id (out.hash_token req.refresh_token) d.grants) before
            ∙ row)
          live (ap (λ (n : ℕ). is_expired n g.expires_at) (sym read_at) ∙ in_time) rest3)
