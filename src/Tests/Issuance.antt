-- ===== src/Tests/Issuance.antt =====
-- Witnesses of the theorems on issuance.
use ouro_pass.Base.{
  Text, lit, text_eq, text_eq_complete, ℕ, ◌<◌, ◌≡◌, refl, ◌≢◌, ◌↔◌, true, some, List, [], ◌∷◌,
  ◌++◌, arith,
}
use ouro_pass.Store.Table.{find, update, count}
use ouro_pass.Store.Domain.{RefreshGrant, Db}
use ouro_pass.Store.Exec.{invalid_grant, Result, ok, err, World}
use ouro_pass.Outside.{Outside}
use ouro_pass.Store.Grants.Forest.{IsForest}
use ouro_pass.Store.Grants.Chain.{ChainRevoked}
use ouro_pass.Oauth.{AuthorizeRequest, authorize}
use ouro_pass.Oauth.Request.{TokenRequest, TokenResponse}
use ouro_pass.Oauth.Token.{token_auth_code, token_refresh, token}
use ouro_pass.Oauth.Live.{IntrospectResponse, inactive, introspect, revoke}
use ouro_pass.Oauth.Refresh.{Refreshed, token_refresh-Refreshed}
use ouro_pass.Oauth.Replay.{token_refresh-replay}
use ouro_pass.Oauth.Used.{IsUsed, Refreshed-IsUsed, token_refresh-IsUsed}
use ouro_pass.Oauth.Endpoint.{token-IsUsed}
use ouro_pass.Oauth.Exchange.{Exchanged, token_auth_code-Exchanged}
use ouro_pass.Oauth.Authorize.{Authorized, authorize-Authorized}
use ouro_pass.Oauth.Introspection.{introspect-live}
use ouro_pass.Oauth.Device.{token_refresh-device}
use ouro_pass.Oauth.Revocation.{revoke-introspect}
use ouro_pass.Membership.{is_outside}
use ouro_pass.Go.Maps.{get_text}
use ouro_pass.Go.Strings.{has_suffix, count_byte}
use ouro_pass.Tests.{steady, wallets, short_lived, old_grant, new_one, known_token, office, start}
use ouro_pass.Chain.Hex.{hex_encode, AreBytes}
use ouro_pass.Store.Keys as KeyRepo
use ouro_pass.Store.Nonces
use ouro_pass.Store.Tokens

abbrev refresh_with : Text → TokenRequest
refresh_with token = record {
  grant_type = lit "refresh_token";
  code = [];
  client_id = [];
  client_secret = [];
  code_verifier = [];
  redirect_uri = [];
  refresh_token = token;
  device_pubkey = [];
}

abbrev exchange : TokenRequest
exchange = record {
  grant_type = lit "authorization_code";
  code = lit "k";
  client_id = lit "c";
  client_secret = [];
  code_verifier = lit "v";
  redirect_uri = lit "uri";
  refresh_token = [];
  device_pubkey = [];
}

office-IsForest : IsForest office.grants
unfolding text_eq
office-IsForest = (tt, ((λ e. cc (text_eq_complete (lit "#2") (lit "#1") e), tt), tt))

token_refresh-replay_example :
    (w' : World Db) × (token_refresh steady wallets short_lived (refresh_with (lit "1")) start
      ≡ (err invalid_grant, w'))
    × ChainRevoked (lit "#1") office w'.db
unfolding find text_eq
token_refresh-replay_example =
    token_refresh-replay steady wallets short_lived (refresh_with (lit "1")) old_grant start
      (λ n. refl) office-IsForest refl refl

abbrev response_of : Result TokenResponse → TokenResponse
response_of (ok r) = r
response_of (err e) = record { access_token = []; refresh_token = []; expires_at = 0; tier = [] }

abbrev second : TokenRequest
second = refresh_with (lit "2")

abbrev refreshed : Result TokenResponse × World Db
refreshed = token_refresh steady wallets short_lived second start

abbrev refresh_response : TokenResponse
refresh_response = response_of refreshed.0

refreshed_ok : refreshed ≡ (ok refresh_response, refreshed.1)
unfolding token_refresh text_eq is_outside get_text has_suffix KeyRepo.list_by_status
    KeyRepo.order_by_created count update
refreshed_ok = refl

token_refresh-Refreshed_example :
    Refreshed wallets second refresh_response 1001 office refreshed.1.db
token_refresh-Refreshed_example =
    token_refresh-Refreshed steady wallets short_lived second refresh_response start refreshed.1
      refreshed_ok

IsUsed-refreshed : IsUsed (lit "#2") refreshed.1.db
IsUsed-refreshed =
    Refreshed-IsUsed wallets second refresh_response 1001 office refreshed.1.db
      token_refresh-Refreshed_example

token_refresh-IsUsed_example :
    token_refresh steady wallets short_lived second refreshed.1 ≢ (ok refresh_response, refreshed.1)
token_refresh-IsUsed_example =
    token_refresh-IsUsed steady wallets short_lived second refresh_response refreshed.1 refreshed.1
      IsUsed-refreshed

token-IsUsed_example :
    IsUsed (lit "#2") (token steady wallets short_lived exchange refreshed.1).1.db
token-IsUsed_example =
    token-IsUsed steady wallets short_lived (lit "#2") exchange refreshed.1 IsUsed-refreshed

abbrev exchanged : Result TokenResponse × World Db
exchanged = token_auth_code steady wallets short_lived exchange start

abbrev exchange_response : TokenResponse
exchange_response = response_of exchanged.0

exchanged_ok : exchanged ≡ (ok exchange_response, exchanged.1)
unfolding token_auth_code find text_eq count is_outside get_text has_suffix KeyRepo.list_by_status
    KeyRepo.order_by_created
exchanged_ok = refl

token_auth_code-Exchanged_example :
    Exchanged wallets exchange exchange_response office exchanged.1.db
token_auth_code-Exchanged_example =
    token_auth_code-Exchanged steady wallets short_lived exchange exchange_response start
      exchanged.1 exchanged_ok

abbrev asking : AuthorizeRequest
asking = record {
  client_id = lit "c";
  redirect_uri = lit "uri";
  aud = lit "aud";
  scope = [];
  nonce = lit "n";
  cose_key = lit "ab";
  signature = lit "n";
  code_challenge = lit "$v";
}

abbrev authorized : Result Text × World Db
authorized = authorize steady wallets short_lived asking start

authorized_ok : authorized ≡ (ok (8 ∷ []), authorized.1)
unfolding authorize find text_eq Nonces.consume count is_outside get_text has_suffix
authorized_ok = refl

authorize-Authorized_example :
    Authorized steady wallets short_lived asking (8 ∷ []) office authorized.1.db
authorize-Authorized_example =
    authorize-Authorized steady wallets short_lived asking (8 ∷ []) start authorized.1 authorized_ok

introspect-live_example :
    ((r : IntrospectResponse) × (w' : World Db) × (introspect steady wallets [] (lit "j") start
        ≡ (ok r, w'))
      × (r.is_live ≡ true))
    ↔ ((Tokens.is_token_active known_token ≡ true) × (1001 < 5000))
unfolding find text_eq
introspect-live_example = introspect-live steady wallets (lit "j") known_token start refl refl refl

abbrev device_key : List ℕ
device_key =
    1 ∷ 2 ∷ 3 ∷ 4 ∷ 5 ∷ 6 ∷ 7 ∷ 8 ∷ 9 ∷ 10 ∷ 11 ∷ 12 ∷ 13 ∷ 14 ∷ 15 ∷ 16 ∷ 17 ∷ 18 ∷ 19 ∷ 20 ∷ 21
    ∷ 22 ∷ 23 ∷ 24 ∷ 25 ∷ 26 ∷ 27 ∷ 28 ∷ 29 ∷ 30 ∷ 31 ∷ 255 ∷ []

device_key-AreBytes : AreBytes device_key
device_key-AreBytes = (
  omega arith,
  (
    omega arith,
    (
      omega arith,
      (
        omega arith,
        (
          omega arith,
          (
            omega arith,
            (
              omega arith,
              (
                omega arith,
                (
                  omega arith,
                  (
                    omega arith,
                    (
                      omega arith,
                      (
                        omega arith,
                        (
                          omega arith,
                          (
                            omega arith,
                            (
                              omega arith,
                              (
                                omega arith,
                                (
                                  omega arith,
                                  (
                                    omega arith,
                                    (
                                      omega arith,
                                      (
                                        omega arith,
                                        (
                                          omega arith,
                                          (
                                            omega arith,
                                            (
                                              omega arith,
                                              (
                                                omega arith,
                                                (
                                                  omega arith,
                                                  (
                                                    omega arith,
                                                    (
                                                      omega arith,
                                                      (
                                                        omega arith,
                                                        (
                                                          omega arith,
                                                          (
                                                            omega arith,
                                                            (omega arith, (omega arith, tt)),
                                                          ),
                                                        ),
                                                      ),
                                                    ),
                                                  ),
                                                ),
                                              ),
                                            ),
                                          ),
                                        ),
                                      ),
                                    ),
                                  ),
                                ),
                              ),
                            ),
                          ),
                        ),
                      ),
                    ),
                  ),
                ),
              ),
            ),
          ),
        ),
      ),
    ),
  ),
)

abbrev device_grant : RefreshGrant
device_grant = record new_one { bound_device_pubkey = device_key }

abbrev device_start : World Db
device_start = record { db = record office { grants = device_grant ∷ [] }; tick = 0 }

abbrev device_request : TokenRequest
device_request = record second { device_pubkey = hex_encode device_key }

abbrev device_refreshed : Result TokenResponse × World Db
device_refreshed = token_refresh steady wallets short_lived device_request device_start

abbrev device_response : TokenResponse
device_response = response_of device_refreshed.0

device_refreshed_ok : device_refreshed ≡ (ok device_response, device_refreshed.1)
unfolding token_refresh text_eq is_outside get_text has_suffix KeyRepo.list_by_status
    KeyRepo.order_by_created count update
device_refreshed_ok = refl

token_refresh-device_example :
    (n : RefreshGrant) × (rows : List RefreshGrant) × (device_refreshed.1.db.grants
      ≡ rows ++ (n ∷ []))
    × (n.bound_device_pubkey ≡ device_key)
    × (n.rotated_from ≡ some (lit "#2"))
unfolding find text_eq
token_refresh-device_example =
    token_refresh-device steady wallets short_lived device_request device_response device_grant
      device_start device_refreshed.1 refl refl refl device_key-AreBytes device_refreshed_ok

abbrev signed : Outside
signed = record wallets { jti_unverified = λ t. some (lit "j") }

abbrev revoked : Result (Unit {0}) × World Db
revoked = revoke steady signed (lit "a.b.c") [] start

revoked_ok : revoked ≡ (ok tt, revoked.1)
unfolding revoke text_eq
revoked_ok = refl

revoke-introspect_example : (introspect steady signed [] (lit "j") revoked.1).0 ≡ ok inactive
unfolding find text_eq count_byte
revoke-introspect_example =
    revoke-introspect steady signed (lit "a.b.c") [] (lit "j") known_token start revoked.1 revoked.1
      refl refl refl refl revoked_ok refl
