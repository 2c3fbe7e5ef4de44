-- ===== src/Oauth/Request.antt =====
-- server/internal/core/oauth/token.go: the requests and rows of the token endpoint, and its tests.
use ouro_pass.Base.{
  ltb, ◌==◌, if◌then◌else◌, length, Text, is_empty, text_eq, ℕ, Bool, true, false, not, ◌&&◌, ◌||◌,
  Option, none, some, List, [],
}
use ouro_pass.Store.Domain.{
  ClientType, public, confidential, grant_active, token_active, RefreshGrant, IssuedToken,
}
use ouro_pass.Outside.{Outside}
use ouro_pass.Oauth.{Attested}
use ouro_pass.Chain.Hex.{hex_decode, hex_encode}
use ouro_pass.Keys

pub record TokenRequest : Type 0 where
  pub grant_type : Text
  pub code : Text
  pub client_id : Text
  pub client_secret : Text
  pub code_verifier : Text
  pub redirect_uri : Text
  pub refresh_token : Text
  pub device_pubkey : Text

pub record TokenResponse : Type 0 where
  pub access_token : Text
  pub refresh_token : Text
  pub expires_at : ℕ
  pub tier : Text

pub record MintParams : Type 0 where
  pub sch : Text
  pub aud : Text
  pub client_type : ClientType
  pub client_id : Option Text
  pub att : Attested
  pub device_pubkey : Text
  pub rotated_from : Option Text
  pub signer_kid : Text
  pub signer_priv : List ℕ

abbrev pub is_public : ClientType → Bool
is_public public = true
is_public confidential = false

-- A key that a public client sends must be 32 bytes in hexadecimal; none at all binds nothing.
unfoldable pub bound_device : ClientType → Text → Option (List ℕ)
unfolding hex_decode
bound_device confidential device = some []
bound_device public [] = some []
bound_device public device = elim (hex_decode device) [
  | none ↦ none
  | some dev ↦ if length dev == 32 then some dev else none
]

abbrev pub cnf_of : Outside → List ℕ → Option Text
cnf_of out [] = none
cnf_of out dev = some (out.thumbprint dev)

abbrev pub is_expired : ℕ → Option ℕ → Bool
is_expired t none = false
is_expired t (some e) = ltb e t

-- The secret check; a client without a stored secret never passes.
abbrev pub secret_matches : Outside → Text → Option Text → Bool
secret_matches out secret none = false
secret_matches out secret (some hash) = text_eq (out.hash_token secret) hash

abbrev pub pkce_matches : Outside → Text → Option Text → Bool
pkce_matches out verifier none = false
pkce_matches out verifier (some challenge) =
    not (is_empty verifier) && text_eq (out.pkce_s256 verifier) challenge

abbrev pub new_token : MintParams → Text → ℕ → ℕ → IssuedToken
new_token p jti t exp = record {
  jti = jti;
  stake_credential_hash = p.sch;
  audience = p.aud;
  kid = p.signer_kid;
  client_id = p.client_id;
  status = token_active;
  issued_at = t;
  expires_at = exp;
  revoked_at = none;
}

abbrev pub new_grant : MintParams → Text → List ℕ → ℕ → ℕ → RefreshGrant
new_grant p id dev t exp = record {
  refresh_grant_id = id;
  stake_credential_hash = p.sch;
  audience = p.aud;
  client_type = p.client_type;
  bound_device_pubkey = dev;
  client_id = p.client_id;
  status = grant_active;
  rotated_from = p.rotated_from;
  created_at = t;
  expires_at = some exp;
}

-- A public client presents the device key that the grant is bound to.
unfoldable pub device_matches : TokenRequest → RefreshGrant → Bool
unfolding hex_decode
device_matches req grant =
    not (is_public grant.client_type)
    || is_empty grant.bound_device_pubkey
    || (elim (hex_decode req.device_pubkey) [
      | none ↦ false
      | some dev ↦ text_eq dev grant.bound_device_pubkey
    ])

abbrev pub refresh_params : RefreshGrant → Attested → Keys.Signer → MintParams
refresh_params grant att signer = record {
  sch = grant.stake_credential_hash;
  aud = grant.audience;
  client_type = grant.client_type;
  client_id = grant.client_id;
  att = att;
  device_pubkey = hex_encode grant.bound_device_pubkey;
  rotated_from = some grant.refresh_grant_id;
  signer_kid = signer.kid;
  signer_priv = signer.priv;
}
