-- ===== src/Outside.antt =====
-- What the services call that is no code of the repository, or is a thin wrapper of such code:
-- hashing, signing and sealing, key generation, JWT verification and the chain reads of a set of
-- attestors. Where the answer may differ from call to call it depends on the number of the
-- interaction.
use ouro_pass.Base.{Text, ℕ, Bool, Option, none, some, List}
use ouro_pass.Tier.{Rule}
use ouro_pass.Attestor.{Claim, Attestation}
use ouro_pass.Store.Exec.{Error, ok, err, Exec, next}

pub record AccessClaims : Type 0 where
  pub issuer : Text
  pub subject : Text
  pub audience : Text
  pub issued_at : ℕ
  pub expiry : ℕ
  pub jti : Text
  pub credentials : List Claim
  pub tier : Text
  pub cnf : Option Text

pub record PublicKey : Type 0 where
  pub kid : Text
  pub key : List ℕ

pub record VerifiedToken : Type 0 where
  pub jti : Text
  pub subject : Text
  pub tier : Text

-- `tgConfig` of server/internal/worker/telegram/channelconfig.go
pub record BotConfig : Type 0 where
  pub bot_token_enc : Text
  pub bot_username : Text

-- The bot token and user name of an inbound configuration.
pub record InboundBot : Type 0 where
  pub bot_token : Text
  pub bot_username : Text

-- The decoded parameters of a pool attestor.
pub record PoolParams : Type 0 where
  pub pool_id : Text
  pub network : Text

pub record Outside : Type 0 where
  -- SHA-256 in hexadecimal, of opaque tokens (`crypto.HashToken`).
  pub hash_token : Text → Text
  -- SHA-256 in unpadded base64url, of a PKCE verifier and of a device key.
  pub pkce_s256 : Text → Text
  pub thumbprint : List ℕ → Text
  -- HMAC-SHA-256 under the server's salt (`crypto.DeriveSub`).
  pub derive_sub : List ℕ → Text
  -- `jose.SignAccessToken`, `jose.Verify` and `jose.JTIUnverified`, over the JWT library.
  pub sign_access_token : Text → List ℕ → AccessClaims → Option Text
  pub verify_token : ℕ → Text → List PublicKey → Option VerifiedToken
  pub jti_unverified : Text → Option Text
  -- CIP-30: the stake key inside a COSE_Key, its Blake2b-224 hash in hexadecimal, and the
  -- verification of a COSE_Sign1 signature over a nonce.
  pub stake_vkey_from_cose_key : Text → Option (List ℕ)
  pub key_hash : List ℕ → Text
  pub cose_verify : List ℕ → Text → Text → Bool
  -- `time.Format("2006-01")`
  pub year_month : ℕ → Text
  -- Ed25519 key generation, and AES-GCM sealing of private keys.
  pub generate_key : ℕ → Option (List ℕ × List ℕ)
  pub encrypt : ℕ → List ℕ → Option (List ℕ)
  pub decrypt : List ℕ → Option (List ℕ)
  -- `json.Unmarshal` of the tier rules.
  pub unmarshal_rules : Text → Option (List Rule)
  -- `json.Unmarshal` and `json.Marshal` of a bot's configuration, and `json.Unmarshal` of the
  -- parameters of a pool.
  pub unmarshal_bot : Text → Option BotConfig
  pub marshal_bot : BotConfig → Text
  pub unmarshal_inbound_bot : Text → Option InboundBot
  pub unmarshal_pool : Text → Option PoolParams
  -- The configured attestors, resolved and asked about a credential; `none` if they cannot be
  -- resolved, and within the list for each attestor that fails.
  pub attestors : ℕ → Text → Option (List (Option Attestation))

module _ {S A : Type 0} where
  -- An answer that depends on the interaction.
  unfoldable pub ask : (ℕ → Option A) → Error → Exec S A
  ask f e w = elim (f w.tick) [ none ↦ (err e, next w) | some a ↦ (ok a, next w) ]
