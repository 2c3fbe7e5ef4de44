-- ===== src/Oauth/Mint.antt =====
-- `mint` of server/internal/core/oauth/token.go: what a successful call did.
use ouro_pass.Store.Tokens
use ouro_pass.Store.Grants
use ouro_pass.Base.{
  Option-cases, is_unset, Text, ℕ, ◌+◌, ◌≡◌, inl, inr, true, some, List, [], ◌∷◌, ◌++◌, arith,
}
use ouro_pass.Store.Table.{find}
use ouro_pass.Store.Domain.{Db}
use ouro_pass.Store.Exec.{ok, Env, World, ◌>>=◌, now, fresh, insert}
use ouro_pass.Outside.{Outside}
use ouro_pass.Oauth.{Config}
use ouro_pass.Oauth.Request.{TokenResponse, MintParams, bound_device, new_token, new_grant}
use ouro_pass.Oauth.Token.{mint}
use ouro_pass.Chain.Hex.{hex_decode}

-- One row in the ledger of access tokens and one active grant, whose id is the hash of the refresh
-- token that is returned.
pub record Minted (out : Outside) (p : MintParams) (resp : TokenResponse) (before after : Db)
    : Type 0 where
  pub rows :
      (t exp : ℕ) × (jti : Text) × (dev : List ℕ) × (bound_device p.client_type p.device_pubkey
        ≡ some dev)
      × (after ≡ record before {
        issued_tokens = before.issued_tokens ++ (new_token p jti t resp.expires_at ∷ []);
        grants = before.grants ++ (new_grant p (out.hash_token resp.refresh_token) dev t exp ∷ []);
      })
      × (is_unset (find Tokens.jti_of jti before.issued_tokens) ≡ true)
  pub unused_id :
      is_unset (find Grants.grant_id (out.hash_token resp.refresh_token) before.grants) ≡ true

module _ (env : Env) (out : Outside) (config : Config) where
  pub mint-Minted :
      (p : MintParams) (resp : TokenResponse) (w w' : World Db)
      → mint env out config p w ≡ (ok resp, w')
      → Minted out p resp w.db w'.db
  unfolding mint now fresh Tokens.create Grants.create insert ◌>>=◌
  mint-Minted p resp w w' h = elim (Option-cases (hex_decode p.sch)) [
    | inl fails ↦ absurd (let k = rw fails at h in cc)
    | inr (bytes, reads) ↦ elim (Option-cases (bound_device p.client_type p.device_pubkey)) [
      | inl fails ↦ absurd (let k = rw (reads, fails) at h in cc)
      | inr (dev, bound) ↦
          let k = rw (reads, bound) at h in
          record {
            rows = (
              env.time w.tick,
              env.time w.tick + config.refresh_ttl,
              env.random (w.tick + 1),
              dev,
              bound,
              ground arith,
              ground arith,
            );
            unused_id = ground arith;
          }
    ]
  ]
