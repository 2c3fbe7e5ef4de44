-- ===== src/Oauth/Live.antt =====
-- server/internal/core/oauth/introspect.go: introspection and revocation.
use ouro_pass.Base.{
  ltb, ◌==◌, if◌then◌else◌, Text, lit, is_empty, text_eq, ℕ, ◌/◌, Bool, true, false, not, ◌&&◌,
  none, some, [],
}
use ouro_pass.Store.Domain.{grant_revoked, Db}
use ouro_pass.Store.Exec.{ok, err, Env, Exec, pure, ◌>>=◌, attempt, now}
use ouro_pass.Outside.{Outside}
use ouro_pass.Go.Strings.{count_byte}
use ouro_pass.Store.Tokens
use ouro_pass.Store.Grants
use ouro_pass.Keys

pub record IntrospectResponse : Type 0 where
  pub is_live : Bool
  pub sub : Text
  pub tier : Text
  pub exp : ℕ

abbrev pub inactive : IntrospectResponse
inactive = record { is_live = false; sub = []; tier = []; exp = 0 }

module _ (env : Env) (out : Outside) where
  -- The ledger's part, after the signature has been checked; `Unix` is in seconds.
  unfoldable pub check_ledger : Text → Text → Text → Exec Db IntrospectResponse
  unfolding attempt now Tokens.get ◌>>=◌
  check_ledger sub tier jti = do
    r ← attempt (Tokens.get env jti)
    elim r [
      | err _ ↦ pure inactive
      | ok rec ↦ (do
        t ← now env
        pure (
            if Tokens.is_token_active rec && ltb t rec.expires_at
            then record {
              is_live = true;
              sub = sub;
              tier = tier;
              exp = rec.expires_at / 1000000000;
            }
            else inactive))
    ]

  unfoldable pub introspect_jti : Text → Text → Text → Exec Db IntrospectResponse
  unfolding check_ledger
  introspect_jti sub tier jti = if is_empty jti then pure inactive else check_ledger sub tier jti

  unfoldable pub introspect : Text → Text → Exec Db IntrospectResponse
  unfolding now introspect_jti Keys.public_jwks_keys ◌>>=◌
  introspect [] jti = introspect_jti [] [] jti
  introspect token jti = do
    jwks ← Keys.public_jwks_keys env out
    t ← now env
    elim (out.verify_token t token jwks) [
      | none ↦ pure inactive
      | some tok ↦ introspect_jti tok.subject tok.tier tok.jti
    ]

  abbrev pub is_jws : Text → Text → Bool
  is_jws token hint = (count_byte 46 token == 2) && not (text_eq hint (lit "refresh_token"))

  -- An opaque token is a refresh token, and an unknown one is no error.
  unfoldable pub revoke_opaque : Text → Exec Db (Unit {0})
  unfolding attempt Grants.get Grants.set_status ◌>>=◌
  revoke_opaque token = do
    r ← attempt (Grants.get env (out.hash_token token))
    elim r [ err _ ↦ pure tt | ok g ↦ Grants.set_status env g.refresh_grant_id grant_revoked ]

  unfoldable pub revoke_jws : Text → Text → Exec Db (Unit {0})
  unfolding now revoke_opaque Tokens.revoke ◌>>=◌
  revoke_jws token [] = revoke_opaque token
  revoke_jws token jti = do t ← now env; Tokens.revoke env jti t

  unfoldable pub revoke : Text → Text → Exec Db (Unit {0})
  unfolding revoke_jws revoke_opaque count_byte
  revoke [] hint = pure tt
  revoke token hint =
      if is_jws token hint
      then (elim (out.jti_unverified token) [
        | none ↦ revoke_opaque token
        | some jti ↦ revoke_jws token jti
      ])
      else revoke_opaque token
