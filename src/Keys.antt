-- ===== src/Keys.antt =====
-- server/internal/core/keys/keys.go: the life of the signing keys.
pub mod Rotation
use ouro_pass.Base.{
  ltb, if◌then◌else◌, Text, lit, ℕ, Bool, false, Option, none, some, List, [], ◌∷◌, ◌++◌, map,
}
use ouro_pass.Store.Domain.{key_active, key_rotating, key_retired, key_revoked, IssuerKey, Db}
use ouro_pass.Store.Exec.{
  crypto_error, no_active_key, not_rotating, Env, Exec, pure, ◌>>=◌, ◌>>◌, require, some_or, now,
  fresh,
}
use ouro_pass.Outside.{PublicKey, Outside, ask}
use ouro_pass.Store.Keys.{in_status, list_by_status}
use ouro_pass.Store.Keys as KeyRepo

pub record Signer : Type 0 where
  pub kid : Text
  pub priv : List ℕ

unfoldable pub last : List IssuerKey → Option IssuerKey
last [] = none
last (k ∷ []) = some k
last (k ∷ l ∷ rows) = last (l ∷ rows)

abbrev pub public_keys : List IssuerKey → List PublicKey
public_keys = map λ k. record { kid = k.kid; key = k.public_key }

module _ (env : Env) (out : Outside) where
  -- The loop that demotes the active keys.
  unfoldable pub demote : List IssuerKey → Exec Db (Unit {0})
  unfolding ◌>>=◌
  demote [] = pure tt
  demote (k ∷ actives) = do KeyRepo.set_status env k.kid key_rotating none; demote actives

  -- `defaultKID`
  unfoldable pub default_kid : ℕ → Exec Db Text
  unfolding fresh ◌>>=◌
  default_kid t = do r ← fresh env; pure (lit "op-issuer-" ++ (out.year_month t ++ (lit "-" ++ r)))

  unfoldable pub rotate : Exec Db Text
  unfolding now ask demote default_kid KeyRepo.create ◌>>=◌
  rotate = do
    t ← now env
    pair ← ask out.generate_key crypto_error
    sealed ← ask (λ n. out.encrypt n pair.1) crypto_error
    actives ← KeyRepo.list_by_status env key_active
    demote actives
    kid ← default_kid t
    KeyRepo.create env (record {
      kid = kid;
      public_key = pair.0;
      encrypted_private_key = sealed;
      status = key_active;
      valid_from = some t;
      created_at = t;
      retired_at = none;
    })
    pure kid

  unfoldable pub active_signer : Exec Db Signer
  unfolding last ◌>>=◌
  active_signer = do
    actives ← KeyRepo.list_by_status env key_active
    k ← some_or (last actives) no_active_key
    priv ← some_or (out.decrypt k.encrypted_private_key) crypto_error
    pure (record { kid = k.kid; priv = priv })

  unfoldable pub public_jwks_keys : Exec Db (List PublicKey)
  unfolding ◌>>=◌
  public_jwks_keys = do
    actives ← KeyRepo.list_by_status env key_active
    rotating ← KeyRepo.list_by_status env key_rotating
    pure (public_keys actives ++ public_keys rotating)

  unfoldable pub retire : Text → Exec Db (Unit {0})
  unfolding now ◌>>=◌
  retire kid = do
    k ← KeyRepo.get env kid
    require (in_status key_rotating k) not_rotating
    t ← now env
    KeyRepo.set_status env kid key_retired (some t)

  -- `k.ValidFrom != nil && k.ValidFrom.After(olderThan)`
  abbrev too_young : ℕ → Option ℕ → Bool
  too_young older_than none = false
  too_young older_than (some t) = ltb older_than t

  unfoldable pub retire_each : ℕ → ℕ → List IssuerKey → List Text → Exec Db (List Text)
  unfolding ◌>>=◌
  retire_each older_than t [] retired = pure retired
  retire_each older_than t (k ∷ rotating) retired =
      let skip = retire_each older_than t rotating retired in
      let go = (do
        KeyRepo.set_status env k.kid key_retired (some t)
        retire_each older_than t rotating (retired ++ (k.kid ∷ []))) in
      if too_young older_than k.valid_from then skip else go

  unfoldable pub retire_rotating : ℕ → Exec Db (List Text)
  unfolding now retire_each ◌>>=◌
  retire_rotating older_than = do
    rotating ← KeyRepo.list_by_status env key_rotating
    t ← now env
    retire_each older_than t rotating []

  unfoldable pub revoke : Text → Exec Db (Unit {0})
  unfolding now ◌>>=◌
  revoke kid = do t ← now env; KeyRepo.set_status env kid key_revoked (some t)
