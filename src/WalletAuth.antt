-- ===== src/WalletAuth.antt =====
-- server/internal/core/walletauth/walletauth.go: nonces for wallet signatures.
pub mod Binding
use ouro_pass.Base.{Text, text_eq, ℕ, ◌+◌, Bool, false, Option, none, some}
use ouro_pass.Store.Domain.{NoncePurpose, Db}
use ouro_pass.Store.Exec.{
  crypto_error, wrong_binding, Env, Exec, pure, ◌>>=◌, ◌>>◌, require, some_or, now, fresh,
}
use ouro_pass.Outside.{Outside}
use ouro_pass.Chain.RewardAddress.{stake_hash_from_reward_address}
use ouro_pass.Store.Nonces

module _ (env : Env) (out : Outside) (ttl : ℕ) where
  unfoldable pub challenge : NoncePurpose → Text → Exec Db (Text × ℕ)
  unfolding now fresh Nonces.create stake_hash_from_reward_address ◌>>=◌
  challenge purpose stake_address = do
    bound ← some_or (stake_hash_from_reward_address stake_address) crypto_error
    t ← now env
    nonce ← fresh env
    Nonces.create env (record {
      nonce = nonce;
      purpose = purpose;
      bound_key_hash = some bound;
      expires_at = t + ttl;
      consumed_at = none;
      created_at = t;
    })
    pure (nonce, t + ttl)

abbrev pub is_bound_to : Text → Option Text → Bool
is_bound_to key_hash none = false
is_bound_to key_hash (some bound) = text_eq bound key_hash

module _ (env : Env) (out : Outside) where
  unfoldable pub verify : NoncePurpose → Text → Text → Text → Exec Db Text
  unfolding now ◌>>=◌
  verify purpose cose_key nonce signature = do
    vkey ← some_or (out.stake_vkey_from_cose_key cose_key) crypto_error
    t ← now env
    rec ← Nonces.consume env nonce purpose t
    require (is_bound_to (out.key_hash vkey) rec.bound_key_hash) wrong_binding
    require (out.cose_verify vkey nonce signature) crypto_error
    pure (out.key_hash vkey)

  unfoldable pub purge_expired_nonces : Exec Db ℕ
  unfolding now Nonces.delete_expired ◌>>=◌
  purge_expired_nonces = do t ← now env; Nonces.delete_expired env t
