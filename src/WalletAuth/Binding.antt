-- ===== src/WalletAuth/Binding.antt =====
-- A verified wallet signature of server/internal/core/walletauth/walletauth.go.
use ouro_pass.Store.Nonces
use mathlib.Core.Path.{subst}
use ouro_pass.Base.{
  Option-cases, Text, text_eq_sound, ℕ, ◌≡◌, refl, ap, ◌∙◌, ◌≢◌, inl, inr, true, Option, none, some,
  List, arith,
}
use ouro_pass.Store.Domain.{NoncePurpose, AuthNonce, Db}
use ouro_pass.Store.Exec.{
  crypto_error, wrong_binding, Result, ok, err, Env, World, next, pure, continue, ◌>>=◌, ◌>>◌,
  require,
}
use ouro_pass.Outside.{Outside}
use ouro_pass.WalletAuth.{is_bound_to, verify}

module _ (env : Env) (out : Outside) where
  -- What `Verify` secures when it returns a stake credential hash: the hash is that of a key that
  -- signed the nonce, the nonce was issued to that hash for the same purpose, it was unused and not
  -- past its expiry at the given time, and it is spent.
  pub record Verified (purpose : NoncePurpose) (nonce signature hash : Text) (t : ℕ)
      (before after : Db) : Type 0 where
    pub signed :
        (vkey : List ℕ) × (out.key_hash vkey ≡ hash) × (out.cose_verify vkey nonce signature ≡ true)
    pub used :
        (n : AuthNonce) × Nonces.Used nonce purpose t n before after
        × (n.bound_key_hash ≡ some hash)

  verify_tail :
      (vkey : List ℕ) (nonce signature : Text) (r : Result AuthNonce) (w : World Db) (hash : Text)
      (w' : World Db)
      → continue r
          (λ n. do
            require (is_bound_to (out.key_hash vkey) n.bound_key_hash) wrong_binding
            require (out.cose_verify vkey nonce signature) crypto_error
            pure (out.key_hash vkey))
          w
        ≡ (ok hash, w')
      → (n : AuthNonce) × (r ≡ ok n)
        × (is_bound_to (out.key_hash vkey) n.bound_key_hash ≡ true)
        × (out.cose_verify vkey nonce signature ≡ true)
        × (out.key_hash vkey ≡ hash)
        × (w.db ≡ w'.db)
  unfolding ◌>>=◌
  verify_tail vkey nonce signature (err e) w hash w' h = absurd (cc)
  verify_tail vkey nonce signature (ok n) w hash w' h =
      (n, refl, ground arith, ground arith, ground arith, ground arith)

  bound_hash : (hash : Text) (b : Option Text) → is_bound_to hash b ≡ true → b ≡ some hash
  bound_hash hash none h = absurd (cc)
  bound_hash hash (some b) h = ap some (text_eq_sound b hash h)

  Verified-of_parts :
      (purpose : NoncePurpose) (nonce signature hash : Text) (vkey : List ℕ) (t : ℕ) (n : AuthNonce)
      (before mid after : Db)
      → Nonces.Used nonce purpose t n before mid
      → mid ≡ after
      → is_bound_to (out.key_hash vkey) n.bound_key_hash ≡ true
      → out.cose_verify vkey nonce signature ≡ true
      → out.key_hash vkey ≡ hash
      → Verified purpose nonce signature hash t before after
  Verified-of_parts purpose nonce signature hash vkey t n before mid after used e bound signed
        same =
      record {
        signed = (vkey, same, signed);
        used = (
          n,
          subst (Nonces.Used nonce purpose t n before) e used,
          bound_hash (out.key_hash vkey) n.bound_key_hash bound ∙ ap some same,
        );
      }

  verify_known :
      (purpose : NoncePurpose) (cose_key nonce signature hash : Text) (vkey : List ℕ)
      (w w' : World Db)
      → out.stake_vkey_from_cose_key cose_key ≡ some vkey
      → verify env out purpose cose_key nonce signature w ≡ (ok hash, w')
      → Verified purpose nonce signature hash (env.time w.tick) w.db w'.db
  unfolding verify
  verify_known purpose cose_key nonce signature hash vkey w w' known h =
      let t = env.time w.tick in
      let step = Nonces.consume env nonce purpose t (next w) in
      let (n, e, bound, signed, same, dbs) =
        verify_tail vkey nonce signature step.0 step.1 hash w'
          (unfold verify ◌>>=◌ in (rw known at h)) in
      Verified-of_parts purpose nonce signature hash vkey t n w.db step.1.db w'.db
        (Nonces.consume-Used env nonce purpose t (next w) n step.1 (λ i. (e i, step.1))) dbs bound
        signed same

  verify_unknown :
      (purpose : NoncePurpose) (cose_key nonce signature hash : Text) (w w' : World Db)
      → out.stake_vkey_from_cose_key cose_key ≡ none
      → verify env out purpose cose_key nonce signature w ≢ (ok hash, w')
  unfolding verify
  verify_unknown purpose cose_key nonce signature hash w w' unknown h =
      let k = rw unknown at h in cc

  -- When `Verify` accepts a wallet signature and returns a credential hash: the hash is that of a key
  -- whose signature over the nonce is valid, the nonce was stored for the same purpose, issued to that
  -- hash, unused and not past its expiry at the time the call reads, and in the tables after, which
  -- are otherwise the same, it is spent.
  pub verify-Verified :
      (purpose : NoncePurpose) (cose_key nonce signature hash : Text) (w w' : World Db)
      → verify env out purpose cose_key nonce signature w ≡ (ok hash, w')
      → Verified purpose nonce signature hash (env.time w.tick) w.db w'.db
  verify-Verified purpose cose_key nonce signature hash w w' h =
      elim (Option-cases (out.stake_vkey_from_cose_key cose_key)) [
        | inl unknown ↦ absurd (verify_unknown purpose cose_key nonce signature hash w w' unknown h)
        | inr (vkey, known) ↦ verify_known purpose cose_key nonce signature hash vkey w w' known h
      ]
