-- ===== src/Store/Activations.antt =====
-- server/internal/store/repo_activationcode.go: one-time channel activation codes.
use ouro_pass.Base.{
  ltb, ◌==◌, Bool-cases, Option-cases, is_unset, Text, is_empty, text_eq, text_eq_sound,
  text_eq_complete, ℕ, ◌≤◌, ◌≡◌, refl, sym, ap, ◌∙◌, ◌≢◌, inl, inr, Bool, true, not, ◌&&◌, ◌||◌,
  none, some, [], ◌∷◌, ◌++◌, arith,
}
use ouro_pass.Store.Table.{find, update, count, find-update, find-key}
use ouro_pass.Store.Domain.{activation_consumed, ActivationCode, Db}
use ouro_pass.Store.Exec.{
  Error, db_error, not_found, consumed, expired, purpose_mismatch, Result, ok, err, Env, World,
  Exec, next, pure, ◌>>=◌, ◌>>◌, ok_injective, require, some_or, now, query, exec, with_tx,
  with_tx-cases, insert,
}

abbrev pub activation_of : ActivationCode → Text
activation_of a = a.code

abbrev pub unconsumed_activation : Text → ActivationCode → Bool
unconsumed_activation code a = text_eq a.code code && is_unset a.consumed_at

abbrev pub consume_activation_at : ℕ → ActivationCode → ActivationCode
consume_activation_at now a = record a { status = activation_consumed; consumed_at = some now }

-- A code that is bound to one instance is refused by every other instance.
abbrev pub instance_allows : Text → Text → Bool
instance_allows wanted bound = is_empty wanted || is_empty bound || text_eq bound wanted

module _ (env : Env) where
  unfoldable pub create : ActivationCode → Exec Db (Unit {0})
  unfolding insert
  create a =
      insert env (λ db. is_unset (find activation_of a.code db.activation_codes))
        (λ db. record db { activation_codes = db.activation_codes ++ (a ∷ []) })

  unfoldable pub mark_consumed : Text → ℕ → Exec Db ℕ
  unfolding exec
  mark_consumed code now =
      exec env
        (λ db. record db {
          activation_codes =
              update (unconsumed_activation code) (consume_activation_at now) db.activation_codes;
        })
        (λ db. count (unconsumed_activation code) db.activation_codes)

  unfoldable pub consume_body : Text → Text → Text → ℕ → Exec Db ActivationCode
  unfolding query mark_consumed ◌>>=◌
  consume_body code channel_type channel_id now = do
    found ← query env (λ db. find activation_of code db.activation_codes)
    a ← some_or found not_found
    require (text_eq a.channel_type channel_type) purpose_mismatch
    require (instance_allows channel_id a.channel_id) purpose_mismatch
    require (is_unset a.consumed_at) consumed
    require (not (ltb a.expires_at now)) expired
    n ← mark_consumed code now
    require (not (n == 0)) consumed
    pure (record a { status = activation_consumed })

  unfoldable pub consume : Text → Text → Text → ℕ → Exec Db ActivationCode
  unfolding with_tx consume_body
  consume code channel_type channel_id now =
      with_tx env (consume_body code channel_type channel_id now)

-- What a successful redemption says of the row, and what it does to the table.
pub record Activated (code channel_type channel_id : Text) (now : ℕ) (a : ActivationCode)
    (before after : Db) : Type 0 where
  pub row :
      (r : ActivationCode) × (find activation_of code before.activation_codes ≡ some r)
      × (a ≡ record r { status = activation_consumed })
      × (r.consumed_at ≡ none)
  pub right_type : a.channel_type ≡ channel_type
  pub right_instance : instance_allows channel_id a.channel_id ≡ true
  pub in_time : now ≤ a.expires_at
  pub after_db : after ≡ record before {
    activation_codes =
        update (unconsumed_activation code) (consume_activation_at now) before.activation_codes;
  }

pub IsSpent : Text → Db → Type 0
IsSpent code db =
    (a : ActivationCode) × (t : ℕ) × (find activation_of code db.activation_codes ≡ some a)
    × (a.consumed_at ≡ some t)

module _ (env : Env) where
  consume_body-Activated :
      (code channel_type channel_id : Text) (now : ℕ) (w : World Db) (a : ActivationCode)
      (w' : World Db) (r : ActivationCode)
      → find activation_of code w.db.activation_codes ≡ some r
      → consume_body env code channel_type channel_id now w ≡ (ok a, w')
      → Activated code channel_type channel_id now a w.db w'.db
  unfolding consume_body
  consume_body-Activated code channel_type channel_id now w a w' r row h =
      let status : a ≡ record r { status = activation_consumed } = ground arith in
      let unset : r.consumed_at ≡ none = ground arith in
      record {
        row = (r, row, status, unset);
        right_type = ground (arith, text_eq_sound r.channel_type channel_type);
        right_instance = ground arith;
        in_time = ground arith;
        after_db = ground arith;
      }

  consume_body_missing :
      (code channel_type channel_id : Text) (now : ℕ) (w : World Db) (a : ActivationCode)
      (w' : World Db)
      → find activation_of code w.db.activation_codes ≡ none
      → consume_body env code channel_type channel_id now w ≢ (ok a, w')
  unfolding consume_body
  consume_body_missing code channel_type channel_id now w a w' row h = ground arith

  -- An activation code that is consumed was stored for the same channel type, for this instance or
  -- for none, unused and not past its expiry, and is marked as used, and nothing else changes.
  pub consume-Activated :
      (code channel_type channel_id : Text) (now : ℕ) (w : World Db) (a : ActivationCode)
      (w' : World Db)
      → consume env code channel_type channel_id now w ≡ (ok a, w')
      → Activated code channel_type channel_id now a w.db w'.db
  unfolding consume
  consume-Activated code channel_type channel_id now w a w' h =
      elim (with_tx-cases env (consume_body env code channel_type channel_id now) w) [
        | inl (b, w1, e, k) ↦
            let same_row : b ≡ a =
              ok_injective (ap (λ (x : Result ActivationCode × World Db). x.0) (sym k ∙ h)) in
            let same_db : w1.db ≡ w'.db =
              ap (λ (x : Result ActivationCode × World Db). x.1.db) (sym k ∙ h) in
            elim (Option-cases (find activation_of code w.db.activation_codes)) [
              | inl missing ↦
                  absurd
                    (consume_body_missing code channel_type channel_id now (next w) b w1 missing e)
              | inr (r, row) ↦
                  rw (← same_row, ← same_db)
                    (consume_body-Activated code channel_type channel_id now (next w) b w1 r row e)
            ]
        | inr (e, w1, k, same) ↦ absurd (cc)
      ]

pub Activated-IsSpent :
    (code channel_type channel_id : Text) (now : ℕ) (a : ActivationCode) (before after : Db)
    → Activated code channel_type channel_id now a before after
    → IsSpent code after
unfolding IsSpent
Activated-IsSpent code channel_type channel_id now a before after r =
    let (row, found, _, unset) = r.row in
    let id = find-key activation_of code before.activation_codes row found in
    (
      consume_activation_at now row,
      now,
      ap (λ (d : Db). find activation_of code d.activation_codes) r.after_db
          ∙ find-update activation_of code (unconsumed_activation code) (consume_activation_at now)
              before.activation_codes (λ x. refl)
          ∙ rw found (rw (text_eq_complete row.code code id, unset)),
      refl,
    )

module _ (env : Env) where
  spent_body-fails :
      (code channel_type channel_id : Text) (now : ℕ) (w : World Db)
      → IsSpent code w.db
      → (e : Error) × (w' : World Db) × (consume_body env code channel_type channel_id now w
          ≡ (err e, w'))
        × (w'.db ≡ w.db)
  unfolding consume_body IsSpent
  spent_body-fails code channel_type channel_id now w (a, t, row, used) =
      elim (Bool-cases (env.fault w.tick)) [
        | inl f ↦ (db_error, next w, rw f, refl)
        | inr f ↦ elim (Bool-cases (text_eq a.channel_type channel_type)) [
          | inr other ↦ (purpose_mismatch, next w, rw f (rw row (rw other)), refl)
          | inl right ↦ elim (Bool-cases (instance_allows channel_id a.channel_id)) [
            | inr other ↦ (purpose_mismatch, next w, rw f (rw row (rw right (rw other))), refl)
            | inl allowed ↦
                (consumed, next w, rw f (rw row (rw right (rw allowed (rw used)))), refl)
          ]
        ]
      ]

  -- A spent code is refused by every bot at every time, and stays spent.
  pub consume-IsSpent :
      (code channel_type channel_id : Text) (now : ℕ) (w : World Db)
      → IsSpent code w.db
      → (e : Error) × (w' : World Db) × (consume env code channel_type channel_id now w
          ≡ (err e, w'))
        × (w'.db ≡ w.db)
  unfolding consume
  consume-IsSpent code channel_type channel_id now w s =
      elim (with_tx-cases env (consume_body env code channel_type channel_id now) w) [
        | inl (a, w1, e, k) ↦
            let (e', w2, k', _) = spent_body-fails code channel_type channel_id now (next w) s in
            absurd (cc)
        | inr (e, w1, k, same) ↦ (e, w1, k, same)
      ]
