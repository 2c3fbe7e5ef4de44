-- ===== src/Keys/Rotation.antt =====
-- Signing keys under the operations of server/internal/core/keys/keys.go.
use ouro_pass.Store.Keys as KeyRepo
use ouro_pass.Base.{
  if◌then◌else◌, Option-cases, Text, text_eq, ℕ, ◌≡◌, refl, ap, ◌∙◌, inl, inr, Bool, true, false,
  Option, none, some, List, [], ◌∷◌,
}
use ouro_pass.Store.Table.{find, update, update_found, find-update, find-append}
use ouro_pass.Store.Domain.{KeyStatus, key_active, key_rotating, IssuerKey, Db}
use ouro_pass.Store.Exec.{Error, Env, World}
use ouro_pass.Store.Keeps.{Keeps, Keeps-pure, Keeps-exec, Keeps-insert, Keeps-bind, keeps_rules}
use ouro_pass.Outside.{Outside, ask}
use ouro_pass.Keys.{demote, default_kid, rotate}

-- The statuses of the published key set.
abbrev is_published : KeyStatus → Bool
is_published key_active = true
is_published key_rotating = true
is_published _ = false

-- The row of the key has the public key, and is active or rotating.
unfoldable pub IsPublished : Text → List ℕ → Db → Type 0
IsPublished kid public_key db =
    (k : IssuerKey) × (find KeyRepo.kid_of kid db.keys ≡ some k)
    × (k.public_key ≡ public_key)
    × (is_published k.status ≡ true)

abbrev demoted : IssuerKey → IssuerKey
demoted k = record k { status = key_rotating; retired_at = none }

IsPublished-demotion :
    (id kid : Text) (public_key : List ℕ) (db : Db)
    → IsPublished kid public_key db
    → IsPublished kid public_key
        (record db { keys = update (λ k. text_eq k.kid id) demoted db.keys })
unfolding IsPublished
IsPublished-demotion id kid public_key db (k, row, same, live) = (
  if text_eq k.kid id then demoted k else k,
  find-update KeyRepo.kid_of kid (λ k. text_eq k.kid id) demoted db.keys (λ r. refl)
      ∙ ap (update_found (λ k. text_eq k.kid id) demoted) row,
  kept (text_eq k.kid id),
  chosen (text_eq k.kid id),
)
  where
    kept : (b : Bool) → (if b then demoted k else k).public_key ≡ public_key
    kept true = same
    kept false = same

    chosen : (b : Bool) → is_published (if b then demoted k else k).status ≡ true
    chosen true = refl
    chosen false = live

module _ (env : Env) (out : Outside) (kid : Text) (public_key : List ℕ) where
  Keeps-demotion :
      (id : Text) → Keeps (IsPublished kid public_key) (KeyRepo.set_status env id key_rotating none)
  unfolding KeyRepo.set_status
  Keeps-demotion id = Keeps-exec env _ _ (λ db h. IsPublished-demotion id kid public_key db h)

  Keeps-create : (k : IssuerKey) → Keeps (IsPublished kid public_key) (KeyRepo.create env k)
  unfolding KeyRepo.create IsPublished
  Keeps-create k = Keeps-insert env _ _ (λ db allowed (x, row, same, live).
      (x, find-append KeyRepo.kid_of kid x db.keys (k ∷ []) row, same, live))

  Keeps-answer :
      {A : Type 0} (f : ℕ → Option A) (e : Error) → Keeps (IsPublished kid public_key) (ask f e)
  unfolding ask
  Keeps-answer f e = record {
    at = λ w h. elim (Option-cases (f w.tick)) [
      | inl n ↦ rw (ask, n) h
      | inr (a, n) ↦ rw (ask, n) h
    ];
  }

  Keeps-demote :
      (actives : List IssuerKey) → Keeps (IsPublished kid public_key) (demote env out actives)
  unfolding demote
  Keeps-demote [] = Keeps-pure tt
  Keeps-demote (k ∷ actives) = Keeps-bind _ _ (Keeps-demotion k.kid) (λ _. Keeps-demote actives)

  -- A rotation never withdraws a published key, whichever of its steps fails: a key that is active
  -- or rotating before is active or rotating after, with the same key id and the same public key.
  pub rotate-IsPublished :
      (w : World Db)
      → IsPublished kid public_key w.db
      → IsPublished kid public_key (rotate env out w).1.db
  unfolding rotate default_kid KeyRepo.list_by_status
  rotate-IsPublished w h =
      let k : Keeps (IsPublished kid public_key) (rotate env out) =
        search (keeps_rules, Keeps-answer, Keeps-demote, Keeps-create) depth 20 in
      k.at w h
