-- ===== src/Store/Keys.antt =====
-- server/internal/store/repo_issuerkey.go: the signing keys.
use ouro_pass.Base.{
  if◌then◌else◌, is_unset, select, Text, text_eq, ℕ, Bool, true, false, Option, List, [], ◌∷◌, ◌++◌,
}
use ouro_pass.Store.Table.{find, update}
use ouro_pass.Store.Domain.{
  KeyStatus, key_pending, key_active, key_rotating, key_retired, key_revoked, IssuerKey, Db,
}
use ouro_pass.Store.Exec.{not_found, Env, Exec, ◌>>=◌, some_or, query, exec, insert}
use ouro_pass.Store.Timestamp.{ts, stamp_lt}

abbrev pub kid_of : IssuerKey → Text
kid_of k = k.kid

abbrev pub same_key_status : KeyStatus → KeyStatus → Bool
same_key_status key_pending key_pending = true
same_key_status key_active key_active = true
same_key_status key_rotating key_rotating = true
same_key_status key_retired key_retired = true
same_key_status key_revoked key_revoked = true
same_key_status _ _ = false

abbrev pub in_status : KeyStatus → IssuerKey → Bool
in_status s k = same_key_status k.status s

-- `ORDER BY created_at`, which compares the stored texts; insertion keeps the order of equals.
unfoldable pub insert_by_created : IssuerKey → List IssuerKey → List IssuerKey
insert_by_created k [] = k ∷ []
insert_by_created k (x ∷ rows) =
    let rest = insert_by_created k rows in
    if stamp_lt (ts x.created_at) (ts k.created_at) then x ∷ rest else k ∷ x ∷ rows

unfoldable pub order_by_created : List IssuerKey → List IssuerKey
unfolding insert_by_created
order_by_created [] = []
order_by_created (k ∷ rows) = insert_by_created k (order_by_created rows)

module _ (env : Env) where
  unfoldable pub create : IssuerKey → Exec Db (Unit {0})
  unfolding insert
  create k =
      insert env (λ db. is_unset (find kid_of k.kid db.keys))
        (λ db. record db { keys = db.keys ++ (k ∷ []) })

  unfoldable pub set_status : Text → KeyStatus → Option ℕ → Exec Db (Unit {0})
  unfolding exec
  set_status kid s retired_at =
      exec env
        (λ db. record db {
          keys =
              update (λ k. text_eq k.kid kid)
                (λ k. record k { status = s; retired_at = retired_at }) db.keys;
        })
        (λ db. tt)

  unfoldable pub get : Text → Exec Db IssuerKey
  unfolding query ◌>>=◌
  get kid = do found ← query env (λ db. find kid_of kid db.keys); some_or found not_found

  unfoldable pub list_by_status : KeyStatus → Exec Db (List IssuerKey)
  unfolding query
  list_by_status s = query env (λ db. order_by_created (select (in_status s) db.keys))
