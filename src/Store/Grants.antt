-- ===== src/Store/Grants.antt =====
-- server/internal/store/repo_refreshgrant.go: refresh grants and their rotation chains.
pub mod Forest
pub mod Visit
pub mod Chain
use ouro_pass.Base.{
  ◌==◌, if◌then◌else◌, is_unset, length, Text, text_eq, ℕ, zero, suc, ◌^◌, Bool, true, false, not,
  ◌&&◌, none, some, List, [], ◌∷◌, ◌++◌,
}
use ouro_pass.Store.Table.{find, update, count}
use ouro_pass.Store.Domain.{
  GrantStatus, grant_active, grant_rotated, grant_revoked, RefreshGrant, Db,
}
use ouro_pass.Store.Exec.{
  not_found, shutdown, Env, Exec, pure, raise, ◌>>=◌, ◌>>◌, some_or, query, exec, with_tx, insert,
}

abbrev pub grant_id : RefreshGrant → Text
grant_id g = g.refresh_grant_id

abbrev pub has_id : Text → RefreshGrant → Bool
has_id id g = text_eq g.refresh_grant_id id

abbrev pub is_grant_active : RefreshGrant → Bool
is_grant_active g = elim g.status [ grant_active ↦ true | _ ↦ false ]

abbrev pub is_grant_revoked : RefreshGrant → Bool
is_grant_revoked g = elim g.status [ grant_revoked ↦ true | _ ↦ false ]

abbrev pub with_status : GrantStatus → RefreshGrant → RefreshGrant
with_status s g = record g { status = s }

abbrev pub rotated_from_is : Text → RefreshGrant → Bool
rotated_from_is id g = elim g.rotated_from [ none ↦ false | some p ↦ text_eq p id ]

-- `SELECT refresh_grant_id FROM RefreshGrant WHERE rotated_from = ?`
unfoldable pub children : Text → List RefreshGrant → List Text
children id [] = []
children id (g ∷ rows) =
    let rest = children id rows in if rotated_from_is id g then g.refresh_grant_id ∷ rest else rest

module _ (env : Env) where
  -- The primary key refuses a second row with the id.
  unfoldable pub create : RefreshGrant → Exec Db (Unit {0})
  unfolding insert
  create g =
      insert env (λ db. is_unset (find grant_id g.refresh_grant_id db.grants))
        (λ db. record db { grants = db.grants ++ (g ∷ []) })

  unfoldable pub get : Text → Exec Db RefreshGrant
  unfolding query find ◌>>=◌
  get id = do found ← query env (λ db. find grant_id id db.grants); some_or found not_found

  unfoldable pub set_status : Text → GrantStatus → Exec Db (Unit {0})
  unfolding exec
  set_status id s =
      exec env (λ db. record db { grants = update (has_id id) (with_status s) db.grants })
        (λ db. tt)

  -- The compare-and-swap: `true` only for the caller whose update found the grant active.
  unfoldable pub rotate_if_active : Text → Exec Db Bool
  unfolding exec
  rotate_if_active id =
      exec env
        (λ db. record db {
          grants =
              update (λ g. has_id id g && is_grant_active g) (with_status grant_rotated) db.grants;
        })
        (λ db. count (λ g. has_id id g && is_grant_active g) db.grants == 1)

  unfoldable pub revoke_by_stake_credential : Text → Exec Db ℕ
  unfolding exec
  revoke_by_stake_credential sch =
      let hit =
        λ (g : RefreshGrant). text_eq g.stake_credential_hash sch && not (is_grant_revoked g) in
      exec env (λ db. record db { grants = update hit (with_status grant_revoked) db.grants })
        (λ db. count hit db.grants)

  -- The breadth-first loop of `RevokeChain` over the ids still to be visited. The source loop has
  -- no bound: the fuel is only for the recursion, and running out of it is no outcome of the code.
  unfoldable pub revoke_loop : ℕ → List Text → Exec Db (Unit {0})
  unfolding set_status query children ◌>>=◌
  revoke_loop fuel [] = pure tt
  revoke_loop zero (cur ∷ ids) = raise shutdown
  revoke_loop (suc fuel) (cur ∷ ids) = do
    set_status cur grant_revoked
    found ← query env (λ db. children cur db.grants)
    revoke_loop fuel (ids ++ found)

  -- A walk of a table of n rows makes fewer than 2 ^ n + 1 rounds.
  unfoldable pub revoke_chain : Text → Exec Db (Unit {0})
  unfolding with_tx revoke_loop
  revoke_chain start w = with_tx env (revoke_loop (2 ^ length w.db.grants) (start ∷ [])) w
