-- ===== src/Oauth/Replay.antt =====
-- A rotated token sent again: server/internal/core/oauth/token.go and store/repo_refreshgrant.go.
use ouro_pass.Store.Grants
use ouro_pass.Base.{ℕ, ◌+◌, ◌≡◌, refl, ap, ◌∙◌, false, some}
use ouro_pass.Store.Table.{find}
use ouro_pass.Store.Domain.{grant_rotated, RefreshGrant, Db}
use ouro_pass.Store.Exec.{
  invalid_grant, Result, err, Env, World, ◌>>=◌, or_error, ignore, now, query,
}
use ouro_pass.Outside.{Outside}
use ouro_pass.Store.Grants.{grant_id}
use ouro_pass.Store.Grants.Forest.{IsForest}
use ouro_pass.Store.Grants.Chain.{ChainRevoked, revoke_chain-ChainRevoked}
use ouro_pass.Oauth.{Config}
use ouro_pass.Oauth.Request.{TokenRequest}
use ouro_pass.Oauth.Token.{check_grant, token_refresh}

module _ (env : Env) (out : Outside) (config : Config) where
  replayed :
      (req : TokenRequest) (g : RefreshGrant) (w : World Db)
      → ((n : ℕ) → env.fault n ≡ false)
      → find grant_id (out.hash_token req.refresh_token) w.db.grants ≡ some g
      → g.status ≡ grant_rotated
      → token_refresh env out config req w ≡ (
        err invalid_grant,
        (Grants.revoke_chain env g.refresh_grant_id (record w { tick = w.tick + 1 + 1 })).1,
      )
  unfolding token_refresh or_error Grants.get query now check_grant ignore ◌>>=◌
  replayed req g w no_fault row rotated = rw (no_fault w.tick) (rw row (rw rotated refl))

  -- The token of a rotated grant, sent again while no statement fails and the rotations in the
  -- table form a forest, is refused, and the grant and its descendants are revoked and no other
  -- grant.
  pub token_refresh-replay :
      (req : TokenRequest) (g : RefreshGrant) (w : World Db)
      → ((n : ℕ) → env.fault n ≡ false)
      → IsForest w.db.grants
      → find grant_id (out.hash_token req.refresh_token) w.db.grants ≡ some g
      → g.status ≡ grant_rotated
      → (w' : World Db) × (token_refresh env out config req w ≡ (err invalid_grant, w'))
        × ChainRevoked g.refresh_grant_id w.db w'.db
  token_refresh-replay req g w no_fault forest row rotated =
      let (w', revoked, chain) =
        revoke_chain-ChainRevoked env g.refresh_grant_id (record w { tick = w.tick + 1 + 1 })
          no_fault forest in
      (
        w',
        replayed req g w no_fault row rotated
            ∙ ap (λ (x : Result (Unit {0}) × World Db). (err invalid_grant, x.1)) revoked,
        chain,
      )
