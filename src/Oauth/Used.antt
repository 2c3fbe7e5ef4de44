-- ===== src/Oauth/Used.antt =====
-- Used refresh tokens in server/internal/core/oauth/token.go.
use ouro_pass.Base.{
  if◌then◌else◌, Text, text_eq_refl, ℕ, ◌≡◌, refl, sym, ap, ◌∙◌, ◌≢◌, Bool, true, false, none, some,
  [], ◌∷◌, ◌++◌,
}
use ouro_pass.Store.Table.{find, update, update_found, find-update, find-append}
use ouro_pass.Store.Domain.{public, GrantStatus, grant_active, grant_rotated, RefreshGrant, Db}
use ouro_pass.Store.Exec.{ok, Env, World}
use ouro_pass.Outside.{Outside}
use ouro_pass.Store.Grants.{grant_id, is_grant_active, with_status}
use ouro_pass.Oauth.{Config}
use ouro_pass.Oauth.Request.{TokenRequest, TokenResponse, new_grant}
use ouro_pass.Oauth.Token.{token_refresh}
use ouro_pass.Oauth.Checks.{is_active_grant}
use ouro_pass.Oauth.Refresh.{Refreshed, token_refresh-Refreshed}

abbrev pub empty_grant : RefreshGrant
empty_grant = record {
  refresh_grant_id = [];
  stake_credential_hash = [];
  audience = [];
  client_type = public;
  bound_device_pubkey = [];
  client_id = none;
  status = grant_active;
  rotated_from = none;
  created_at = 0;
  expires_at = none;
}

-- The grant of a token is there, and it is not active.
unfoldable pub IsUsed : Text → Db → Type 0
IsUsed id db =
    (g : RefreshGrant) × (find grant_id id db.grants ≡ some g) × (is_grant_active g ≡ false)

-- An update that keeps ids and makes no grant active, and an insertion, keep a used grant used.
pub IsUsed-update :
    (id : Text) (db : Db) (p : RefreshGrant → Bool) (status : GrantStatus)
    → is_grant_active (with_status status empty_grant) ≡ false
    → IsUsed id db
    → IsUsed id (record db { grants = update p (with_status status) db.grants })
unfolding IsUsed
IsUsed-update id db p status dead (g, row, used) = (
  if p g then with_status status g else g,
  find-update grant_id id p (with_status status) db.grants (λ r. refl)
      ∙ ap (update_found p (with_status status)) row,
  chosen (p g),
)
  where
    chosen : (b : Bool) → is_grant_active (if b then with_status status g else g) ≡ false
    chosen true = dead
    chosen false = used

pub IsUsed-insert :
    (id : Text) (db : Db) (g : RefreshGrant)
    → IsUsed id db
    → IsUsed id (record db { grants = db.grants ++ (g ∷ []) })
unfolding IsUsed
IsUsed-insert id db g (x, row, used) = (x, find-append grant_id id x db.grants (g ∷ []) row, used)

module _ (out : Outside) where
  IsUsed-rotated :
      (id : Text) (g : RefreshGrant) (db : Db)
      → find grant_id id db.grants ≡ some g
      → is_grant_active g ≡ true
      → IsUsed id (record db {
        grants = update (is_active_grant g.refresh_grant_id) (with_status grant_rotated) db.grants;
      })
  unfolding IsUsed
  IsUsed-rotated id g db row live = (
    with_status grant_rotated g,
    find-update grant_id id (is_active_grant g.refresh_grant_id) (with_status grant_rotated)
          db.grants (λ r. refl)
        ∙ ap (update_found (is_active_grant g.refresh_grant_id) (with_status grant_rotated)) row
        ∙ rw (text_eq_refl g.refresh_grant_id, live),
    refl,
  )

  -- A refresh uses the grant of its token up.
  pub Refreshed-IsUsed :
      (req : TokenRequest) (resp : TokenResponse) (at : ℕ) (before after : Db)
      → Refreshed out req resp at before after
      → IsUsed (out.hash_token req.refresh_token) after
  unfolding IsUsed
  Refreshed-IsUsed req resp at before after r =
      let (p, _, _, _, _, _, minted) = r.succeeded in
      let (t, exp, jti, dev, _, made, _) = minted.rows in
      let rotated =
        IsUsed-rotated (out.hash_token req.refresh_token) r.grant before r.row r.was_active in
      let (g, row, used) = rotated in
      (
        g,
        ap (λ (d : Db). find grant_id (out.hash_token req.refresh_token) d.grants) made
            ∙ find-append grant_id (out.hash_token req.refresh_token) g
                (update (is_active_grant r.grant.refresh_grant_id) (with_status grant_rotated)
                  before.grants)
                (new_grant p (out.hash_token resp.refresh_token) dev t exp ∷ []) row,
        used,
      )

module _ (env : Env) (out : Outside) (config : Config) where
  -- A used token never gives tokens.
  pub token_refresh-IsUsed :
      (req : TokenRequest) (resp : TokenResponse) (w w' : World Db)
      → IsUsed (out.hash_token req.refresh_token) w.db
      → token_refresh env out config req w ≢ (ok resp, w')
  unfolding IsUsed
  token_refresh-IsUsed req resp w w' (g, row, used) h =
      let r = token_refresh-Refreshed env out config req resp w w' h in
      let same : some r.grant ≡ some g = sym r.row ∙ row in cc
