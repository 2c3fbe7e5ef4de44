-- ===== src/Oauth/Device.antt =====
-- The device key that a public client's grants are bound to, in server/internal/core/oauth/token.go.
use mathlib.Core.Path.{ap₂, subst}
use ouro_pass.Store.Grants
use ouro_pass.Base.{
  ◌==◌, some_injective, length, Text, is_empty, ℕ, ◌+◌, ◌≡◌, refl, sym, ap, ◌∙◌, true, false, some,
  List, [], ◌∷◌, ◌++◌,
}
use ouro_pass.Store.Table.{find}
use ouro_pass.Oauth.{Config}
use ouro_pass.Store.Domain.{ClientType, public, confidential, RefreshGrant, Db}
use ouro_pass.Store.Exec.{ok, Env, World}
use ouro_pass.Outside.{Outside}
use ouro_pass.Oauth.Request.{TokenRequest, TokenResponse, is_public, bound_device, new_grant}
use ouro_pass.Oauth.Token.{token_refresh}
use ouro_pass.Oauth.Refresh.{Refreshed, token_refresh-Refreshed}
use ouro_pass.Chain.Hex.{hex_decode, hex_encode, AreBytes, hex_decode-hex_encode}

bound_device-decoded :
    (text : Text) (dev : List ℕ)
    → is_empty text ≡ false
    → hex_decode text ≡ some dev
    → (length dev == 32) ≡ true
    → bound_device public text ≡ some dev
unfolding bound_device
bound_device-decoded [] dev given decoded long = absurd (cc)
bound_device-decoded (x ∷ text) dev given decoded long = rw (bound_device, decoded) (rw long refl)

hex_encode-full : (b : ℕ) (bytes : List ℕ) → is_empty (hex_encode (b ∷ bytes)) ≡ false
unfolding hex_encode
hex_encode-full b bytes = refl

bound-same :
    (c : ClientType) (device : List ℕ) (dev : List ℕ)
    → is_public c ≡ true
    → (length device == 32) ≡ true
    → AreBytes device
    → bound_device c (hex_encode device) ≡ some dev
    → dev ≡ device
bound-same confidential device dev p l h e = absurd (cc)
bound-same public [] dev p l h e = absurd (cc l)
bound-same public (b ∷ device) dev p l h e = some_injective (
    sym e
    ∙ bound_device-decoded (hex_encode (b ∷ device)) (b ∷ device) (hex_encode-full b device)
        (hex_decode-hex_encode (b ∷ device) h) l)

module _ (out : Outside) where
  Refreshed-device :
      (req : TokenRequest) (resp : TokenResponse) (at : ℕ) (before after : Db)
      → (r : Refreshed out req resp at before after) → is_public r.grant.client_type ≡ true
      → (length r.grant.bound_device_pubkey == 32) ≡ true
      → AreBytes r.grant.bound_device_pubkey
      → (n : RefreshGrant) × (rows : List RefreshGrant) × (after.grants ≡ rows ++ (n ∷ []))
        × (n.bound_device_pubkey ≡ r.grant.bound_device_pubkey)
        × (n.rotated_from ≡ some r.grant.refresh_grant_id)
  Refreshed-device req resp at before after r open_client long bytes =
      let (p, parent, _, _, type, device, minted) = r.succeeded in
      let (t, exp, jti, dev, bound, made, _) = minted.rows in
      (
        new_grant p (out.hash_token resp.refresh_token) dev t exp,
        _,
        ap (λ (d : Db). d.grants) made,
        bound-same r.grant.client_type r.grant.bound_device_pubkey dev open_client long bytes
            (ap₂ bound_device (sym type) (sym device) ∙ bound),
        parent,
      )

same_grant : {a b : RefreshGrant} → some a ≡ some b → a ≡ b
same_grant h = cc

module _ (env : Env) (out : Outside) (config : Config) where
  -- A refresh keeps the device binding: the successor of a public client's grant that is bound to a
  -- key of 32 bytes is bound to the same key.
  pub token_refresh-device :
      (req : TokenRequest) (resp : TokenResponse) (g : RefreshGrant) (w w' : World Db)
      → find Grants.grant_id (out.hash_token req.refresh_token) w.db.grants ≡ some g
      → is_public g.client_type ≡ true
      → (length g.bound_device_pubkey == 32) ≡ true
      → AreBytes g.bound_device_pubkey
      → token_refresh env out config req w ≡ (ok resp, w')
      → (n : RefreshGrant) × (rows : List RefreshGrant) × (w'.db.grants ≡ rows ++ (n ∷ []))
        × (n.bound_device_pubkey ≡ g.bound_device_pubkey)
        × (n.rotated_from ≡ some g.refresh_grant_id)
  token_refresh-device req resp g w w' row open_client long bytes h =
      let r = token_refresh-Refreshed env out config req resp w w' h in
      let e : g ≡ r.grant = same_grant (sym row ∙ r.row) in
      let (n, rows, last, device, parent) =
        Refreshed-device out req resp (env.time (w.tick + 1)) w.db w'.db r
          (ap (λ (x : RefreshGrant). is_public x.client_type) (sym e) ∙ open_client)
          (ap (λ (x : RefreshGrant). length x.bound_device_pubkey == 32) (sym e) ∙ long)
          (subst (λ x. AreBytes x.bound_device_pubkey) e bytes) in
      (
        n,
        rows,
        last,
        device ∙ ap (λ (x : RefreshGrant). x.bound_device_pubkey) (sym e),
        parent ∙ ap (λ (x : RefreshGrant). some x.refresh_grant_id) (sym e),
      )
