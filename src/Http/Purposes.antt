-- ===== src/Http/Purposes.antt =====
-- What the public endpoints of server/internal/httpapi give away.
use ouro_pass.Base.{
  Bool-cases, some_injective, is_unset, select, Text, lit, is_empty, text_eq, ℕ, ◌+◌, ◌≡◌, refl,
  sym, ap, ◌∙◌, ◌⊎◌, inl, inr, Bool, true, false, not, Option, none, some, List, [], ◌∷◌, ◌++◌,
  arith,
}
use ouro_pass.Store.Domain.{
  NoncePurpose, nonce_issue, nonce_activation, nonce_admin_login, nonce_step_up, AuthNonce, Db,
}
use ouro_pass.Store.Table.{find}
use ouro_pass.Store.Exec.{Env, World}
use ouro_pass.Store.Keeps.{Keeps, Keeps-insert, keeps_rules}
use ouro_pass.Outside.{Outside}
use ouro_pass.Http.Holds.{
  Holds, Holds-some_or_reply, Holds-or_reply, Holds-check, Holds-bind, Holds-some,
}
use ouro_pass.Http.Flow.{go, ◌>>=◌, bad_request, server_error, not_implemented, or_reply}
use ouro_pass.Http.AdminLogin.{Deps}
use ouro_pass.Http.Public.{
  member_nonce_purpose, ChallengeBody, TokenBody, auth_challenge, introspect,
}
use ouro_pass.Oauth.Live.{inactive, introspect_jti}
use ouro_pass.WalletAuth
use ouro_pass.Oauth.Live
use ouro_pass.Store.Nonces

-- A nonce of an administrator, for login or for step-up.
abbrev pub is_admin_nonce : AuthNonce → Bool
is_admin_nonce n = elim n.purpose [ nonce_admin_login ↦ true | nonce_step_up ↦ true | _ ↦ false ]

select-append :
    (p : AuthNonce → Bool) (rows : List AuthNonce) (n : AuthNonce)
    → p n ≡ false
    → select p (rows ++ (n ∷ [])) ≡ select p rows
select-append p [] n h = rw h
select-append p (x ∷ rows) n h = elim (Bool-cases (p x)) [
  | inl hit ↦ rw hit (ap (◌∷◌ x) (select-append p rows n h))
  | inr miss ↦ rw miss (select-append p rows n h)
]

member-purpose :
    (p : Text) (purpose : NoncePurpose)
    → member_nonce_purpose p ≡ some purpose
    → (purpose ≡ nonce_issue) ⊎ (purpose ≡ nonce_activation)
unfolding member_nonce_purpose
member-purpose p purpose h = elim (Bool-cases (text_eq p (lit "issue"))) [
  | inl issue ↦ inl (sym (some_injective (rw issue at h)))
  | inr other ↦ elim (Bool-cases (text_eq p (lit "activation"))) [
    | inl activation ↦ inr (sym (some_injective (rw (other, activation) at h)))
    | inr none_named ↦ absurd (ground (arith, other, none_named, h))
  ]
]

member-not_admin :
    (n : AuthNonce)
    → (n.purpose ≡ nonce_issue) ⊎ (n.purpose ≡ nonce_activation)
    → is_admin_nonce n ≡ false
member-not_admin n (inl e) = rw e
member-not_admin n (inr e) = rw e

module _ (env : Env) (out : Outside) (deps : Deps) where
  abbrev AdminNonces : List AuthNonce → Db → Type 0
  AdminNonces xs db = select is_admin_nonce db.nonces ≡ xs

  Keeps-create :
      (xs : List AuthNonce) (n : AuthNonce)
      → is_admin_nonce n ≡ false
      → Keeps (AdminNonces xs) (Nonces.create env n)
  unfolding Nonces.create
  Keeps-create xs n other =
      Keeps-insert env (λ db. is_unset (find Nonces.nonce_of n.nonce db.nonces))
        (λ db. record db { nonces = db.nonces ++ (n ∷ []) })
        (λ db _ h. select-append is_admin_nonce db.nonces n other ∙ h)

  abbrev issued : NoncePurpose → Text → Text → ℕ → AuthNonce
  issued purpose bound nonce t = record {
    nonce = nonce;
    purpose = purpose;
    bound_key_hash = some bound;
    expires_at = t + deps.nonce_ttl;
    consumed_at = none;
    created_at = t;
  }

  Keeps-challenge :
      (xs : List AuthNonce) (purpose : NoncePurpose) (address : Text)
      → (purpose ≡ nonce_issue) ⊎ (purpose ≡ nonce_activation)
      → Keeps (AdminNonces xs) (WalletAuth.challenge env out deps.nonce_ttl purpose address)
  unfolding WalletAuth.challenge
  Keeps-challenge xs purpose address member =
      let creates : (bound nonce : Text) (t : ℕ)
          → Keeps (AdminNonces xs) (Nonces.create env (issued purpose bound nonce t)) =
        λ bound nonce t.
          Keeps-create xs (issued purpose bound nonce t)
            (member-not_admin (issued purpose bound nonce t) member) in
      search (keeps_rules, creates) depth 20

  Holds-challenge :
      (xs : List AuthNonce) (decoded : Option ChallengeBody)
      → Holds (AdminNonces xs) (auth_challenge env out deps decoded)
  unfolding auth_challenge
  Holds-challenge xs decoded = Holds-bind _ _ (Holds-check deps.has_wallet not_implemented) λ _.
      Holds-bind _ _ (Holds-some_or_reply decoded (bad_request (lit "malformed JSON body"))) λ body.
        Holds-some (member_nonce_purpose body.purpose)
          (bad_request (lit "purpose must be issue or activation")) _
          λ purpose e.
            Holds-bind _ _
              (Holds-check (not (is_empty body.stake_address))
                (bad_request (lit "stake_address required")))
              λ _.
                Holds-or_reply (λ e. bad_request [])
                  (WalletAuth.challenge env out deps.nonce_ttl purpose body.stake_address)
                  (Keeps-challenge xs purpose body.stake_address
                    (member-purpose body.purpose purpose e))

  -- The public challenge endpoint neither issues nor spends a nonce for an administrator's login or
  -- step-up: whatever the request and the outcome, the nonces of these purposes stay as they are.
  pub auth_challenge-admin_nonces :
      (decoded : Option ChallengeBody) (w : World Db)
      → select is_admin_nonce (auth_challenge env out deps decoded w).1.db.nonces
        ≡ select is_admin_nonce w.db.nonces
  auth_challenge-admin_nonces decoded w =
      (Holds-challenge (select is_admin_nonce w.db.nonces) decoded).held w refl

  -- Introspection without a token answers that it is inactive, whatever `jti` the body names and
  -- whatever the tables hold, and reads none of them.
  pub introspect-blind :
      (body : TokenBody) (w : World Db)
      → deps.has_oauth ≡ true
      → is_empty body.token ≡ true
      → introspect env out deps body w ≡ (go inactive, w)
  unfolding introspect or_reply Live.introspect Live.introspect_jti ◌>>=◌
  introspect-blind body w here blank = rw here (blank_token body.token blank)
    where
      blank_token :
          (token : Text)
          → is_empty token ≡ true
          → or_reply server_error (Live.introspect env out token []) w ≡ (go inactive, w)
      blank_token [] e = refl
      blank_token (c ∷ s) e = absurd (cc)
