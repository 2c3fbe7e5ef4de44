-- ===== src/Tests/Access.antt =====
-- Witnesses of the theorems on wallets, administrators, one-time codes and keys.
use ouro_pass.Base.{Text, lit, text_eq, ◌≡◌, refl, none, some, [], ◌∷◌}
use ouro_pass.Store.Table.{find, update, count}
use ouro_pass.Store.Domain.{
  activation_consumed, nonce_issue, AdminRole, owner, AuthorizationCode, ActivationCode, AuthNonce,
  Db,
}
use ouro_pass.Store.Exec.{Error, Result, ok, err, World}
use ouro_pass.Outside.{Outside}
use ouro_pass.WalletAuth.Binding.{Verified, verify-Verified}
use ouro_pass.Admin.{AdminConfig, logout}
use ouro_pass.Admin.Login.{LoggedIn, verify-LoggedIn}
use ouro_pass.Keys.Rotation.{IsPublished, rotate-IsPublished}
use ouro_pass.Telegram.{Reply, try_later, Processor, activate}
use ouro_pass.Telegram.Command.{Consumed, activate-Consumed}
use ouro_pass.Tests.{
  steady, wallets, stored_code, login_nonce, signing_key, activation, office, start,
}
use ouro_pass.WalletAuth
use ouro_pass.Admin
use ouro_pass.Keys
use ouro_pass.Store.Codes
use ouro_pass.Store.Nonces
use ouro_pass.Store.Activations

abbrev verified : Result Text × World Db
verified = WalletAuth.verify steady wallets nonce_issue (lit "ab") (lit "n") (lit "n") start

verified_ok : verified ≡ (ok (lit "ab"), verified.1)
unfolding WalletAuth.verify text_eq Nonces.consume count find
verified_ok = refl

verify-Verified_example :
    Verified steady wallets nonce_issue (lit "n") (lit "n") (lit "ab") 1000 office verified.1.db
verify-Verified_example =
    verify-Verified steady wallets nonce_issue (lit "ab") (lit "n") (lit "n") (lit "ab") start
      verified.1 verified_ok

abbrev owners : AdminConfig
owners = record { owner_key_hashes = lit "ab" ∷ []; pool_id = lit "pool"; session_ttl = 100 }

abbrev logged_in : Result (Text × AdminRole) × World Db
logged_in = Admin.verify steady wallets owners (lit "ab") (lit "m") (lit "m") [] start

abbrev token_of : Result (Text × AdminRole) → Text
token_of (ok x) = x.0
token_of (err e) = []

logged_in_ok : logged_in ≡ (ok (token_of logged_in.0, owner), logged_in.1)
unfolding Admin.verify text_eq Nonces.consume count
logged_in_ok = refl

verify-LoggedIn_example :
    LoggedIn steady wallets owners
      (lit "m")
      (lit "m")
      (token_of logged_in.0)
      owner
      start
      logged_in.1
verify-LoggedIn_example =
    verify-LoggedIn steady wallets owners (lit "ab") (lit "m") (lit "m") [] (token_of logged_in.0)
      owner start logged_in.1 logged_in_ok

abbrev logged_out : Result (Unit {0}) × World Db
logged_out = Admin.logout steady wallets owners (token_of logged_in.0) logged_in.1

logged_out_ok : logged_out ≡ (ok tt, logged_out.1)
unfolding Admin.logout
logged_out_ok = refl

abbrev redeemed : Result AuthorizationCode × World Db
redeemed = Codes.consume steady (lit "#k") 2000 start

redeemed_ok : redeemed ≡ (ok stored_code, redeemed.1)
unfolding Codes.consume find text_eq count
redeemed_ok = refl

IsSpent-code : Codes.IsSpent (lit "#k") redeemed.1.db
unfolding Codes.IsSpent Codes.consume find text_eq count update
IsSpent-code = (record stored_code { consumed_at = some 2000 }, 2000, refl, refl)

consume-IsSpent_example :
    (e : Error) × (w' : World Db) × (Codes.consume steady (lit "#k") 2000 redeemed.1 ≡ (err e, w'))
    × (w'.db ≡ redeemed.1.db)
consume-IsSpent_example = Codes.consume-IsSpent steady (lit "#k") 2000 redeemed.1 IsSpent-code

abbrev used_nonce : Result AuthNonce × World Db
used_nonce = Nonces.consume steady (lit "n") nonce_issue 2000 start

used_nonce_ok : used_nonce ≡ (ok (login_nonce nonce_issue (lit "n")), used_nonce.1)
unfolding Nonces.consume find text_eq count
used_nonce_ok = refl

abbrev spent_activation : ActivationCode
spent_activation = record activation { status = activation_consumed }

abbrev activated : Result ActivationCode × World Db
activated = Activations.consume steady (lit "#s") (lit "telegram") [] 2000 start

activated_ok : activated ≡ (ok spent_activation, activated.1)
unfolding Activations.consume find text_eq count
activated_ok = refl

abbrev bot : Processor
bot = record { pool_id = lit "pool"; channel_id = [] }

abbrev unreachable : Outside
unreachable = record wallets { attestors = λ n sch. none }

abbrev replied : Result Reply × World Db
replied = activate steady unreachable bot (lit "u") (lit "s") start

replied_later : replied ≡ (ok try_later, replied.1)
unfolding activate Activations.consume find text_eq count
replied_later = refl

activate-Consumed_example : Consumed steady unreachable bot (lit "s") 1000 office replied.1.db
activate-Consumed_example =
    activate-Consumed steady unreachable bot (lit "u") (lit "s") start replied.1 try_later
      replied_later refl

IsPublished-key : IsPublished (lit "key") (1 ∷ []) office
unfolding IsPublished find text_eq
IsPublished-key = (signing_key, refl, refl, refl)

rotate-IsPublished_example :
    IsPublished (lit "key") (1 ∷ []) (Keys.rotate steady wallets start).1.db
rotate-IsPublished_example =
    rotate-IsPublished steady wallets (lit "key") (1 ∷ []) start IsPublished-key
