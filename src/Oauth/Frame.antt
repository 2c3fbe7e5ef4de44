-- ===== src/Oauth/Frame.antt =====
-- The reads of server/internal/core/oauth/oauth.go and properties of the tables.
use ouro_pass.Store.Tokens
use ouro_pass.Base.{Text}
use ouro_pass.Store.Domain.{Db}
use ouro_pass.Store.Exec.{Env}
use ouro_pass.Store.Keeps.{Keeps, keeps_rules}
use ouro_pass.Outside.{Outside}
use ouro_pass.Oauth.{ask_attestors, evaluate, first_party_tier, attest_result, attest}

module _ (env : Env) (out : Outside) {P : Db → Type 0} where
  pub Keeps-attest : (sch : Text) → Keeps P (attest env out sch)
  unfolding attest evaluate ask_attestors attest_result first_party_tier Tokens.get_tier_rules
      Tokens.is_blacklisted
  Keeps-attest sch = search (keeps_rules) depth 12
