-- ===== src/Telegram/Settings.antt =====
-- server/internal/worker/telegram/channelconfig.go: the stored form of a bot's configuration.
use ouro_pass.Base.{
  leb, if◌then◌else◌, length, Text, is_empty, ℕ, ◌-◌, Option, none, some, List, [], ◌∷◌, ◌++◌, map,
}
use ouro_pass.Store.Domain.{Db}
use ouro_pass.Store.Exec.{crypto_error, Exec, pure, ◌>>=◌}
use ouro_pass.Outside.{BotConfig, Outside, ask}
use ouro_pass.Chain.Hex.{hex_decode, hex_encode}
use ouro_pass.Go.Strings.{take, drop}

-- `TokenHint`, on the runes of the token.
unfoldable pub token_hint : Text → Text
unfolding take drop
token_hint plain =
    if leb (length plain) 8
    then map (λ c. 0x2022) plain
    else take 4 plain ++ (0x2026 ∷ drop (length plain - 4) plain)

abbrev pub username_of : Option BotConfig → Text
username_of none = []
username_of (some c) = c.bot_username

module _ (out : Outside) where
  unfoldable pub decode_username : Text → Text
  decode_username config = username_of (out.unmarshal_bot config)

  abbrev pub decrypted : Option (List ℕ) → Option Text
  decrypted none = none
  decrypted (some raw) = out.decrypt raw

  abbrev pub token_of : Option BotConfig → Option Text
  token_of none = none
  token_of (some c) =
      if is_empty c.bot_token_enc then some [] else decrypted (hex_decode c.bot_token_enc)

  -- `DecodeToken`: `none` for an error, and the empty text where there is no token.
  unfoldable pub decode_token : Text → Option Text
  unfolding hex_decode
  decode_token config = token_of (out.unmarshal_bot config)

  abbrev pub sealed_config : Text → List ℕ → Text
  sealed_config username enc =
      out.marshal_bot (record { bot_token_enc = hex_encode enc; bot_username = username })

  -- `EncodeConfig`
  unfoldable pub encode_config : Text → Text → Exec Db Text
  unfolding ask hex_encode ◌>>=◌
  encode_config plain username = do
    enc ← ask (λ n. out.encrypt n plain) crypto_error
    pure (sealed_config username enc)
