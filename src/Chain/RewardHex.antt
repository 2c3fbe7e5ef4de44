-- ===== src/Chain/RewardHex.antt =====
-- Reward addresses in hexadecimal: server/internal/utils/chain/rewardaddr.go.
use ouro_pass.Base.{
  ◌==◌, if◌then◌else◌, Bool-cases, some_injective, length, Text, lit, is_empty, ℕ, ◌/◌, ◌%◌, ◌^◌,
  ◌<◌, ◌≡◌, refl, ◌∙◌, inl, inr, Bool, true, false, ◌&&◌, Option, none, some, List, [], ◌∷◌, arith,
}
use ouro_pass.Go.Strings.{has_prefix, is_space, trim_left, trim_right, trim_space, lower, to_lower}
use ouro_pass.Chain.Hex.{
  hex_decode, hex_digit, hex_encode, AreBytes, hex_decode-hex_encode, length-hex_encode,
}
use ouro_pass.Chain.RewardAddress.{
  bech32_decode, unwrap_cbor_bytes, is_reward_header, credential_of, regrouped, address_bytes,
  payload_of, stake_hash_from_reward_address,
}

-- No hexadecimal digit is white space, or the letter that a bech32 stake address starts with.
hex_digit-plain :
    (n : ℕ) → n < 16 → (is_space (hex_digit n) ≡ false) × ((lower (hex_digit n) == b's') ≡ false)
hex_digit-plain n h = (ground arith, ground arith)

abbrev NoSpace : Text → Type 0
NoSpace [] = Unit
NoSpace (c ∷ s) = (is_space c ≡ false) × NoSpace s

hex_encode-NoSpace : (bytes : List ℕ) → AreBytes bytes → NoSpace (hex_encode bytes)
unfolding hex_encode
hex_encode-NoSpace [] h = tt
hex_encode-NoSpace (b ∷ bytes) h = (
  (hex_digit-plain (b / 16) (omega (arith, h.0))).0,
  ((hex_digit-plain (b % 16) (omega arith)).0, hex_encode-NoSpace bytes h.1),
)

trim_right-plain : (s : Text) → NoSpace s → trim_right s ≡ s
unfolding trim_right
trim_right-plain [] h = refl
trim_right-plain (c ∷ s) h = elim (Bool-cases (is_empty s)) [
  | inl last ↦ rw (trim_right-plain s h.1) (rw (last, h.0) refl)
  | inr more ↦ rw (trim_right-plain s h.1) (rw more refl)
]

trim_space-plain : (s : Text) → NoSpace s → trim_space s ≡ s
unfolding trim_space trim_left
trim_space-plain [] h = trim_right-plain [] tt
trim_space-plain (c ∷ s) h = rw h.0 (trim_right-plain (c ∷ s) h)

hex_encode-first :
    (b : ℕ) (bytes : List ℕ)
    → AreBytes (b ∷ bytes)
    → (has_prefix (to_lower (hex_encode (b ∷ bytes))) (lit "stake") ≡ false)
      × (is_empty (hex_encode (b ∷ bytes)) ≡ false)
unfolding hex_encode has_prefix to_lower
hex_encode-first b bytes h = (rw (hex_digit-plain (b / 16) (omega (arith, h.0))).1 refl, refl)

-- A first byte and the bytes after it, in hexadecimal, are read back.
hex-payload :
    (b : ℕ) (bytes : List ℕ)
    → AreBytes (b ∷ bytes)
    → stake_hash_from_reward_address (hex_encode (b ∷ bytes)) ≡ payload_of (some (b ∷ bytes))
unfolding stake_hash_from_reward_address address_bytes
hex-payload b bytes h =
    rw (trim_space-plain (hex_encode (b ∷ bytes)) (hex_encode-NoSpace (b ∷ bytes) h)) (
      read (hex_encode (b ∷ bytes)) (hex_encode-first b bytes h)
        (hex_decode-hex_encode (b ∷ bytes) h))
  where
    read :
        (s : Text)
        → (has_prefix (to_lower s) (lit "stake") ≡ false) × (is_empty s ≡ false)
        → hex_decode s ≡ some (b ∷ bytes)
        → (if is_empty s
            then none
            else payload_of (
                if has_prefix (to_lower s) (lit "stake")
                then regrouped (bech32_decode s)
                else hex_decode s))
          ≡ payload_of (some (b ∷ bytes))
    read s (other, full) decoded = rw (full, other, decoded) refl

-- The address of a credential of 28 bytes, with the header of a key or of a script, gives back the
-- credential in hexadecimal, whether it is the hexadecimal text of the address or that of the CBOR
-- byte string of it.
pub stake_hash-hex_encode :
    (header : ℕ) (cred : List ℕ)
    → header < 256
    → AreBytes cred
    → length cred ≡ 28
    → is_reward_header header ≡ true
    → (stake_hash_from_reward_address (hex_encode (header ∷ cred)) ≡ some (hex_encode cred))
      × (stake_hash_from_reward_address (hex_encode (88 ∷ 29 ∷ header ∷ cred))
          ≡ some (hex_encode cred))
unfolding unwrap_cbor_bytes
stake_hash-hex_encode header cred byte bytes long reward =
    let plain : (header / 2 ^ 5 == 2) ≡ false = ground arith in
    let read : credential_of (header ∷ cred) ≡ some (hex_encode cred) = rw (long, reward) refl in
    (
      hex-payload header cred (byte, bytes) ∙ rw plain read,
      hex-payload 88 (29 ∷ header ∷ cred) (omega arith, (omega arith, (byte, bytes)))
          ∙ rw long read,
    )

both-length : (n : ℕ) (b : Bool) → (n == 28) && b ≡ true → n ≡ 28
both-length n b h = ground arith

-- Whatever address is accepted, bech32 included, the hash has 56 characters.
pub stake_hash-length :
    (addr h : Text) → stake_hash_from_reward_address addr ≡ some h → length h ≡ 56
unfolding stake_hash_from_reward_address
stake_hash-length addr h e = elim (Bool-cases (is_empty (trim_space addr))) [
  | inl blank ↦ absurd (ground (arith, blank, e))
  | inr full ↦ payload (address_bytes (trim_space addr)) (rw full at e)
]
  where
    credential : (raw : List ℕ) → credential_of raw ≡ some h → length h ≡ 56
    credential [] k = absurd (cc)
    credential (b ∷ cred) k = elim (Bool-cases (length cred == 28 && is_reward_header b)) [
      | inl good ↦
          let long = both-length (length cred) (is_reward_header b) good in
          let own : hex_encode cred ≡ h = some_injective (rw good at k) in
          rw (← own) (length-hex_encode cred ∙ omega (arith, long))
      | inr bad ↦ absurd (ground (arith, bad, k))
    ]

    payload : (o : Option (List ℕ)) → payload_of o ≡ some h → length h ≡ 56
    payload none k = absurd (cc)
    payload (some raw) k = credential (unwrap_cbor_bytes raw) k
