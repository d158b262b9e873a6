-- ===== src/Store/Text.antt =====
-- internal/store/store.go: the texts of keys. Random bytes, hashes and bcrypt are parameters.
pub mod Laws
use grok_auth_proxy.Prelude.{
  ℕ, ◌+◌, ◌-◌, ◌≡◌, ◌/◌, ◌%◌, Bool, true, Option, none, some, List, [], ◌∷◌, ◌++◌, ltb, length,
  take, if◌then◌else◌,
}
use grok_auth_proxy.Text.{Str, codes}
use grok_auth_proxy.Auth.Entry.{ellipsis}

-- crypto/sha256 with encoding/hex, and golang.org/x/crypto/bcrypt.
pub record CryptoLib : Type 0 where
  -- hex.EncodeToString of sha256.Sum256
  pub sha256_hex : Str → Str
  -- bcrypt.GenerateFromPassword with the salt that it draws, `none` for an error
  pub bcrypt_generate : (salt : List ℕ) (password : Str) → Option Str
  -- bcrypt.CompareHashAndPassword(hash, password) == nil
  pub bcrypt_matches : (hash password : Str) → Bool
  -- A hash that was generated matches its password.
  pub matches-generate :
      (salt : List ℕ) (password hash : Str)
      → bcrypt_generate salt password ≡ some hash
      → bcrypt_matches hash password ≡ true

abbrev pub key_prefix : Str
key_prefix = codes "sk-gap-"

abbrev pub prefix_display : ℕ
prefix_display = 12

abbrev pub random_key_bytes : ℕ
random_key_bytes = 32

abbrev hex_digit : ℕ → ℕ
hex_digit d = if ltb d 10 then d + b'0' else d - 10 + b'a'

-- hex.EncodeToString
unfoldable pub hex_encode : List ℕ → Str
hex_encode [] = []
hex_encode (b ∷ bytes) = hex_digit (b / 16) ∷ hex_digit (b % 16) ∷ hex_encode bytes

-- randomHex; the bytes are what rand.Read gives, `none` for an error.
unfoldable pub random_hex : Option (List ℕ) → Option Str
random_hex none = none
random_hex (some bytes) = some (hex_encode bytes)

-- generatePlaintext
unfoldable pub generate_plaintext : Option (List ℕ) → Option Str
generate_plaintext random = elim (random_hex random) [
  | none ↦ none
  | some b ↦ some (key_prefix ++ b)
]

-- displayPrefix
unfoldable pub display_prefix : Str → Str
display_prefix plaintext =
    if ltb (length plaintext) (length key_prefix + prefix_display)
    then plaintext
    else take (length key_prefix + prefix_display) plaintext ++ ellipsis

-- lookupHash
unfoldable pub lookup_hash : CryptoLib → Str → Str
lookup_hash crypto plaintext = crypto.sha256_hex plaintext
