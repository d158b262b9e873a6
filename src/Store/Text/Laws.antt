-- ===== src/Store/Text/Laws.antt =====
-- generatePlaintext and displayPrefix of internal/store/store.go: the length of a key and what is shown.
use grok_auth_proxy.Prelude.{
  ℕ, ◌+◌, ◌*◌, ◌≡◌, refl, subst, some, List, [], ◌∷◌, ◌++◌, arith, length, take, length-append,
}
use grok_auth_proxy.Text.{Str}
use grok_auth_proxy.Auth.Entry.{ellipsis}
use grok_auth_proxy.Store.Text.{
  key_prefix, random_key_bytes, hex_encode, random_hex, generate_plaintext, display_prefix,
}

length-hex_encode : (bytes : List ℕ) → length (hex_encode bytes) ≡ 2 * length bytes
unfolding hex_encode
length-hex_encode [] = refl
length-hex_encode (b ∷ bytes) = omega (arith, length-hex_encode bytes)

hex_encode-append : (xs ys : List ℕ) → hex_encode (xs ++ ys) ≡ hex_encode xs ++ hex_encode ys
unfolding hex_encode
hex_encode-append [] ys = refl
hex_encode-append (x ∷ xs) ys = rw (hex_encode-append xs ys)

take_of_append : {A : Type 0} (xs ys : List A) → take (length xs) (xs ++ ys) ≡ xs
take_of_append [] ys = refl
take_of_append (x ∷ xs) ys = rw (take_of_append xs ys)

-- A key that is generated from 32 random bytes has 71 bytes, which is within the 72 bytes that bcrypt
-- reads, and of the 64 random characters its display prefix shows the first twelve: the six bytes
-- that come first.
pub generate_plaintext_shown :
    (first rest : List ℕ) (plaintext : Str)
    → length first ≡ 6
    → length first + length rest ≡ random_key_bytes
    → generate_plaintext (some (first ++ rest)) ≡ some plaintext
    → (length plaintext ≡ 71)
      × (display_prefix plaintext ≡ key_prefix ++ hex_encode first ++ ellipsis)
unfolding generate_plaintext random_hex display_prefix
generate_plaintext_shown first rest plaintext h l e =
    let made : key_prefix ++ hex_encode (first ++ rest) ≡ plaintext = cc in
    let long : length (key_prefix ++ hex_encode (first ++ rest)) ≡ 71 =
      omega (arith, length-hex_encode (first ++ rest), length-append first rest) in
    let twelve : length (hex_encode first) ≡ 12 = omega (arith, length-hex_encode first) in
    rw (← made) (
      long,
      rw long (
          rw hex_encode-append (
            rw
              (subst (λ n. take n (hex_encode first ++ hex_encode rest) ≡ hex_encode first) twelve
                (take_of_append (hex_encode first) (hex_encode rest)))
              refl)),
    )
