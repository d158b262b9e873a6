-- ===== src/Text/Laws.antt =====
-- Laws of the byte strings: equality, prefixes, trimming.
use grok_auth_proxy.Prelude.{
  ℕ, ◌≡◌, refl, ◌↔◌, Bool, true, false, [], ◌∷◌, ◌++◌, arith, eqb, drop, length,
}
use grok_auth_proxy.Text.{Str, ◌==◌, has_prefix, cons_unless, trim_slashes}

pub ==_iff : (s t : Str) → ((s == t) ≡ true) ↔ (s ≡ t)
unfolding ◌==◌
==_iff [] [] = ground arith
==_iff [] (b ∷ t) = ground arith
==_iff (a ∷ s) [] = ground arith
==_iff (a ∷ s) (b ∷ t) = ground (arith, ==_iff s t)

pub ==_refl : (s : Str) → (s == s) ≡ true
==_refl s = (==_iff s s).1 refl

-- A text with a prefix is the prefix and what follows it.
pub has_prefix-append_drop : (s p : Str) → has_prefix s p ≡ true → p ++ drop (length p) s ≡ s
unfolding has_prefix
has_prefix-append_drop s [] h = refl
has_prefix-append_drop [] (p ∷ ps) h = ground arith
has_prefix-append_drop (a ∷ s) (p ∷ ps) h = ground (arith, has_prefix-append_drop s ps)

abbrev pub ends_with : ℕ → Str → Bool
ends_with b [] = false
ends_with b (a ∷ []) = eqb a b
ends_with b (a ∷ c ∷ s) = ends_with b (c ∷ s)

ends_with-cons_unless :
    (a : ℕ) (s : Str)
    → ends_with b'/' s ≡ false
    → ends_with b'/' (cons_unless (eqb a b'/') a s) ≡ false
unfolding cons_unless
ends_with-cons_unless a [] h = ground arith
ends_with-cons_unless a (b ∷ s) h = ground arith

pub ends_with-trim_slashes : (s : Str) → ends_with b'/' (trim_slashes s) ≡ false
unfolding trim_slashes
ends_with-trim_slashes [] = refl
ends_with-trim_slashes (a ∷ s) = ends_with-cons_unless a (trim_slashes s) (ends_with-trim_slashes s)

cons_unless_of_ends_with :
    (a : ℕ) (s : Str) → ends_with b'/' (a ∷ s) ≡ false → cons_unless (eqb a b'/') a s ≡ a ∷ s
unfolding cons_unless
cons_unless_of_ends_with a [] h = ground arith
cons_unless_of_ends_with a (b ∷ s) h = ground arith

-- A text that does not end in a slash is left alone.
pub trim_slashes_of_ends_with : (s : Str) → ends_with b'/' s ≡ false → trim_slashes s ≡ s
unfolding trim_slashes
trim_slashes_of_ends_with [] h = refl
trim_slashes_of_ends_with (a ∷ []) h = cons_unless_of_ends_with a [] h
trim_slashes_of_ends_with (a ∷ b ∷ s) h =
    ground (arith, trim_slashes_of_ends_with (b ∷ s) h, cons_unless_of_ends_with a (b ∷ s) h)
