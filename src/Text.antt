-- ===== src/Text.antt =====
-- Go's byte strings and the functions of package strings that the program calls.
-- A string is the list of its bytes. White space and letter case follow Go on every byte string:
-- beside ASCII, the UTF-8 white space of unicode.IsSpace, and the letters outside ASCII whose lower
-- case (U+0130, U+212A) or case folding (U+017F, U+212A) is an ASCII letter. Other letters outside
-- ASCII are left as they are: the program compares the result with ASCII texts only.
pub mod Laws
pub mod Lower
use Prim.Native.Char.{code}
use Prim.Native.String
use grok_auth_proxy.Prelude.{
  ℕ, zero, suc, ◌+◌, ◌-◌, Bool, true, false, ◌&&◌, ◌||◌, List, [], ◌∷◌, reverse, leb, eqb, is_empty,
  String, if◌then◌else◌,
}

abbrev pub Str : Type 0
Str = List ℕ

-- The bytes of an ASCII literal.
abbrev pub codes : String → Str
codes String.[] = []
codes (String.◌∷◌ c s) = code c ∷ codes s

infix 50 ◌==◌
unfoldable pub ◌==◌ : Str → Str → Bool
[] == [] = true
[] == (b ∷ t) = false
(a ∷ s) == [] = false
(a ∷ s) == (b ∷ t) = eqb a b && (s == t)

-- strings.HasPrefix
unfoldable pub has_prefix : Str → Str → Bool
has_prefix s [] = true
has_prefix [] (p ∷ ps) = false
has_prefix (a ∷ s) (p ∷ ps) = eqb a p && has_prefix s ps

-- strings.Contains
unfoldable pub contains : Str → Str → Bool
unfolding has_prefix
contains [] sub = has_prefix [] sub
contains (a ∷ s) sub = has_prefix (a ∷ s) sub || contains s sub

cons_unless : Bool → ℕ → Str → Str
cons_unless true a [] = []
cons_unless _ a s = a ∷ s

-- strings.TrimRight(s, "/")
unfoldable pub trim_slashes : Str → Str
unfolding cons_unless
trim_slashes [] = []
trim_slashes (a ∷ s) = cons_unless (eqb a b'/') a (trim_slashes s)

-- Space: tab, newline, vertical tab, form feed, carriage return, blank.
abbrev pub is_space : ℕ → Bool
is_space a = (leb 9 a && leb a 13) || eqb a 32

abbrev pub is_space₂ : ℕ → ℕ → Bool
is_space₂ a b = eqb a 0xc2 && (eqb b 0x85 || eqb b 0xa0)

abbrev pub is_space₃ : ℕ → ℕ → ℕ → Bool
is_space₃ a b c =
    (eqb a 0xe1 && eqb b 0x9a && eqb c 0x80)
    || (eqb a 0xe2
        && eqb b 0x80
        && ((leb 0x80 c && leb c 0x8a) || eqb c 0xa8 || eqb c 0xa9 || eqb c 0xaf))
    || (eqb a 0xe2 && eqb b 0x81 && eqb c 0x9f)
    || (eqb a 0xe3 && eqb b 0x80 && eqb c 0x80)

-- How many bytes the white space at the head takes, 0 if there is none.
space_width : Str → ℕ
space_width [] = 0
space_width (a ∷ []) = if is_space a then 1 else 0
space_width (a ∷ b ∷ []) = if is_space a then 1 else if is_space₂ a b then 2 else 0
space_width (a ∷ b ∷ c ∷ s) =
    if is_space a then 1 else if is_space₂ a b then 2 else if is_space₃ a b c then 3 else 0

-- The same at the end of a text that is read backwards.
space_width_back : Str → ℕ
space_width_back [] = 0
space_width_back (a ∷ []) = if is_space a then 1 else 0
space_width_back (b ∷ a ∷ []) = if is_space b then 1 else if is_space₂ a b then 2 else 0
space_width_back (c ∷ b ∷ a ∷ s) =
    if is_space c then 1 else if is_space₂ b c then 2 else if is_space₃ a b c then 3 else 0

-- Drops what `width` measures at the head, again and again. The number counts the bytes of the
-- white space under way.
drop_spaces : (Str → ℕ) → ℕ → Str → Str
drop_spaces width n [] = []
drop_spaces width (suc n) (a ∷ s) = drop_spaces width n s
drop_spaces width zero (a ∷ s) =
    let w = width (a ∷ s) in
    let rest = drop_spaces width (w - 1) s in if eqb w 0 then a ∷ s else rest

-- strings.TrimSpace
unfoldable pub trim_space : Str → Str
unfolding space_width space_width_back drop_spaces
trim_space s = reverse (drop_spaces space_width_back 0 (reverse (drop_spaces space_width 0 s)))

-- strings.TrimSpace(s) == ""
unfoldable pub is_blank : Str → Bool
unfolding trim_space
is_blank s = is_empty (trim_space s)

abbrev pub lower_byte : ℕ → ℕ
lower_byte a = if leb b'A' a && leb a b'Z' then a + 32 else a

abbrev next_is : ℕ → Str → Bool
next_is b [] = false
next_is b (c ∷ s) = eqb b c

abbrev next_are : ℕ → ℕ → Str → Bool
next_are b c [] = false
next_are b c (d ∷ s) = eqb b d && next_is c s

-- The byte that the letter at the head becomes, and how many more bytes that letter has.
lower_head : ℕ → Str → ℕ × ℕ
lower_head a s =
    if eqb a 0xc4 && next_is 0xb0 s
    then (b'i', 1)
    else if eqb a 0xe2 && next_are 0x84 0xaa s
    then (b'k', 2)
    else (lower_byte a, 0)

fold_head : ℕ → Str → ℕ × ℕ
fold_head a s =
    if eqb a 0xc5 && next_is 0xbf s
    then (b's', 1)
    else if eqb a 0xe2 && next_are 0x84 0xaa s
    then (b'k', 2)
    else (lower_byte a, 0)

map_letters : (ℕ → Str → ℕ × ℕ) → ℕ → Str → Str
map_letters head n [] = []
map_letters head (suc n) (a ∷ s) = map_letters head n s
map_letters head zero (a ∷ s) = let (b, n) = head a s in b ∷ map_letters head n s

-- strings.ToLower, where its result is compared with ASCII text
unfoldable pub to_lower : Str → Str
unfolding lower_head map_letters
to_lower s = map_letters lower_head 0 s

-- strings.EqualFold against an ASCII text
unfoldable pub equal_fold : Str → Str → Bool
unfolding fold_head map_letters ◌==◌
equal_fold s t = map_letters fold_head 0 s == map_letters fold_head 0 t

-- For tests: unfolding this name unfolds every function above.
unfoldable pub strings : Unit {0}
unfolding ◌==◌ has_prefix contains trim_slashes trim_space is_blank to_lower equal_fold
strings = tt
