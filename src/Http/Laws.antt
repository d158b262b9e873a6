-- ===== src/Http/Laws.antt =====
-- Canonical keys have the lower case of the key; values after an addition, a setting or a deletion.
use grok_auth_proxy.Prelude.{
  ℕ, ◌+◌, ◌-◌, ◌<◌, ◌≡◌, refl, Bool, true, ◌&&◌, none, [], ◌∷◌, ◌++◌, arith, leb, eqb, Bool-cases,
  inl, inr, if◌then◌else◌,
}
use grok_auth_proxy.Text.{Str, ◌==◌, lower_byte, to_lower}
use grok_auth_proxy.Text.Lower.{to_lower-cons}
use grok_auth_proxy.Text.Laws.{==_iff}
use grok_auth_proxy.Assoc.{lookup, delete_if, lookup-put}
use grok_auth_proxy.Http.{
  Headers, is_token, canonical_from, all_token, canonical_key, values, add, set, del,
}

token-lt : (c : ℕ) → is_token c ≡ true → c < 128
token-lt c h = ground arith

abbrev canonical_byte : Bool → ℕ → ℕ
canonical_byte start c =
    if start
    then (if leb b'a' c && leb c b'z' then c - 32 else c)
    else (if leb b'A' c && leb c b'Z' then c + 32 else c)

canonical_byte-lt : (start : Bool) (c : ℕ) → c < 128 → canonical_byte start c < 128
canonical_byte-lt start c h = ground arith

lower_byte-canonical_byte :
    (start : Bool) (c : ℕ) → lower_byte (canonical_byte start c) ≡ lower_byte c
lower_byte-canonical_byte start c = ground arith

to_lower-canonical_from :
    (start : Bool) (s : Str) → all_token s ≡ true → to_lower (canonical_from start s) ≡ to_lower s
unfolding canonical_from
to_lower-canonical_from start [] h = refl
to_lower-canonical_from start (c ∷ s) h =
    let small : c < 128 = token-lt c (ground arith) in
    rw (
      to_lower-cons (canonical_byte start c) (canonical_from (eqb c b'-') s)
          (canonical_byte-lt start c small),
      to_lower-cons c s small,
      lower_byte-canonical_byte start c,
      to_lower-canonical_from (eqb c b'-') s (ground arith),
    )

-- Bringing a key into canonical form does not change its lower case.
pub to_lower-canonical_key : (k : Str) → to_lower (canonical_key k) ≡ to_lower k
unfolding canonical_key
to_lower-canonical_key k = elim (Bool-cases (all_token k)) [
  | inl tokens ↦ rw tokens (to_lower-canonical_from true k tokens)
  | inr others ↦ rw others
]

pub values-add :
    (k v j : Str) (h : Headers)
    → values j (add k v h) ≡ (if canonical_key k == j then values j h ++ v ∷ [] else values j h)
unfolding values add
values-add k v j h = ground (
  arith,
  lookup-put (canonical_key k) j (values (canonical_key k) h ++ v ∷ []) h,
  ==_iff (canonical_key k) j,
)

pub values-set :
    (k v j : Str) (h : Headers)
    → values j (set k v h) ≡ (if canonical_key k == j then v ∷ [] else values j h)
unfolding values set
values-set k v j h = ground (arith, lookup-put (canonical_key k) j (v ∷ []) h)

lookup-delete_if :
    (k j : Str) (h : Headers)
    → lookup j (delete_if (λ i _. i == k) h) ≡ (if k == j then none else lookup j h)
unfolding lookup delete_if
lookup-delete_if k j [] = ground arith
lookup-delete_if k j ((i, vs) ∷ h) =
    ground (arith, lookup-delete_if k j h, ==_iff i k, ==_iff i j, ==_iff k j)

pub values-del :
    (k j : Str) (h : Headers)
    → values j (del k h) ≡ (if canonical_key k == j then [] else values j h)
unfolding values del
values-del k j h = ground (arith, lookup-delete_if (canonical_key k) j h)
