-- ===== src/Auth/Entry/Laws.antt =====
-- The map of credential blocks, and what is shown of secrets.
use grok_auth_proxy.Prelude.{
  ◌≤◌, ◌≡◌, refl, false, Option, none, some, [], ◌∷◌, arith, inl, inr, sym, ◌∙◌, length, take,
  length-append, length-take, Bool-cases, leb, ◌⊎◌,
}
use grok_auth_proxy.Text.{Str, codes, ◌==◌, trim_space, to_lower, contains, strings}
use grok_auth_proxy.Text.Laws.{==_iff}
pub use grok_auth_proxy.Assoc.{lookup-put}
use grok_auth_proxy.Auth.Entry.{
  Entry, FileData, lookup, put, clone_into, clone_file_data, sanitize_err_body, ellipsis, cut,
}

-- Every key is written once.
abbrev pub HasKey : Str → FileData → Type 0
HasKey k [] = ⊥
HasKey k ((j, e) ∷ fd) = (k ≡ j) ⊎ HasKey k fd

abbrev pub IsMap : FileData → Type 0
IsMap [] = Unit
IsMap ((k, e) ∷ fd) = ¬ HasKey k fd × IsMap fd

lookup_of_not_HasKey : (k : Str) (fd : FileData) → ¬ HasKey k fd → lookup k fd ≡ none
unfolding lookup
lookup_of_not_HasKey k [] h = refl
lookup_of_not_HasKey k ((j, e) ∷ fd) h = elim (Bool-cases (j == k)) [
  | inl same ↦ absurd (h (inl (sym ((==_iff j k).0 same))))
  | inr other ↦ rw other (lookup_of_not_HasKey k fd (λ m. h (inr m)))
]

abbrev first : Option Entry → Option Entry → Option Entry
first none b = b
first (some a) b = some a

lookup-clone_into :
    (j : Str) (out src : FileData)
    → IsMap src
    → lookup j (clone_into out src) ≡ first (lookup j src) (lookup j out)
unfolding lookup clone_into
lookup-clone_into j out [] m = refl
lookup-clone_into j out ((k, e) ∷ src) (fresh, m) = ground (
  arith,
  lookup-clone_into j (put k e out) src m,
  lookup-put k j e out,
  ==_iff k j,
  lookup_of_not_HasKey k src fresh,
)

first-none : (o : Option Entry) → first o none ≡ o
first-none none = refl
first-none (some e) = refl

-- A clone answers every lookup as the map that it was made from.
pub lookup-clone_file_data :
    (j : Str) (src : FileData) → IsMap src → lookup j (clone_file_data src) ≡ lookup j src
unfolding clone_file_data
lookup-clone_file_data j src m =
    lookup-clone_into j [] src m ∙ (unfold lookup in first-none (lookup j src))

-- An error body that goes into an error never holds the name of the access token, in any case of its
-- letters.
pub sanitize_err_body_hides :
    (b : Str) → contains (to_lower (sanitize_err_body b)) (codes "access_token") ≡ false
unfolding sanitize_err_body
sanitize_err_body_hides b =
    elim (Bool-cases (contains (to_lower (cut (trim_space b))) (codes "access_token"))) [
      | inl found ↦ rw found (unfold strings in refl)
      | inr clean ↦ rw clean clean
    ]

length-cut : (s : Str) → length (cut s) ≤ 203
length-cut s = elim (Bool-cases (leb (length s) 200)) [
  | inl short ↦ rw short (ground arith)
  | inr long ↦ rw long (rw (length-append (take 200 s) ellipsis) (omega (arith, length-take 200 s)))
]

pub sanitize_err_body_short : (b : Str) → length (sanitize_err_body b) ≤ 203
unfolding sanitize_err_body
sanitize_err_body_short b = ground (arith, length-cut (trim_space b))
