-- ===== src/Proxy/Headers/Relayed.antt =====
-- Which values of which headers arrive on the other side.
use grok_auth_proxy.Prelude.{
  ◌≡◌, ◌⊎◌, refl, Bool, true, false, List, [], ◌∷◌, ◌++◌, any, arith, Bool-cases, inl, inr, ◌∙◌,
  sym, subst, if◌then◌else◌,
}
use mathlib.Core.List.{append-nil, append_assoc}
use grok_auth_proxy.Text.{Str, ◌==◌, to_lower}
use grok_auth_proxy.Text.Laws.{==_iff, ==_refl}
use grok_auth_proxy.Assoc.{lookup, Each, Each-put}
use grok_auth_proxy.Http.{Headers, canonical_key, values, add}
use grok_auth_proxy.Http.Laws.{to_lower-canonical_key, values-add}
use grok_auth_proxy.Proxy.Headers.{
  add_all, copy_except, dropped_from_request, dropped_from_response, copy_headers,
  filter_response_headers,
}

-- Every key of a header map is in canonical form and stands in it once, as net/http keeps them.
abbrev pub HasHeader : Str → Headers → Type 0
HasHeader k [] = ⊥
HasHeader k ((j, vs) ∷ h) = ((j == k) ≡ true) ⊎ HasHeader k h

abbrev pub IsHeaderMap : Headers → Type 0
IsHeaderMap [] = Unit
IsHeaderMap ((k, vs) ∷ h) = (canonical_key k ≡ k) × ¬ HasHeader k h × IsHeaderMap h

abbrev pub is_dropped : List Str → Str → Bool
is_dropped dropped k = any (λ name. to_lower k == name) dropped

values-add_all :
    (k j : Str) (vals : List Str) (h : Headers)
    → canonical_key k ≡ k
    → values j (add_all k vals h) ≡ (if k == j then values j h ++ vals else values j h)
unfolding add_all
values-add_all k j [] h c = elim (Bool-cases (k == j)) [
  | inl same ↦ rw same (sym (append-nil _))
  | inr other ↦ rw other
]
values-add_all k j (v ∷ vals) h c = elim (Bool-cases (k == j)) [
  | inl same ↦ rw (values-add_all k j vals (add k v h) c, values-add, c, same, append_assoc)
  | inr other ↦ rw (values-add_all k j vals (add k v h) c, values-add, c, other)
]

values_of_missing : (k : Str) (h : Headers) → ¬ HasHeader k h → values k h ≡ []
unfolding values lookup
values_of_missing k [] n = refl
values_of_missing k ((j, vs) ∷ h) n = elim (Bool-cases (j == k)) [
  | inl same ↦ absurd (n (inl same))
  | inr other ↦ rw other (values_of_missing k h (λ m. n (inr m)))
]

values-cons :
    (j k : Str) (vs : List Str) (h : Headers)
    → values k ((j, vs) ∷ h) ≡ (if j == k then vs else values k h)
unfolding values lookup
values-cons j k vs h = ground arith

module _ (dropped : List Str) where
  -- What a copy of `src` does to the values of one header.
  abbrev Copies : Str → Headers → Type 0
  Copies k src =
      (dst : Headers)
      → values k (copy_except dropped dst src)
        ≡ values k dst ++ (if is_dropped dropped k then [] else values k src)

  module _ (j : Str) (vs : List Str) (src : Headers) (c : canonical_key j ≡ j) where
    Copies-same : ¬ HasHeader j src → Copies j src → Copies j ((j, vs) ∷ src)
    unfolding copy_except
    Copies-same once ih dst = elim (Bool-cases (is_dropped dropped j)) [
      | inl gone ↦ rw gone (rw (ih dst, gone))
      | inr kept ↦ rw kept (
          rw (
            ih (add_all j vs dst),
            kept,
            values-add_all j j vs dst c,
            ==_refl,
            values_of_missing j src once,
            append-nil,
            values-cons,
            ==_refl,
          ))
    ]

    Copies-other : (k : Str) → (j == k) ≡ false → Copies k src → Copies k ((j, vs) ∷ src)
    unfolding copy_except
    Copies-other k other ih dst = elim (Bool-cases (is_dropped dropped j)) [
      | inl gone ↦ rw gone (rw (ih dst, values-cons, other))
      | inr kept ↦
          rw kept (rw (ih (add_all j vs dst), values-add_all j k vs dst c, values-cons, other))
    ]

  Copies-nil : (k : Str) → Copies k []
  unfolding copy_except values lookup
  Copies-nil k dst = ground (arith, append-nil (values k dst))

  -- After a copy, a header has the values that it had before and behind them, unless its name is
  -- among those to be dropped, all values that it has in the source.
  values-copy_except : (k : Str) (src : Headers) → IsHeaderMap src → Copies k src
  values-copy_except k [] m = Copies-nil k
  values-copy_except k ((j, vs) ∷ src) (c, once, m) = elim (Bool-cases (j == k)) [
    | inl same ↦
        let j≡k : j ≡ k = (==_iff j k).0 same in
        subst (λ i. Copies i ((j, vs) ∷ src)) j≡k
          (Copies-same j vs src c once (values-copy_except j src m))
    | inr other ↦ Copies-other j vs src c k other (values-copy_except k src m)
  ]

-- A request header goes upstream with all its values, unless its name is one of those that carry
-- credentials or belong to the connection; then it does not go upstream at all.
pub values-copy_headers :
    (k : Str) (src : Headers)
    → IsHeaderMap src
    → values k (copy_headers [] src)
      ≡ (if is_dropped dropped_from_request k then [] else values k src)
unfolding copy_headers
values-copy_headers k src m =
    values-copy_except dropped_from_request k src m [] ∙ (unfold values lookup in refl)

-- Where the keys of the upstream's headers are canonical and distinct, a response header reaches the
-- client with all its values, behind those that the proxy has set
-- itself, unless its name is one of those to be dropped.
pub values-filter_response_headers :
    (k : Str) (dst src : Headers)
    → IsHeaderMap src
    → values k (filter_response_headers dst src)
      ≡ values k dst ++ (if is_dropped dropped_from_response k then [] else values k src)
unfolding filter_response_headers
values-filter_response_headers k dst src m = values-copy_except dropped_from_response k src m dst

-- No header of the map is to be dropped.
abbrev pub NoneDropped : List Str → Headers → Type 0
NoneDropped dropped = Each (λ k vs. is_dropped dropped k ≡ false)

NoneDropped-add_all :
    (dropped : List Str) (k : Str) (vals : List Str) (dst : Headers)
    → is_dropped dropped k ≡ false
    → NoneDropped dropped dst
    → NoneDropped dropped (add_all k vals dst)
unfolding add_all add
NoneDropped-add_all dropped k [] dst h n = n
NoneDropped-add_all dropped k (v ∷ vals) dst h n =
    NoneDropped-add_all dropped k vals (add k v dst) h (
      Each-put (λ j vs. is_dropped dropped j ≡ false) (canonical_key k) _ dst
        (rw to_lower-canonical_key h) n)

NoneDropped-copy_except :
    (dropped : List Str) (dst src : Headers)
    → NoneDropped dropped dst
    → NoneDropped dropped (copy_except dropped dst src)
unfolding copy_except
NoneDropped-copy_except dropped dst [] n = n
NoneDropped-copy_except dropped dst ((k, vals) ∷ src) n = elim (Bool-cases (is_dropped dropped k)) [
  | inl gone ↦ rw gone (NoneDropped-copy_except dropped dst src n)
  | inr kept ↦ rw kept (
      NoneDropped-copy_except dropped (add_all k vals dst) src
        (NoneDropped-add_all dropped k vals dst kept n))
]

-- However the client spells its headers, none of those that carry credentials to the proxy or belong
-- to the connection goes upstream.
pub copy_headers_safe : (src : Headers) → NoneDropped dropped_from_request (copy_headers [] src)
unfolding copy_headers
copy_headers_safe src = NoneDropped-copy_except dropped_from_request [] src tt
