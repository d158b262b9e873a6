-- ===== src/Assoc.antt =====
-- Go maps with string keys, as association lists: reads, writes and deletions by key.
use grok_auth_proxy.Prelude.{
  ◌≡◌, refl, Bool, false, Option, none, some, List, [], ◌∷◌, arith, Bool-cases, inl, inr, subst,
  if◌then◌else◌,
}
use grok_auth_proxy.Text.{Str, ◌==◌}
use grok_auth_proxy.Text.Laws.{==_iff}

module _ {ℓ} {V : Type ℓ} where
  -- m[k], `none` where the key is missing
  unfoldable pub lookup : Str → List (Str × V) → Option V
  lookup k [] = none
  lookup k ((j, v) ∷ m) = if j == k then some v else lookup k m

  -- m[k] = v
  unfoldable pub put : Str → V → List (Str × V) → List (Str × V)
  put k v [] = (k, v) ∷ []
  put k v ((j, w) ∷ m) = if j == k then (k, v) ∷ m else (j, w) ∷ put k v m

  -- Deletes the entries for which the test holds.
  unfoldable pub delete_if : (Str → V → Bool) → List (Str × V) → List (Str × V)
  delete_if p [] = []
  delete_if p ((j, w) ∷ m) = let rest = delete_if p m in if p j w then rest else (j, w) ∷ rest

  pub lookup-put :
      (k j : Str) (v : V) (m : List (Str × V))
      → lookup j (put k v m) ≡ (if k == j then some v else lookup j m)
  unfolding lookup put
  lookup-put k j v [] = refl
  lookup-put k j v ((i, w) ∷ m) =
      ground (arith, ==_iff k j, ==_iff i k, ==_iff i j, lookup-put k j v m)

  -- The deletion of one key.
  pub lookup-delete_if :
      (k j : Str) (m : List (Str × V))
      → lookup j (delete_if (λ i _. i == k) m) ≡ (if k == j then none else lookup j m)
  unfolding lookup delete_if
  lookup-delete_if k j [] = ground arith
  lookup-delete_if k j ((i, w) ∷ m) =
      ground (arith, ==_iff k j, ==_iff i k, ==_iff i j, lookup-delete_if k j m)

  -- A property of every key and its value.
  abbrev pub Each : (Str → V → Type ℓ) → List (Str × V) → Type ℓ
  Each P [] = Unit {ℓ}
  Each P ((k, v) ∷ m) = P k v × Each P m

module _ {V : Type 0} (P : Str → V → Type 0) where
  pub Each-lookup : (k : Str) (m : List (Str × V)) {v : V} → Each P m → lookup k m ≡ some v → P k v
  unfolding lookup
  Each-lookup k [] h e = ground arith
  Each-lookup k ((j, w) ∷ m) {v} (here, h) e = elim (Bool-cases (j == k)) [
    | inl same ↦
        let j≡k : j ≡ k = (==_iff j k).0 same in
        let w≡v : w ≡ v = ground arith in subst (λ i. P i v) j≡k (subst (P j) w≡v here)
    | inr other ↦ Each-lookup k m h (ground arith)
  ]

  pub Each-put : (k : Str) (v : V) (m : List (Str × V)) → P k v → Each P m → Each P (put k v m)
  unfolding put
  Each-put k v [] p h = (p, tt)
  Each-put k v ((j, w) ∷ m) p (here, h) = elim (Bool-cases (j == k)) [
    | inl same ↦ rw same (p, h)
    | inr other ↦ rw other (here, Each-put k v m p h)
  ]

  pub Each-delete_if : (p : Str → V → Bool) (m : List (Str × V)) → Each P m → Each P (delete_if p m)
  unfolding delete_if
  Each-delete_if p [] h = tt
  Each-delete_if p ((j, w) ∷ m) (here, h) = elim (Bool-cases (p j w)) [
    | inl gone ↦ rw gone (Each-delete_if p m h)
    | inr kept ↦ rw kept (here, Each-delete_if p m h)
  ]

-- What the test does not hold of is kept, so it holds of nothing that is left.
pub Each-delete_if_self :
    {V : Type 0} (p : Str → V → Bool) (m : List (Str × V))
    → Each (λ k v. p k v ≡ false) (delete_if p m)
unfolding delete_if
Each-delete_if_self p [] = tt
Each-delete_if_self p ((j, w) ∷ m) = elim (Bool-cases (p j w)) [
  | inl gone ↦ rw gone (Each-delete_if_self p m)
  | inr kept ↦ rw kept (kept, Each-delete_if_self p m)
]
