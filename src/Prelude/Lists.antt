-- ===== src/Prelude/Lists.antt =====
-- Lists measured by native numbers, membership and predicates over a list by recursion.
use Prim.Native.Nat.{ℕ, zero, suc, ◌+◌, ◌-◌, ◌≤◌, min}
use mathlib.Core.Path.{◌≡◌, refl}
use mathlib.Core.Logic.{◌⊎◌, inl, inr}
use mathlib.Core.Bool.{Bool, true, false, ◌||◌}
use mathlib.Core.Option.{Option, none, some}
use mathlib.Core.List.{List, [], ◌∷◌, ◌++◌, map}
use native.Mathlib.Omega.{arith}
use grok_auth_proxy.Prelude.Tests.{if◌then◌else◌}

module _ {ℓ} {A : Type ℓ} where
  abbrev pub length : List A → ℕ
  length [] = 0
  length (x ∷ xs) = suc (length xs)

  abbrev pub take : ℕ → List A → List A
  take zero xs = []
  take (suc n) [] = []
  take (suc n) (x ∷ xs) = x ∷ take n xs

  abbrev pub drop : ℕ → List A → List A
  drop zero xs = xs
  drop (suc n) [] = []
  drop (suc n) (x ∷ xs) = drop n xs

  abbrev pub is_empty : List A → Bool
  is_empty [] = true
  is_empty (x ∷ xs) = false

  abbrev pub any : (A → Bool) → List A → Bool
  any p [] = false
  any p (x ∷ xs) = p x || any p xs

  abbrev pub keep : (A → Bool) → List A → List A
  keep p [] = []
  keep p (x ∷ xs) = let rest = keep p xs in if p x then x ∷ rest else rest

  abbrev pub find : (A → Bool) → List A → Option A
  find p [] = none
  find p (x ∷ xs) = let rest = find p xs in if p x then some x else rest

  pub length-append : (xs ys : List A) → length (xs ++ ys) ≡ length xs + length ys
  length-append [] ys = omega arith
  length-append (x ∷ xs) ys = omega (arith, length-append xs ys)

  pub length-take : (n : ℕ) (xs : List A) → length (take n xs) ≡ min n (length xs)
  length-take zero xs = omega arith
  length-take (suc n) [] = omega arith
  length-take (suc n) (x ∷ xs) = omega (arith, length-take n xs)

  pub take-append :
      (n : ℕ) (xs ys : List A) → take n (xs ++ ys) ≡ take n xs ++ take (n - length xs) ys
  take-append zero xs ys = let z : 0 - length xs ≡ 0 = omega arith in rw z
  take-append (suc n) [] ys = let z : suc n - 0 ≡ suc n = omega arith in rw z
  take-append (suc n) (x ∷ xs) ys =
      let z : suc n - suc (length xs) ≡ n - length xs = omega arith in rw (take-append n xs ys, z)

  pub take_all : (n : ℕ) (xs : List A) → length xs ≤ n → take n xs ≡ xs
  take_all zero [] h = refl
  take_all zero (x ∷ xs) h = absurd (omega arith)
  take_all (suc n) [] h = refl
  take_all (suc n) (x ∷ xs) h = rw (take_all n xs (omega arith))

module _ {A : Type 0} where
  -- Membership as a choice of position.
  abbrev pub In : A → List A → Type 0
  In a [] = ⊥
  In a (x ∷ xs) = (a ≡ x) ⊎ In a xs

pub In-map :
    {A B : Type 0} (f : A → B) (xs : List A) (b : B)
    → In b (map f xs)
    → (a : A) × In a xs × (b ≡ f a)
In-map f [] b i = elim i [ ]
In-map f (x ∷ xs) b (inl p) = (x, inl refl, p)
In-map f (x ∷ xs) b (inr i) = let (a, j, p) = In-map f xs b i in (a, inr j, p)

pub In-append : {A : Type 0} (xs : List A) (a b : A) → In a (xs ++ b ∷ []) → In a xs ⊎ (a ≡ b)
In-append [] a b (inl p) = inr p
In-append [] a b (inr i) = elim i [ ]
In-append (x ∷ xs) a b (inl p) = inl (inl p)
In-append (x ∷ xs) a b (inr i) = elim (In-append xs a b i) [ inl j ↦ inl (inr j) | inr p ↦ inr p ]

pub In-append_last : {A : Type 0} (xs : List A) (b : A) → In b (xs ++ b ∷ [])
In-append_last [] b = inl refl
In-append_last (x ∷ xs) b = inr (In-append_last xs b)

module _ {A : Type 0} where
  pub In-split : (xs ys : List A) (a : A) → In a (xs ++ ys) → In a xs ⊎ In a ys
  In-split [] ys a i = inr i
  In-split (x ∷ xs) ys a (inl e) = inl (inl e)
  In-split (x ∷ xs) ys a (inr i) = elim (In-split xs ys a i) [ inl j ↦ inl (inr j) | inr j ↦ inr j ]

  pub In-left : (xs ys : List A) (a : A) → In a xs → In a (xs ++ ys)
  In-left [] ys a i = elim i [ ]
  In-left (x ∷ xs) ys a (inl e) = inl e
  In-left (x ∷ xs) ys a (inr i) = inr (In-left xs ys a i)

  pub In-right : (xs ys : List A) (a : A) → In a ys → In a (xs ++ ys)
  In-right [] ys a i = i
  In-right (x ∷ xs) ys a i = inr (In-right xs ys a i)
