-- ===== src/Proxy/Body/Bounds.antt =====
-- readLimited of internal/proxy/proxy.go: what becomes of a client's body.
use grok_auth_proxy.Prelude.{
  ℕ, zero, suc, ◌+◌, ◌≤◌, ◌<◌, ◌≡◌, refl, Bool, true, false, Option, none, some, [], ◌∷◌, arith,
  length, take, length-take, Bool-cases, inl, inr, ltb,
}
use native.Mathlib.Numerals.{add-one}
use grok_auth_proxy.Prelude.Int.{ℤ}
use grok_auth_proxy.Text.{Str}
use grok_auth_proxy.Proxy.Body.{Body, read_all_limited, request_limit, read_at_most, read_limited}

take-take : (n : ℕ) (s : Str) → take n (take (suc n) s) ≡ take n s
take-take zero s = refl
take-take (suc n) [] = refl
take-take (suc n) (a ∷ s) = rw (take-take n s)

-- What became of a body: it is whole and within the limit, or it is longer and its first bytes are
-- kept, or reading it failed within the limit.
pub data IsRead (max : ℕ) (r : Body) : Option (Str × Bool) → Type 0 where
  whole : length r.bytes ≤ max → r.fails ≡ false → IsRead max r (some (r.bytes, false))
  longer : max < length r.bytes → IsRead max r (some (take max r.bytes, true))
  failed : length r.bytes ≤ max → r.fails ≡ true → IsRead max r none

module _ (max : ℕ) (r : Body) where
  read_beyond : max < length r.bytes → read_all_limited (max + 1) r ≡ some (take (max + 1) r.bytes)
  unfolding read_all_limited
  read_beyond h = ground arith

  take-take_next : take max (take (max + 1) r.bytes) ≡ take max r.bytes
  take-take_next = rw add-one (take-take max r.bytes)

  read_longer : max < length r.bytes → read_at_most max r ≡ some (take max r.bytes, true)
  unfolding read_at_most
  read_longer h =
      let cut : ltb max (length (take (max + 1) r.bytes)) ≡ true =
        ground (arith, length-take (max + 1) r.bytes) in
      rw (read_beyond h, read_at_most) (rw cut (rw take-take_next))

  read_whole : length r.bytes ≤ max → r.fails ≡ false → read_at_most max r ≡ some (r.bytes, false)
  unfolding read_at_most read_all_limited
  read_whole h f = ground arith

  read_failed : length r.bytes ≤ max → r.fails ≡ true → read_at_most max r ≡ none
  unfolding read_at_most read_all_limited
  read_failed h f = ground arith

  read_at_most-IsRead : IsRead max r (read_at_most max r)
  read_at_most-IsRead = elim (Bool-cases (ltb max (length r.bytes))) [
    | inl more ↦ let m : max < length r.bytes = ground arith in rw (read_longer m) (longer m)
    | inr fits ↦
        let f : length r.bytes ≤ max = ground arith in
        elim (Bool-cases r.fails) [
          | inl bad ↦ rw (read_failed f bad) (failed f bad)
          | inr good ↦ rw (read_whole f good) (whole f good)
        ]
  ]

pub read_limited-IsRead :
    (max : ℤ) (r : Body) → IsRead (request_limit max) r (read_limited (some r) max)
unfolding read_limited
read_limited-IsRead max r = read_at_most-IsRead (request_limit max) r

-- What has been read within the limit is read again from memory.
IsRead-whole :
    {max : ℕ} {r : Body} {read : Option (Str × Bool)}
    → IsRead max r read
    → length r.bytes ≤ max
    → r.fails ≡ false
    → read ≡ some (r.bytes, false)
IsRead-whole (whole _ _) fits fine = refl
IsRead-whole (longer more) fits fine = absurd (omega arith)
IsRead-whole (failed _ bad) fits fine = cc

pub read_limited_within :
    (max : ℤ) (body : Str)
    → length body ≤ request_limit max
    → read_limited (some (record { bytes = body; fails = false })) max ≡ some (body, false)
read_limited_within max body h =
    let r : Body = record { bytes = body; fails = false } in
    IsRead-whole (read_limited-IsRead max r) h refl
