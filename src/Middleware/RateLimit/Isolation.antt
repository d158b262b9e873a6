-- ===== src/Middleware/RateLimit/Isolation.antt =====
-- RateLimiter of internal/middleware/middleware.go: the calls of one key among those of others.
use grok_auth_proxy.Prelude.{
  ◌≡◌, refl, Bool, true, false, Option, List, [], ◌∷◌, keep, Bool-cases, inl, inr, if◌then◌else◌,
}
use grok_auth_proxy.Float.{Float64}
use grok_auth_proxy.Text.{Str, ◌==◌}
use grok_auth_proxy.Text.Laws.{==_iff}
use grok_auth_proxy.Assoc.{lookup, lookup-put}
use grok_auth_proxy.Middleware.RateLimit.{RateLib, RateLimiter, Call, get, limit}

module _ {L : Type 0} (lib : RateLib L) (k : Str) where
  -- The decisions on the calls of key `k`, in a run of calls of any keys.
  unfoldable pub decisions : List Call → RateLimiter L → List Bool
  decisions [] rl = []
  decisions (call ∷ calls) rl =
      let (passes, rl') = limit lib call rl in
      let rest = decisions calls rl' in if call.id == k then passes ∷ rest else rest

  -- Two limiters that treat the key alike.
  abbrev SameFor : RateLimiter L → RateLimiter L → Type 0
  SameFor rl rl' =
      (lookup k rl.limiters ≡ lookup k rl'.limiters) × (rl.rps ≡ rl'.rps) × (rl.burst ≡ rl'.burst)

  get-same :
      (custom : Option Float64) (rl rl' : RateLimiter L)
      → SameFor rl rl'
      → get lib k custom rl ≡ get lib k custom rl'
  unfolding get
  get-same custom rl rl' (l, r, b) = rw (l, r, b) refl

  limit-other :
      (call : Call) (rl rl' : RateLimiter L)
      → (call.id == k) ≡ false
      → SameFor rl rl'
      → SameFor (limit lib call rl).1 rl'
  unfolding limit
  limit-other call rl rl' other (l, r, b) = (rw (lookup-put, other) l, r, b)

  limit-same :
      (call : Call) (rl rl' : RateLimiter L)
      → (call.id == k) ≡ true
      → SameFor rl rl'
      → ((limit lib call rl).0 ≡ (limit lib call rl').0)
        × SameFor (limit lib call rl).1 (limit lib call rl').1
  unfolding limit
  limit-same call rl rl' same (l, r, b) =
      let id : call.id ≡ k = (==_iff call.id k).0 same in
      let g : get lib call.id call.custom_rps rl ≡ get lib call.id call.custom_rps rl' =
        rw id (get-same call.custom_rps rl rl' (l, r, b)) in
      rw g (refl, (rw (lookup-put, same, lookup-put, same) refl, r, b))

  decisions-alone :
      (calls : List Call) (rl rl' : RateLimiter L)
      → SameFor rl rl'
      → decisions calls rl ≡ decisions (keep (λ call. call.id == k) calls) rl'
  unfolding decisions
  decisions-alone [] rl rl' h = refl
  decisions-alone (call ∷ calls) rl rl' h = elim (Bool-cases (call.id == k)) [
    | inl same ↦
        let (first, h') = limit-same call rl rl' same h in
        (rw same (
          rw (first, decisions-alone calls (limit lib call rl).1 (limit lib call rl').1 h')
            (rw same refl)))
    | inr other ↦
        rw other (decisions-alone calls (limit lib call rl).1 rl' (limit-other call rl rl' other h))
  ]

  -- Whatever calls of other keys come between, each call of a key is decided as if there were only
  -- the calls of that key: no key can use up the rate of another.
  pub decisions_isolated :
      (calls : List Call) (rl : RateLimiter L)
      → decisions calls rl ≡ decisions (keep (λ call. call.id == k) calls) rl
  decisions_isolated calls rl = decisions-alone calls rl rl (refl, refl, refl)
