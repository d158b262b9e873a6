-- ===== src/Middleware/Cors/Origin.antt =====
-- CORS of internal/middleware/middleware.go: which origins may read the responses.
use grok_auth_proxy.Prelude.{
  ◌≡◌, refl, true, false, not, ◌&&◌, List, [], ◌∷◌, any, is_empty, Bool-cases, inl, inr,
  if◌then◌else◌,
}
use grok_auth_proxy.Text.{Str, codes, ◌==◌, strings}
use grok_auth_proxy.Http.{Headers, canonical_key, values}
use grok_auth_proxy.Http.Laws.{values-add, values-set, values-del}
use grok_auth_proxy.Middleware.Keys.{get_header}
use grok_auth_proxy.Middleware.Cors.{allows_all, set_header, allow_origin, cors}

abbrev allow : Str
allow = codes "Access-Control-Allow-Origin"

-- The keys are canonical, and no two of them are the same.
key_allow : canonical_key allow ≡ allow
unfolding canonical_key strings
key_allow = refl

other_keys :
    ((canonical_key (codes "Access-Control-Expose-Headers") == allow) ≡ false)
    × ((canonical_key (codes "Access-Control-Allow-Headers") == allow) ≡ false)
    × ((canonical_key (codes "Access-Control-Allow-Methods") == allow) ≡ false)
    × ((canonical_key (codes "Vary") == allow) ≡ false)
    × ((allow == allow) ≡ true)
unfolding canonical_key strings
other_keys = (refl, refl, refl, refl, refl)

values-set_header :
    (k v j : Str) (h : Headers)
    → values j (set_header k v h)
      ≡ (if canonical_key k == j then (if is_empty v then [] else v ∷ []) else values j h)
unfolding set_header
values-set_header k v j h = elim (Bool-cases (is_empty v)) [
  | inl gone ↦ rw (gone, values-del) refl
  | inr there ↦ rw (there, values-set) refl
]

values-allow_origin :
    (allowed : List Str) (origin : Str) (h : Headers)
    → values allow h ≡ []
    → values allow (allow_origin allowed origin h) ≡ (
        if allows_all allowed
        then codes "*" ∷ []
        else if not (is_empty origin) && any (λ o. o == origin) allowed
        then origin ∷ []
        else [])
unfolding allow_origin
values-allow_origin allowed origin h fresh =
    let (expose, headers, methods, vary, same) = other_keys in
    elim (Bool-cases (allows_all allowed)) [
      | inl all ↦ rw all (rw (values-set_header, key_allow, same) refl)
      | inr some_only ↦ rw some_only (elim (Bool-cases (is_empty origin)) [
        | inl absent ↦ rw absent (rw (values-add, vary, fresh) refl)
        | inr sent ↦ rw sent (elim (Bool-cases (any (λ o. o == origin) allowed)) [
          | inl listed ↦ rw listed (rw (values-set_header, key_allow, same, sent) refl)
          | inr unlisted ↦ rw unlisted (rw (values-add, vary, fresh) refl)
        ])
      ])
    ]

-- Where the response has no such header before, every response names as the origin that may read it:
-- any, if the list of allowed origins is empty or only "*"; otherwise the request's origin if it is
-- in the list, and none if it is not in the list or the request has none.
pub cors-values :
    (allowed : List Str) (method : Str) (header response : Headers)
    → values allow response ≡ []
    → let origin = get_header (codes "Origin") header in
      values allow (cors allowed method header response).0 ≡ (
        if allows_all allowed
        then codes "*" ∷ []
        else if not (is_empty origin) && any (λ o. o == origin) allowed
        then origin ∷ []
        else [])
unfolding cors
cors-values allowed method header response fresh =
    let (expose, headers, methods, vary, same) = other_keys in
    rw (values-set_header, expose, values-set_header, headers, values-set_header, methods)
      (values-allow_origin allowed (get_header (codes "Origin") header) response fresh)
