-- ===== src/Auth/Entry.antt =====
-- internal/auth/auth.go: the credential blocks of auth.json, the map that holds them, and the
-- functions on texts.
-- A Go map is an association list; a range over it goes through the list in its order. Where the
-- order of a range matters, the theorems hold of every order.
pub mod Laws
use grok_auth_proxy.Prelude.{not, List, [], ◌∷◌, ◌++◌, leb, length, take, if◌then◌else◌}
use grok_auth_proxy.Text.{Str, codes, is_blank, trim_space, to_lower, contains}
use grok_auth_proxy.Clock.{Time}
unfoldable pub use grok_auth_proxy.Assoc.{lookup, put}

pub record Entry : Type 0 where
  pub key : Str
  pub auth_mode : Str
  pub refresh_token : Str
  pub expires_at : Time
  pub client_id : Str
  pub oidc_client_id : Str
  pub issuer : Str
  pub oidc_issuer : Str

abbrev pub FileData : Type 0
FileData = List (Str × Entry)

-- firstNonEmpty
unfoldable pub first_non_empty : List Str → Str
first_non_empty [] = []
first_non_empty (v ∷ vals) = if not (is_blank v) then v else first_non_empty vals

unfoldable pub resolved_client_id : Entry → Str
resolved_client_id e = first_non_empty (e.client_id ∷ e.oidc_client_id ∷ [])

unfoldable pub resolved_issuer : Entry → Str
resolved_issuer e = first_non_empty (e.issuer ∷ e.oidc_issuer ∷ [])

-- The loop of cloneFileData, into the map `out`.
clone_into : FileData → FileData → FileData
clone_into out [] = out
clone_into out ((k, e) ∷ src) = clone_into (put k e out) src

unfoldable pub clone_file_data : FileData → FileData
unfolding clone_into
clone_file_data src = clone_into [] src

-- The three bytes of "…".
abbrev pub ellipsis : Str
ellipsis = 0xe2 ∷ 0x80 ∷ 0xa6 ∷ []

unfoldable pub redact_map_key : Str → Str
redact_map_key k = if leb (length k) 24 then k else take 20 k ++ ellipsis

-- `if len(s) > 200 { s = s[:200] + "…" }`
abbrev pub cut : Str → Str
cut s = if leb (length s) 200 then s else take 200 s ++ ellipsis

abbrev pub redacted_body : Str
redacted_body = codes "(redacted error body)"

unfoldable pub sanitize_err_body : Str → Str
sanitize_err_body b =
    let s = cut (trim_space b) in
    if contains (to_lower s) (codes "access_token") then redacted_body else s
