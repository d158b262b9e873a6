-- ===== src/Store/Audit/Queue/Filled.antt =====
-- internal/store/store.go: the rows that InsertAuditLog has filled in.
use grok_auth_proxy.Prelude.{
  ℕ, ◌≡◌, refl, false, Option, none, some, List, [], ◌∷◌, ◌++◌, subst, is_empty, if_elim,
}
use grok_auth_proxy.Clock.{Time, is_zero}
use grok_auth_proxy.Store.Text.{hex_encode, random_hex}
use grok_auth_proxy.Store.Audit.{AuditLog, identified, dated, complete}
use grok_auth_proxy.Store.Audit.Queue.{InsertEnv}

-- Nothing of the row is left to fill in.
abbrev pub IsFull : AuditLog → Type 0
IsFull r = (is_empty r.id ≡ false) × (is_zero r.created_at ≡ false)

abbrev pub AllFull : List AuditLog → Type 0
AllFull [] = Unit
AllFull (r ∷ rs) = IsFull r × AllFull rs

-- The random bytes are some, and the clock is past the zero time.
abbrev pub IsUsable : InsertEnv → Type 0
IsUsable env =
    ((bytes : List ℕ) → env.random ≡ some bytes → is_empty bytes ≡ false)
    × (is_zero env.now ≡ false)

is_empty-hex_encode :
    (bytes : List ℕ) → is_empty bytes ≡ false → is_empty (hex_encode bytes) ≡ false
unfolding hex_encode
is_empty-hex_encode [] h = h
is_empty-hex_encode (b ∷ bytes) h = refl

pub complete_full :
    (random : Option (List ℕ)) (now : Time) (r : AuditLog)
    → IsFull r
    → complete random now r ≡ some r
unfolding complete
complete_full random now r (id, time) = rw (id, time)

dated-time :
    (now : Time) (r : AuditLog) → is_zero now ≡ false → is_zero (dated now r).created_at ≡ false
dated-time now r h =
    if_elim (λ (x : AuditLog). is_zero x.created_at ≡ false) (is_zero r.created_at) (λ _. h)
      (λ e. e)

dated-id : (now : Time) (r : AuditLog) → (dated now r).id ≡ r.id
dated-id now r =
    if_elim (λ (x : AuditLog). x.id ≡ r.id) (is_zero r.created_at) (λ _. refl) (λ _. refl)

identified-IsFull :
    (random : Option (List ℕ)) (r r' : AuditLog)
    → ((bytes : List ℕ) → random ≡ some bytes → is_empty bytes ≡ false)
    → is_zero r.created_at ≡ false
    → identified (random_hex random) r ≡ some r'
    → IsFull r'
unfolding random_hex
identified-IsFull none r r' h time e = absurd (cc)
identified-IsFull (some bytes) r r' h time e =
    let same : record r { id = hex_encode bytes } ≡ r' = cc in
    subst IsFull same (is_empty-hex_encode bytes (h bytes refl), time)

pub complete-IsFull :
    (env : InsertEnv) (r r' : AuditLog)
    → IsUsable env
    → complete env.random env.now r ≡ some r'
    → IsFull r'
unfolding complete
complete-IsFull env r r' (bytes, now) =
    let time = dated-time env.now r now in
    if_elim (λ (x : Option AuditLog). x ≡ some r' → IsFull r') (is_empty r.id)
      (λ _. identified-IsFull env.random (dated env.now r) r' bytes time)
      (λ id e.
        let same : dated env.now r ≡ r' = cc in
        subst IsFull same (rw (dated-id env.now r) id, time))

pub AllFull-append : (xs ys : List AuditLog) → AllFull xs → AllFull ys → AllFull (xs ++ ys)
AllFull-append [] ys hs ks = ks
AllFull-append (x ∷ xs) ys (h, hs) ks = (h, AllFull-append xs ys hs ks)

pub AllFull-split : (xs ys : List AuditLog) → AllFull (xs ++ ys) → AllFull xs × AllFull ys
AllFull-split [] ys h = (tt, h)
AllFull-split (x ∷ xs) ys (h, hs) = let (a, b) = AllFull-split xs ys hs in ((h, a), b)
