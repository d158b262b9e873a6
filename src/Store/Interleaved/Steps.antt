-- ===== src/Store/Interleaved/Steps.antt =====
-- What every step keeps of the cache and of the validations under way.
use grok_auth_proxy.Prelude.{◌≤◌, refl, inl, inr, List, [], ◌∷◌, ◌++◌, arith, In, subst}
use grok_auth_proxy.Text.{Str}
use grok_auth_proxy.Clock.{Time, after}
use grok_auth_proxy.Store.Text.{CryptoLib}
use grok_auth_proxy.Store.Table.{ApiKey, KeyTable}
use grok_auth_proxy.Store.Interleaved.{
  Flight, Running, Step, tick, query, put_row, get_entry, touch_entry, write_last_used, revoke_rows,
  invalidate, insert, Run, done, more,
}
use grok_auth_proxy.Store.Interleaved.Expiry.{
  Expires, Expires-put, Expires-get, Expires-touch, Expires-invalidate, Expires-weaken,
}

In-insert : {A : Type 0} (xs ys : List A) (a b : A) → In b (xs ++ ys) → In b (xs ++ a ∷ ys)
In-insert [] ys a b i = inr i
In-insert (x ∷ xs) ys a b (inl p) = inl p
In-insert (x ∷ xs) ys a b (inr i) = inr (In-insert xs ys a b i)

In-middle : {A : Type 0} (xs ys : List A) (a : A) → In a (xs ++ a ∷ ys)
In-middle [] ys a = inl refl
In-middle (x ∷ xs) ys a = inr (In-middle xs ys a)

module _ (crypto : CryptoLib) (table : KeyTable) where
  open table use {Db, rows}

  -- Entries of keys that Q holds of expire by T and the time to live, and validations of such keys
  -- have begun by T.
  abbrev pub Holds : (ApiKey → Type 0) → Time → Running Db → Type 0
  Holds Q T c = Expires Q T c.cache × ((f : Flight) → In f c.flights → Q f.rec → f.now ≤ T)

  -- A validation that the step lets read its row has begun by T, or Q does not hold of the row.
  abbrev pub Starts :
      (Q : ApiKey → Type 0) (T : Time) {c c' : Running Db} → Step crypto table c c' → Type 0
  Starts Q T (query c plaintext rec now _ _ _) = Q rec → now ≤ T
  Starts Q T _ = Unit

  pub Step-Holds :
      (Q : ApiKey → Type 0) (T : Time) {c c' : Running Db} (s : Step crypto table c c')
      → Starts Q T s
      → Holds Q T c
      → Holds Q T c'
  Step-Holds Q T (tick c t _) st h = h
  Step-Holds Q T (query c plaintext rec now _ _ _) st (e, b) = (
    e,
    λ f i q. elim i [
      | inl same ↦ let early : now ≤ T = st (subst (λ g. Q g.rec) same q) in rw same early
      | inr later ↦ b f later q
    ],
  )
  Step-Holds Q T (put_row c before after f same) st (e, b) = (
    Expires-put Q T f.lookup f.rec f.now c.cache (b f (rw same (In-middle before after f))) e,
    λ g i. b g (rw same (In-insert before after f g i)),
  )
  Step-Holds Q T (get_entry c k now) st (e, b) = (Expires-get Q T k now c.cache e, b)
  Step-Holds Q T (touch_entry c k now) st (e, b) = (Expires-touch Q T k now c.cache e, b)
  Step-Holds Q T (write_last_used c id now db _) st h = h
  Step-Holds Q T (revoke_rows c id now n db _) st h = h
  Step-Holds Q T (invalidate c id) st (e, b) = (Expires-invalidate Q T id c.cache e, b)
  Step-Holds Q T (insert c rec db _) st h = h

  -- Every entry expires at most the time to live after now, and every validation has begun before.
  abbrev pub Anything : ApiKey → Type 0
  Anything rec = Unit

  abbrev pub IsSane : Running Db → Type 0
  IsSane c = Holds Anything c.clock c

  Step-clock : {c c' : Running Db} → Step crypto table c c' → c.clock ≤ c'.clock
  Step-clock (tick c t le) = le
  Step-clock (query c plaintext rec now _ _ _) = omega arith
  Step-clock (put_row c before after f same) = omega arith
  Step-clock (get_entry c k now) = omega arith
  Step-clock (touch_entry c k now) = omega arith
  Step-clock (write_last_used c id now db _) = omega arith
  Step-clock (revoke_rows c id now n db _) = omega arith
  Step-clock (invalidate c id) = omega arith
  Step-clock (insert c rec db _) = omega arith

  Starts-now : {c c' : Running Db} (s : Step crypto table c c') → Starts Anything c.clock s
  Starts-now (query c plaintext rec now le _ _) = λ q. le
  Starts-now (tick c t le) = tt
  Starts-now (put_row c before after f same) = tt
  Starts-now (get_entry c k now) = tt
  Starts-now (touch_entry c k now) = tt
  Starts-now (write_last_used c id now db _) = tt
  Starts-now (revoke_rows c id now n db _) = tt
  Starts-now (invalidate c id) = tt
  Starts-now (insert c rec db _) = tt

  Step-IsSane : {c c' : Running Db} → Step crypto table c c' → IsSane c → IsSane c'
  Step-IsSane {c} {c'} s h =
      let le = Step-clock s in
      let (e, b) = Step-Holds Anything c.clock s (Starts-now s) h in
      (
        Expires-weaken Anything Anything c.clock c'.clock c'.cache le (λ rec q. q) e,
        λ f i q. let early : f.now ≤ c.clock = b f i q in omega arith,
      )

  pub Run-IsSane : (id : Str) {c c' : Running Db} → Run crypto table id c c' → IsSane c → IsSane c'
  Run-IsSane id (done c) h = h
  Run-IsSane id (more c c' c'' r s _) h = Step-IsSane s (Run-IsSane id r h)
