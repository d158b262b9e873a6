-- ===== src/Auth/Select/Account.antt =====
-- The choice for a configured account: the first entry, in the order of the range, whose name is
-- the account or holds it.
use grok_auth_proxy.Prelude.{
  ◌≡◌, refl, ◌≢◌, ◌⊎◌, inl, inr, ap, true, false, [], ◌∷◌, ok, err, arith, In, Bool-cases,
}
use grok_auth_proxy.Text.{Str, contains}
use grok_auth_proxy.Text.Laws.{==_iff}
use grok_auth_proxy.Auth.Entry.{Entry, FileData}
use grok_auth_proxy.Auth.Select.{account_not_found, names_account, find_account, select_entry}

-- The name of the entry is the account, or holds it.
abbrev pub Names : Str → Str → Type 0
Names account k = (k ≡ account) ⊎ (contains k account ≡ true)

pub names_account_iff : (account k : Str) → (names_account account k ≡ true) → Names account k
names_account_iff account k h = ground (arith, ==_iff k account)

Names-names_account : (account k : Str) → Names account k → names_account account k ≡ true
Names-names_account account k h = ground (arith, ==_iff k account)

abbrev pub NoneNamed : Str → FileData → Type 0
NoneNamed account fd = (k : Str) (e : Entry) → In (k, e) fd → ¬ Names account k

NoneNamed-cons :
    (account k : Str) (f : Entry) (fd : FileData)
    → names_account account k ≡ false
    → NoneNamed account fd
    → NoneNamed account ((k, f) ∷ fd)
NoneNamed-cons account k f fd h n k' e (inl p) named =
    let q : k' ≡ k = ap (λ (x : Str × Entry). x.0) p in
    cc (Names-names_account account k (rw q at named))
NoneNamed-cons account k f fd h n k' e (inr m) named = n k' e m named

abbrev Found : Str → FileData → Type 0
Found account fd =
    ((p : Str × Entry) × (find_account account fd ≡ ok p) × In p fd × Names account p.0)
    ⊎ ((find_account account fd ≡ err account_not_found) × NoneNamed account fd)

find_account-Found : (account : Str) (fd : FileData) → Found account fd
unfolding find_account
find_account-Found account [] = inr (refl, λ k e m. absurd m)
find_account-Found account ((k, f) ∷ fd) =
    let later : Found account fd = find_account-Found account fd in
    elim (Bool-cases (names_account account k)) [
      | inl named ↦ inl ((k, f), rw named, inl refl, names_account_iff account k named)
      | inr other ↦ elim later [
        | inl (p, found, m, n) ↦ inl (p, rw other found, inr m, n)
        | inr (failed, none_named) ↦
            inr (rw other failed, NoneNamed-cons account k f fd other none_named)
      ]
    ]

-- With an account configured, either an entry of the map whose name is the account or holds it is
-- chosen, or the error is that the account is not found, and no name in the map is or holds it.
pub select_entry_named :
    (fd : FileData) (account : Str)
    → account ≢ []
    → ((p : Str × Entry) × (select_entry fd account ≡ ok p) × In p fd × Names account p.0)
      ⊎ ((select_entry fd account ≡ err account_not_found) × NoneNamed account fd)
unfolding select_entry
select_entry_named fd account given =
    ground (arith, find_account-Found account fd, ==_iff account [])

-- An entry whose name is the account is passed over for another one whose name only holds it, if
-- the range comes to that one first.
pub select_entry_shadowed :
    (fd : FileData) (account k : Str) (e f : Entry)
    → account ≢ []
    → contains k account ≡ true
    → (select_entry ((k, e) ∷ (account, f) ∷ fd) account ≡ ok (k, e))
      × (select_entry ((account, f) ∷ (k, e) ∷ fd) account ≡ ok (account, f))
unfolding select_entry find_account
select_entry_shadowed fd account k e f given h =
    ground (arith, ==_iff account [], ==_iff account account)
