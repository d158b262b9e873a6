-- ===== src/Store/Table/Samples.antt =====
-- A table of keys that is a list of rows, and trivial hashes, for the tests.
use grok_auth_proxy.Prelude.{
  ◌≡◌, Bool, true, false, none, some, List, [], ◌∷◌, ◌++◌, map, Result, ok, err, In, any, find, inl,
  inr, Bool-cases, if◌then◌else◌,
}
use grok_auth_proxy.Text.{◌==◌}
use grok_auth_proxy.Text.Laws.{==_refl}
use grok_auth_proxy.Store.Text.{CryptoLib}
use grok_auth_proxy.Store.Table.{
  StoreError, db_failed, ApiKey, is_active, is_revocable, revoke_row, touch_row, count_if, KeyTable,
}

pub In-any :
    {A : Type 0} (p : A → Bool) (xs : List A) → any p xs ≡ false → (a : A) → In a xs → p a ≡ false
In-any p [] h a i = elim i [ ]
In-any p (x ∷ xs) h a i = elim (Bool-cases (p x)) [
  | inl holds ↦ absurd (cc (rw holds at h))
  | inr fails ↦ elim i [
    | inl same ↦ rw same fails
    | inr later ↦ In-any p xs (rw fails at h) a later
  ]
]

pub find_found :
    {A : Type 0} (p : A → Bool) (xs : List A) (a : A) → find p xs ≡ some a → In a xs × (p a ≡ true)
find_found p [] a h = absurd (cc)
find_found p (x ∷ xs) a h = elim (Bool-cases (p x)) [
  | inl holds ↦
      let same : some x ≡ some a = rw holds at h in let e : a ≡ x = cc in (inl e, rw e holds)
  | inr fails ↦ let (i, holds) = find_found p xs a (rw fails at h) in (inr i, holds)
]

pub find_missed :
    {A : Type 0} (p : A → Bool) (xs : List A) → find p xs ≡ none → (a : A) → In a xs → p a ≡ false
find_missed p [] h a i = elim i [ ]
find_missed p (x ∷ xs) h a i = elim (Bool-cases (p x)) [
  | inl holds ↦ absurd (cc (rw holds at h))
  | inr fails ↦ elim i [
    | inl same ↦ rw same fails
    | inr later ↦ find_missed p xs (rw fails at h) a later
  ]
]

abbrev same_lookup : ApiKey → ApiKey → Bool
same_lookup r s = s.key_lookup == r.key_lookup

unfoldable pub insert_row : ApiKey → List ApiKey → Result StoreError (List ApiKey)
insert_row r db = if any (same_lookup r) db then err db_failed else ok (db ++ r ∷ [])

pub insert_row-rows :
    (r : ApiKey) (db db' : List ApiKey)
    → insert_row r db ≡ ok db'
    → (db' ≡ db ++ r ∷ []) × ((s : ApiKey) → In s db → (s.key_lookup == r.key_lookup) ≡ false)
unfolding insert_row
insert_row-rows r db db' h = elim (Bool-cases (any (same_lookup r) db)) [
  | inl taken ↦ absurd (cc (rw taken at h))
  | inr new ↦
      let done : ok (db ++ r ∷ []) ≡ ok db' = rw new at h in (cc, In-any (same_lookup r) db new)
]

abbrev pub list_table : KeyTable
list_table = record {
  Db = List ApiKey;
  rows = λ db. db;
  create = insert_row;
  first_active = λ lookup db. ok (find (is_active lookup) db);
  revoke = λ id now db. ok (count_if (is_revocable id) db, map (revoke_row id now) db);
  touch = λ id now db. ok (map (touch_row id now) db);
  create_rows = insert_row-rows;
  first_active_found = λ lookup db r h. find_found (is_active lookup) db r (cc);
  first_active_missed = λ lookup db h. find_missed (is_active lookup) db (cc);
  revoke_rows = λ id now db db' n h. (cc, cc);
  touch_rows = λ id now db db' h. cc;
}

-- Texts are their own hashes.
abbrev pub plain_crypto : CryptoLib
plain_crypto = record {
  sha256_hex = λ s. s;
  bcrypt_generate = λ salt password. some password;
  bcrypt_matches = λ hash password. hash == password;
  matches-generate =
      λ salt password hash h. let same : password ≡ hash = cc in rw same (==_refl hash);
}
