-- ===== src/Store/Audit/Samples.antt =====
-- A table of the audit log that is a list of rows, for the tests.
use grok_auth_proxy.Prelude.{
  ◌≡◌, refl, Bool, false, List, [], ◌∷◌, ◌++◌, Result, ok, err, In, any, find, keep, take, drop,
  arith, inl, inr, Bool-cases, leb, if◌then◌else◌, if_elim,
}
use grok_auth_proxy.Text.{◌==◌}
use grok_auth_proxy.Store.Table.{StoreError, db_failed, count_if}
use grok_auth_proxy.Store.Table.Samples.{In-any, find_found, find_missed}
use grok_auth_proxy.Store.Audit.{AuditLog, satisfies, IsDescending, IsReordered, AuditTable}

unfoldable pub insert_log : AuditLog → List AuditLog → Result StoreError (List AuditLog)
insert_log r db = if any (λ s. s.id == r.id) db then err db_failed else ok (db ++ r ∷ [])

pub insert_log-rows :
    (r : AuditLog) (db db' : List AuditLog)
    → insert_log r db ≡ ok db'
    → (db' ≡ db ++ r ∷ []) × ((s : AuditLog) → In s db → (s.id == r.id) ≡ false)
unfolding insert_log
insert_log-rows r db db' h = elim (Bool-cases (any (λ s. s.id == r.id) db)) [
  | inl taken ↦ absurd (cc (rw taken at h))
  | inr new ↦
      let done : ok (db ++ r ∷ []) ≡ ok db' = rw new at h in (cc, In-any (λ s. s.id == r.id) db new)
]

-- The rows by time, the newest first.
abbrev place : AuditLog → List AuditLog → List AuditLog
place r [] = r ∷ []
place r (s ∷ rs) =
    let rest = place r rs in if leb s.created_at r.created_at then r ∷ s ∷ rs else s ∷ rest

abbrev pub newest_first : List AuditLog → List AuditLog
newest_first [] = []
newest_first (r ∷ rs) = place r (newest_first rs)

place-count :
    (p : AuditLog → Bool) (r : AuditLog) (rs : List AuditLog)
    → count_if p (place r rs) ≡ count_if p (r ∷ rs)
place-count p r [] = refl
place-count p r (s ∷ rs) =
    if_elim (λ (xs : List AuditLog). count_if p xs ≡ count_if p (r ∷ s ∷ rs))
      (leb s.created_at r.created_at) (λ _. refl) (λ _. omega (arith, place-count p r rs))

In-place : (r : AuditLog) (rs : List AuditLog) (s : AuditLog) → In s (place r rs) → In s (r ∷ rs)
In-place r [] s = λ i. i
In-place r (t ∷ rs) s =
    if_elim (λ (xs : List AuditLog). In s xs → In s (r ∷ t ∷ rs)) (leb t.created_at r.created_at)
      (λ _ i. i)
      (λ _ i. elim i [
        | inl same ↦ inr (inl same)
        | inr later ↦ elim (In-place r rs s later) [
          | inl same ↦ inl same
          | inr there ↦ inr (inr there)
        ]
      ])

place-IsDescending :
    (r : AuditLog) (rs : List AuditLog) → IsDescending rs → IsDescending (place r rs)
place-IsDescending r [] h = (λ s i. elim i [ ], tt)
place-IsDescending r (t ∷ rs) (newest, h) =
    if_elim IsDescending (leb t.created_at r.created_at)
      (λ e. (
        λ s i. elim i [ inl same ↦ rw same e | inr later ↦ let a = newest s later in ground arith ],
        (newest, h),
      ))
      (λ e. (
        λ s i. elim (In-place r rs s i) [
          | inl same ↦ rw same (ground arith)
          | inr later ↦ newest s later
        ],
        place-IsDescending r rs h,
      ))

pub newest_first-IsReordered : (rs : List AuditLog) → IsReordered (newest_first rs) rs
newest_first-IsReordered [] p = refl
newest_first-IsReordered (r ∷ rs) p =
    omega (arith, place-count p r (newest_first rs), newest_first-IsReordered rs p)

pub newest_first-IsDescending : (rs : List AuditLog) → IsDescending (newest_first rs)
newest_first-IsDescending [] = tt
newest_first-IsDescending (r ∷ rs) =
    place-IsDescending r (newest_first rs) (newest_first-IsDescending rs)

abbrev pub list_audit_table : AuditTable
list_audit_table = record {
  Db = List AuditLog;
  rows = λ db. db;
  create = insert_log;
  first = λ id db. ok (find (λ r. r.id == id) db);
  count = λ cs db. ok (count_if (satisfies cs) db);
  select =
      λ cs limit offset db. ok (take limit (drop offset (newest_first (keep (satisfies cs) db))));
  create_rows = insert_log-rows;
  first_found = λ id db r h. find_found (λ r. r.id == id) db r (cc);
  first_missed = λ id db h. find_missed (λ r. r.id == id) db (cc);
  count_rows = λ cs db n h. cc;
  select_rows = λ cs limit offset db rs h.
      let found = keep (satisfies cs) db in
      (newest_first found, newest_first-IsReordered found, newest_first-IsDescending found, cc);
}
