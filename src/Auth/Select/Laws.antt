-- ===== src/Auth/Select/Laws.antt =====
-- The choice without a configured account: the usable entry that expires last.
use grok_auth_proxy.Prelude.{
  ◌≤◌, ◌≡◌, refl, ◌⊎◌, inl, inr, true, false, none, some, [], ◌∷◌, ok, err, arith, ap, In,
}
use grok_auth_proxy.Text.{Str, is_blank, strings}
use grok_auth_proxy.Auth.Entry.{Entry, FileData}
use grok_auth_proxy.Auth.Select.{no_usable_entry, better, best_from, select_entry}

abbrev pub Usable : Entry → Type 0
Usable e = is_blank e.key ≡ false

-- No usable entry of the map expires later than the given one.
abbrev pub IsLast : Entry → FileData → Type 0
IsLast e fd = (k : Str) (f : Entry) → In (k, f) fd → Usable f → f.expires_at ≤ e.expires_at

IsLast-cons :
    (e : Entry) (k : Str) (f : Entry) (fd : FileData)
    → (Usable f → f.expires_at ≤ e.expires_at)
    → IsLast e fd
    → IsLast e ((k, f) ∷ fd)
IsLast-cons e k f fd here later k' f' (inl p) u =
    let q : f' ≡ f = ap (λ (x : Str × Entry). x.1) p in rw q (here (rw q at u))
IsLast-cons e k f fd here later k' f' (inr m) u = later k' f' m u

-- What the loop ends with, once it has found an entry.
record IsBest (b e : Str × Entry) (fd : FileData) : Type 0 where
  grows : b.1.expires_at ≤ e.1.expires_at
  last : IsLast e.1 fd
  origin : (e ≡ b) ⊎ (In e fd × Usable e.1)

better-some :
    (b : Str × Entry) (k : Str) (f : Entry)
    → ((better (some b) k f ≡ some b) × (Usable f → f.expires_at ≤ b.1.expires_at))
      ⊎ ((better (some b) k f ≡ some (k, f)) × Usable f × (b.1.expires_at ≤ f.expires_at))
unfolding better
better-some b k f = ground arith

module _ (b : Str × Entry) {e : Str × Entry} (k : Str) (f : Entry) (fd : FileData) where
  IsBest-keep :
      (Usable f → f.expires_at ≤ b.1.expires_at) → IsBest b e fd → IsBest b e ((k, f) ∷ fd)
  IsBest-keep h i = record {
    grows = i.grows;
    last = IsLast-cons e.1 k f fd (λ u. omega (arith, h u, i.grows)) i.last;
    origin = elim i.origin [ inl same ↦ inl same | inr (m, u) ↦ inr (inr m, u) ];
  }

  IsBest-take :
      Usable f → b.1.expires_at ≤ f.expires_at → IsBest (k, f) e fd → IsBest b e ((k, f) ∷ fd)
  IsBest-take u h i = record {
    grows = omega (arith, h, i.grows);
    last = IsLast-cons e.1 k f fd (λ _. i.grows) i.last;
    origin = inr (elim i.origin [ inl same ↦ (inl same, rw same u) | inr (m, v) ↦ (inr m, v) ]);
  }

best_from-some :
    (b : Str × Entry) (fd : FileData)
    → (e : Str × Entry) × (best_from (some b) fd ≡ some e) × IsBest b e fd
unfolding best_from
best_from-some b [] =
    (b, refl, record { grows = omega arith; last = λ k f m. absurd m; origin = inl refl })
best_from-some b ((k, f) ∷ fd) =
    let (e, found, best) = best_from-some b fd in
    let (e', found', best') = best_from-some (k, f) fd in
    elim (better-some b k f) [
      | inl (kept, h) ↦ (e, rw kept found, IsBest-keep b k f fd h best)
      | inr (taken, u, h) ↦ (e', rw taken found', IsBest-take b k f fd u h best')
    ]

-- No entry of the map is usable.
abbrev pub NoneUsable : FileData → Type 0
NoneUsable fd = (k : Str) (f : Entry) → In (k, f) fd → is_blank f.key ≡ true

better-none :
    (k : Str) (f : Entry)
    → ((better none k f ≡ none) × (is_blank f.key ≡ true))
      ⊎ ((better none k f ≡ some (k, f)) × Usable f)
unfolding better
better-none k f = ground arith

NoneUsable-cons :
    (k : Str) (f : Entry) (fd : FileData)
    → is_blank f.key ≡ true
    → NoneUsable fd
    → NoneUsable ((k, f) ∷ fd)
NoneUsable-cons k f fd h n k' f' (inl p) =
    let q : f' ≡ f = ap (λ (x : Str × Entry). x.1) p in rw q h
NoneUsable-cons k f fd h n k' f' (inr m) = n k' f' m

-- The chosen entry: one of the map, usable, and no usable entry expires later.
pub record IsChosen (p : Str × Entry) (fd : FileData) : Type 0 where
  pub listed : In p fd
  pub usable : Usable p.1
  pub last : IsLast p.1 fd

IsChosen-first :
    (k : Str) (f : Entry) (fd : FileData) {e : Str × Entry}
    → Usable f
    → IsBest (k, f) e fd
    → IsChosen e ((k, f) ∷ fd)
IsChosen-first k f fd {e} u i = record {
  listed = elim i.origin [ inl same ↦ inl same | inr (m, _) ↦ inr m ];
  usable = elim i.origin [ inl same ↦ rw same u | inr (_, v) ↦ v ];
  last = IsLast-cons e.1 k f fd (λ _. i.grows) i.last;
}

IsChosen-skip :
    (k : Str) (f : Entry) (fd : FileData) {e : Str × Entry}
    → is_blank f.key ≡ true
    → IsChosen e fd
    → IsChosen e ((k, f) ∷ fd)
IsChosen-skip k f fd {e} h i = record {
  listed = inr i.listed;
  usable = i.usable;
  last = IsLast-cons e.1 k f fd (λ u. cc) i.last;
}

abbrev Outcome : FileData → Type 0
Outcome fd =
    ((best_from none fd ≡ none) × NoneUsable fd)
    ⊎ ((p : Str × Entry) × (best_from none fd ≡ some p) × IsChosen p fd)

best_from-none : (fd : FileData) → Outcome fd
unfolding best_from
best_from-none [] = inl (refl, λ k f m. absurd m)
best_from-none ((k, f) ∷ fd) =
    let later : Outcome fd = best_from-none fd in
    let (e, found, best) = best_from-some (k, f) fd in
    elim (better-none k f) [
      | inl (skipped, h) ↦ elim later [
        | inl (n, none_usable) ↦ inl (rw skipped n, NoneUsable-cons k f fd h none_usable)
        | inr (p, found', chosen) ↦ inr (p, rw skipped found', IsChosen-skip k f fd h chosen)
      ]
      | inr (taken, u) ↦ inr (e, rw taken found, IsChosen-first k f fd u best)
    ]

-- With no account configured, either an entry is chosen that is in the map, is usable and expires
-- last of the usable ones, or the error is that there is no usable entry, and there is none.
pub select_entry_unnamed :
    (fd : FileData)
    → ((p : Str × Entry) × (select_entry fd [] ≡ ok p) × IsChosen p fd)
      ⊎ ((select_entry fd [] ≡ err no_usable_entry) × NoneUsable fd)
unfolding select_entry strings
select_entry_unnamed fd = elim (best_from-none fd) [
  | inl (failed, n) ↦ inr (rw failed, n)
  | inr (p, found, c) ↦ inl (p, rw found, c)
]

-- Whatever the order in which the range goes through the map: two lists with the same entries are
-- both refused, or the chosen entries expire at the same instant.
pub select_entry_order :
    (fd fd' : FileData)
    → ((p : Str × Entry) → In p fd → In p fd')
    → ((p : Str × Entry) → In p fd' → In p fd)
    → ((select_entry fd [] ≡ err no_usable_entry) × (select_entry fd' [] ≡ err no_usable_entry))
      ⊎ ((p q : Str × Entry) × (select_entry fd [] ≡ ok p)
          × (select_entry fd' [] ≡ ok q)
          × (p.1.expires_at ≡ q.1.expires_at))
select_entry_order fd fd' into back = elim (select_entry_unnamed fd) [
  | inl (p, found, c) ↦ elim (select_entry_unnamed fd') [
    | inl (q, found', c') ↦ inr (
      p,
      q,
      found,
      found',
      omega (
        arith,
        c.last q.0 q.1 (back q c'.listed) c'.usable,
        c'.last p.0 p.1 (into p c.listed) c.usable,
      ),
    )
    | inr (_, n) ↦ let blank = n p.0 p.1 (into p c.listed) in absurd (cc (blank, c.usable))
  ]
  | inr (failed, n) ↦ elim (select_entry_unnamed fd') [
    | inl (q, found', c') ↦
        let blank = n q.0 q.1 (back q c'.listed) in absurd (cc (blank, c'.usable))
    | inr (failed', _) ↦ inl (failed, failed')
  ]
]
