-- ===== src/Proxy/Stream/Kept.antt =====
-- What the client receives and what the audit log keeps of a response.
use grok_auth_proxy.Prelude.{
  ℕ, zero, suc, ◌-◌, ◌≤◌, ◌<◌, ◌≡◌, refl, Bool, true, false, not, ◌&&◌, none, some, List, [], ◌∷◌,
  ◌++◌, arith, length, take, length-take, length-append, take-append, take_all, Bool-cases, inl,
  inr, leb, ltb, sym, is_empty, if◌then◌else◌,
}
use mathlib.Core.List.{append-nil, append_assoc}
use grok_auth_proxy.Text.{Str}
use grok_auth_proxy.Proxy.Stream.{Round, eof, Relay, no_relay, tee, relay, stream}

-- All bytes of the rounds.
unfoldable pub body_of : List Round → Str
body_of [] = []
body_of (round ∷ rounds) = round.bytes ++ body_of rounds

-- The body as the audit log should keep it: its first bytes, with the mark that more were cut off.
abbrev pub kept : Bool → ℕ → Str → Relay
kept audit_enabled max_body body = record {
  sent = body;
  resp_buf = if audit_enabled then take max_body body else [];
  resp_trunc = audit_enabled && ltb max_body (length body);
}

-- Every round is taken by the client, and the last one, and only that, ends the body.
abbrev pub RunsToEnd : List Round → Type 0
RunsToEnd [] = ⊥
RunsToEnd (round ∷ []) = (round.taken ≡ true) × (round.ended ≡ some eof)
RunsToEnd (round ∷ r ∷ rounds) =
    (round.taken ≡ true) × (round.ended ≡ none) × RunsToEnd (r ∷ rounds)

take_cut : (n : ℕ) (xs ys : Str) → length xs ≤ n → take n (xs ++ ys) ≡ xs ++ take (n - length xs) ys
take_cut n xs ys h = rw (take-append n xs ys, take_all n xs h)

take_over : (n : ℕ) (xs ys : Str) → n ≤ length xs → take n (xs ++ ys) ≡ take n xs
take_over n xs ys h =
    let none_left : n - length xs ≡ 0 = omega arith in
    rw (take-append n xs ys, none_left) (append-nil (take n xs))

module _ (m : ℕ) (body : Str) (b : ℕ) (bs : Str) where
  -- The buffer is full already.
  tee_full :
      m ≤ length body
      → tee true m (b ∷ bs) (record (kept true m body) { sent = body ++ b ∷ bs })
        ≡ kept true m (body ++ b ∷ bs)
  unfolding tee
  tee_full full =
      let no_room : leb (m - length (take m body)) 0 ≡ true = ground (arith, length-take m body) in
      let more : ltb m (length (body ++ b ∷ bs)) ≡ true =
        ground (arith, length-append body (b ∷ bs)) in
      rw (no_room, more, take_over m body (b ∷ bs) full)

  -- The bytes fit.
  tee_fits :
      length body < m
      → length (b ∷ bs) ≤ m - length body
      → tee true m (b ∷ bs) (record (kept true m body) { sent = body ++ b ∷ bs })
        ≡ kept true m (body ++ b ∷ bs)
  unfolding tee
  tee_fits part fit =
      let room : leb (m - length (take m body)) 0 ≡ false = ground (arith, length-take m body) in
      let fits : leb (length (b ∷ bs)) (m - length (take m body)) ≡ true =
        ground (arith, length-take m body) in
      let whole : ltb m (length body) ≡ false = ground arith in
      let whole' : ltb m (length (body ++ b ∷ bs)) ≡ false =
        ground (arith, length-append body (b ∷ bs)) in
      rw
        (
          room,
          fits,
          whole,
          whole',
          take_cut m body (b ∷ bs) (omega arith),
          take_all m body (omega arith),
          take_all (m - length body) (b ∷ bs) fit,
        )
        refl

  -- Some of them fit.
  tee_cuts :
      length body < m
      → m - length body < length (b ∷ bs)
      → tee true m (b ∷ bs) (record (kept true m body) { sent = body ++ b ∷ bs })
        ≡ kept true m (body ++ b ∷ bs)
  unfolding tee
  tee_cuts part cut =
      let room : leb (m - length (take m body)) 0 ≡ false = ground (arith, length-take m body) in
      let fits : leb (length (b ∷ bs)) (m - length (take m body)) ≡ false =
        ground (arith, length-take m body) in
      let more : ltb m (length (body ++ b ∷ bs)) ≡ true =
        ground (arith, length-append body (b ∷ bs)) in
      rw (room, fits, more, take_cut m body (b ∷ bs) (omega arith), take_all m body (omega arith))
        refl

  tee-kept :
      tee true m (b ∷ bs) (record (kept true m body) { sent = body ++ b ∷ bs })
      ≡ kept true m (body ++ b ∷ bs)
  tee-kept = elim (Bool-cases (leb m (length body))) [
    | inl full ↦ tee_full (ground arith)
    | inr part ↦ elim (Bool-cases (leb (length (b ∷ bs)) (m - length body))) [
      | inl fit ↦ tee_fits (ground arith) (ground arith)
      | inr cut ↦ tee_cuts (ground arith) (ground arith)
    ]
  ]

relay-kept :
    (audit_enabled : Bool) (m : ℕ) (body bytes : Str)
    → relay audit_enabled m bytes (kept audit_enabled m body) ≡ kept audit_enabled m (body ++ bytes)
unfolding relay tee
relay-kept audit_enabled m body [] = rw (append-nil body)
relay-kept false m body (b ∷ bs) = refl
relay-kept true m body (b ∷ bs) = tee-kept m body b bs

and_false : (b : Bool) → (b && false) ≡ false
and_false true = refl
and_false false = refl

module _ (audit_enabled : Bool) (m : ℕ) (round : Round) (rounds : List Round) (r : Relay) where
  stream_next :
      round.taken ≡ true
      → round.ended ≡ none
      → stream audit_enabled m (round ∷ rounds) r
        ≡ stream audit_enabled m rounds (relay audit_enabled m round.bytes r)
  unfolding stream
  stream_next taken going = rw (taken, going, and_false (not (is_empty round.bytes))) refl

  stream_last :
      round.taken ≡ true
      → round.ended ≡ some eof
      → stream audit_enabled m (round ∷ rounds) r ≡ (relay audit_enabled m round.bytes r, some none)
  unfolding stream
  stream_last taken ended = rw (taken, ended, and_false (not (is_empty round.bytes))) refl

stream_from :
    (audit_enabled : Bool) (m : ℕ) (rounds : List Round) (body : Str)
    → RunsToEnd rounds
    → stream audit_enabled m rounds (kept audit_enabled m body)
      ≡ (kept audit_enabled m (body ++ body_of rounds), some none)
unfolding body_of
stream_from audit_enabled m [] body h = elim h [ ]
stream_from audit_enabled m (round ∷ []) body (taken, ended) = rw (
  stream_last audit_enabled m round [] (kept audit_enabled m body) taken ended,
  relay-kept audit_enabled m body round.bytes,
  append-nil round.bytes,
)
stream_from audit_enabled m (round ∷ r ∷ rounds) body (taken, going, h) =
    rw
      (
        stream_next audit_enabled m round (r ∷ rounds) (kept audit_enabled m body) taken going,
        relay-kept audit_enabled m body round.bytes,
        sym (append_assoc body round.bytes (body_of (r ∷ rounds))),
      )
      (stream_from audit_enabled m (r ∷ rounds) (body ++ round.bytes) h)

kept_nothing : (m : ℕ) → kept true m [] ≡ no_relay
kept_nothing zero = refl
kept_nothing (suc m) = let f : ltb (suc m) 0 ≡ false = ground arith in rw f

-- When the upstream's body is read to its end and the client takes every piece, the loop returns
-- without an error, the client has been sent exactly the body, and the buffer holds the first
-- bytes of it up to the audit limit, marked as truncated exactly if the body is longer. Without
-- auditing the buffer stays empty. The audit limit never touches what is forwarded.
pub stream_kept :
    (audit_enabled : Bool) (m : ℕ) (rounds : List Round)
    → RunsToEnd rounds
    → stream audit_enabled m rounds no_relay ≡ (kept audit_enabled m (body_of rounds), some none)
stream_kept true m rounds h = rw (kept_nothing m) at (stream_from true m rounds [] h)
stream_kept false m rounds h = stream_from false m rounds [] h
