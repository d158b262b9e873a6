-- ===== src/Clock.antt =====
-- Package time: instants and durations, as far as the program uses them.
-- An instant counts the nanoseconds from 1 January of the year before year 0, in UTC, so that every
-- instant that RFC 3339 can write (years 0000 to 9999, with any zone offset) has a number, and the
-- zero Time of Go, 1 January of year 1, is `zero_time`.
use grok_auth_proxy.Prelude.{ℕ, ◌+◌, ◌-◌, ◌*◌, Bool, ltb, eqb}
use grok_auth_proxy.Prelude.Int.{ℤ, pos_part, neg_part}

abbrev pub Time : Type 0
Time = ℕ

abbrev pub second : ℕ
second = 1_000_000_000

abbrev pub zero_time : Time
zero_time = 63_158_400 * second

-- t.IsZero()
abbrev pub is_zero : Time → Bool
is_zero t = eqb t zero_time

-- t.Before(u), t.After(u)
abbrev pub before : Time → Time → Bool
before t u = ltb t u

abbrev pub after : Time → Time → Bool
after t u = ltb u t

-- t.Add(d)
abbrev pub add : Time → ℤ → Time
add t d = t + pos_part d - neg_part d
