-- ===== src/Proxy/Stream.antt =====
-- internal/proxy/proxy.go: the loop of forward that relays the response body and keeps a part of it
-- for the audit log.
pub mod Kept
use grok_auth_proxy.Prelude.{
  ℕ, ◌-◌, Bool, true, false, not, ◌&&◌, Option, none, some, List, [], ◌∷◌, ◌++◌, leb, length, take,
  is_empty, if◌then◌else◌,
}
use grok_auth_proxy.Text.{Str}

-- How a body ends.
pub data ReadEnd : Type 0 where
  eof read_error : ReadEnd

-- One round of the loop: the bytes that Read returns, whether the client takes them, and the error
-- that Read returns with them.
pub record Round : Type 0 where
  pub bytes : Str
  pub taken : Bool
  pub ended : Option ReadEnd

pub data StreamError : Type 0 where
  write_failed read_failed : StreamError

-- What the client has been sent, and the buffer for the audit log with its mark.
pub record Relay : Type 0 where
  pub sent : Str
  pub resp_buf : Str
  pub resp_trunc : Bool

abbrev pub no_relay : Relay
no_relay = record { sent = []; resp_buf = []; resp_trunc = false }

-- The tee into the audit buffer.
unfoldable pub tee : (audit_enabled : Bool) (max_body : ℕ) → Str → Relay → Relay
tee audit_enabled max_body bytes r =
    if not audit_enabled
    then r
    else (let remain = max_body - length r.resp_buf in
        if leb remain 0
        then record r { resp_trunc = true }
        else if leb (length bytes) remain
        then record r { resp_buf = r.resp_buf ++ bytes }
        else record r { resp_buf = r.resp_buf ++ take remain bytes; resp_trunc = true })

-- `n > 0` and the write to the client succeeded.
unfoldable pub relay : (audit_enabled : Bool) (max_body : ℕ) → Str → Relay → Relay
relay audit_enabled max_body bytes r =
    if is_empty bytes
    then r
    else tee audit_enabled max_body bytes (record r { sent = r.sent ++ bytes })

-- The loop. Where the rounds run out, the upstream has sent no more and has not ended: the third
-- result is `none`, and otherwise says with which error, if any, the loop has returned.
unfoldable pub stream :
    (audit_enabled : Bool) (max_body : ℕ) → List Round → Relay → Relay × Option (Option StreamError)
stream audit_enabled max_body [] r = (r, none)
stream audit_enabled max_body (round ∷ rounds) r =
    let r' = relay audit_enabled max_body round.bytes r in
    let rest = stream audit_enabled max_body rounds r' in
    if not (is_empty round.bytes) && not round.taken
    then (r, some (some write_failed))
    else elim round.ended [
      | none ↦ rest
      | some eof ↦ (r', some none)
      | some read_error ↦ (r', some (some read_failed))
    ]
