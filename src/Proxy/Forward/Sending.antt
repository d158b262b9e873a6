-- ===== src/Proxy/Forward/Sending.antt =====
-- What the attempts of forward send, step by step.
use grok_auth_proxy.Prelude.{
  ℕ, ◌≡◌, refl, Bool, Option, none, some, List, [], ◌∷◌, ◌++◌, arith, Result, ok, err, eqb, eqb_iff,
  Bool-cases, inl, inr, subst,
}
use grok_auth_proxy.Text.{Str}
use grok_auth_proxy.Clock.{Time}
use grok_auth_proxy.Proxy.Stream.{no_relay, Relay, stream, StreamError}
use grok_auth_proxy.Proxy.Context.{
  ClientRequest, UpstreamRequest, UpstreamResponse, ForwardError, World, Upstream, Ctx,
}
use grok_auth_proxy.Proxy.Audit.{record_audit}
use grok_auth_proxy.Proxy.Forward.{
  Outcome, upstream_request, end_relay, relay_response, refresh_and_retry, answered, dispatch,
  send_with,
}

module _ {S : Type 0} (world : World S) where
  -- A token that GetAccessToken gives, in some state of the world.
  abbrev pub Granted : Str → Type 0
  Granted token = (s : S) × ((world.get_access_token s).0 ≡ ok token)

  -- A request that the upstream answers with 401, in some state of the world.
  abbrev pub Unauthorized : UpstreamRequest → Type 0
  Unauthorized req =
      (s : S) × (resp : UpstreamResponse) × ((world.do_request req s).0 ≡ ok resp)
      × (resp.status_code ≡ 401)

  module _ (u : Upstream) (client : ClientRequest) (body : Str)
      (before : List UpstreamRequest) where
    -- One request at most, with the body.
    pub data Once : List UpstreamRequest → Type 0 where
      unsent : Once before
      sent :
          (token : Str)
          → Granted token
          → Once (before ++ upstream_request world u client token body ∷ [])

    -- Two requests at most, with the same body, and the second only where the first was answered
    -- with 401.
    pub data AtMostTwice : List UpstreamRequest → Type 0 where
      unsent : AtMostTwice before
      once :
          (token : Str)
          → Granted token
          → AtMostTwice (before ++ upstream_request world u client token body ∷ [])
      twice :
          (token token' : Str)
          → Granted token
          → Unauthorized (upstream_request world u client token body)
          → Granted token'
          → AtMostTwice (
              (before ++ upstream_request world u client token body ∷ [])
              ++ upstream_request world u client token' body ∷ [])

  module _ (u : Upstream) (client : ClientRequest) where
    pub record_audit-requests :
        (start : Time) (req_body resp_body : Str) (resp_trunc : Bool) (status : ℕ)
        (call_err : Option ForwardError) (c : Ctx S)
        → (record_audit world u client start req_body resp_body resp_trunc status call_err
            c).requests
          ≡ c.requests
    unfolding record_audit
    record_audit-requests start req_body resp_body resp_trunc status call_err c = ground arith

    module _ (start : Time) (body : Str) where
      end_relay-requests :
          (resp : UpstreamResponse) (end : Relay × Option (Option StreamError)) (c : Ctx S)
          → (end_relay world u client start body resp end c).1.requests ≡ c.requests
      end_relay-requests resp (relay, none) c = refl
      end_relay-requests resp (relay, some none) c = record_audit-requests _ _ _ _ _ _ _
      end_relay-requests resp (relay, some (some e)) c = record_audit-requests _ _ _ _ _ _ _

      relay_response-requests :
          (resp : UpstreamResponse) (c : Ctx S)
          → (relay_response world u client start body resp c).1.requests ≡ c.requests
      unfolding relay_response
      relay_response-requests resp c =
          end_relay-requests resp (stream u.audit_enabled u.max_body resp.rounds no_relay) c

      module _ (token : Str) (g : Granted token) where
        abbrev req : UpstreamRequest
        req = upstream_request world u client token body

        -- A retry sends at most one more request.
        abbrev Retries : (Ctx S → Outcome × Ctx S) → Type 0
        Retries retry = (c : Ctx S) → Once u client body c.requests (retry c).1.requests

        -- At most one more request behind a first that was answered with 401.
        second :
            (before after : List UpstreamRequest)
            → Unauthorized req
            → Once u client body (before ++ req ∷ []) after
            → AtMostTwice u client body before after
        second before after refusal unsent = once token g
        second before after refusal (sent token' g') = twice token token' g refusal g'

        answered_once :
            (answer : Result Str UpstreamResponse × S) (c : Ctx S)
            → (answered world u client start body none answer c).1.requests ≡ c.requests
        unfolding answered
        answered_once (err e, s) c = record_audit-requests _ _ _ _ _ _ _
        answered_once (ok resp, s) c = relay_response-requests resp _

        module _ (retry : Ctx S → Outcome × Ctx S) (retries : Retries retry) where
          refreshed :
              (r : Option Str × S) (c : Ctx S) (before : List UpstreamRequest)
              → Unauthorized req
              → c.requests ≡ before ++ req ∷ []
              → AtMostTwice u client body before
                  (refresh_and_retry world u client start body retry r c).1.requests
          refreshed (some e, s) c before refusal same =
              rw (record_audit-requests _ _ _ _ _ _ _, same) (once token g)
          refreshed (none, s) c before refusal same =
              second before (retry (record c { world = s })).1.requests refusal (
                subst (λ l. Once u client body l (retry (record c { world = s })).1.requests) same
                  (retries (record c { world = s })))

          answered_twice :
              (answer : Result Str UpstreamResponse × S) (c : Ctx S) (before : List UpstreamRequest)
              (s₀ : S)
              → (world.do_request req s₀).0 ≡ answer.0
              → c.requests ≡ before ++ req ∷ []
              → AtMostTwice u client body before
                  (answered world u client start body (some retry) answer c).1.requests
          unfolding answered
          answered_twice (err e, s) c before s₀ from same =
              rw (record_audit-requests _ _ _ _ _ _ _, same) (once token g)
          answered_twice (ok resp, s) c before s₀ from same =
              elim (Bool-cases (eqb resp.status_code 401)) [
                | inl is401 ↦ rw is401 (
                    refreshed (world.force_refresh s) (record c { world = s }) before
                      (s₀, resp, from, (eqb_iff _ _).0 is401) same)
                | inr other ↦
                    rw (other, relay_response-requests resp (record c { world = s }), same)
                      (once token g)
              ]

      dispatch_once :
          (token : Str) (g : Granted token) (bad : Option Str) (c : Ctx S)
          → Once u client body c.requests
              (dispatch world u client start body none
                (upstream_request world u client token body)
                bad
                c).1.requests
      unfolding dispatch
      dispatch_once token g (some e) c = unsent
      dispatch_once token g none c =
          let req = upstream_request world u client token body in
          rw
            (answered_once token g (world.do_request req c.world)
              (record c { requests = c.requests ++ req ∷ [] }))
            (sent token g)

      pub send_once :
          (granted : Result Str Str × S) (c : Ctx S) (s₀ : S)
          → (world.get_access_token s₀).0 ≡ granted.0
          → Once u client body c.requests
              (send_with world u client start body none granted c).1.requests
      unfolding send_with
      send_once (err e, s) c s₀ from = rw (record_audit-requests _ _ _ _ _ _ _) unsent
      send_once (ok token, s) c s₀ from = dispatch_once token (s₀, from) _ (record c { world = s })

      module _ (retry : Ctx S → Outcome × Ctx S)
          (retries : (c : Ctx S) → Once u client body c.requests (retry c).1.requests) where
        dispatch_twice :
            (token : Str) (g : Granted token) (bad : Option Str) (c : Ctx S)
            → AtMostTwice u client body c.requests
                (dispatch world u client start body
                  (some retry)
                  (upstream_request world u client token body)
                  bad
                  c).1.requests
        unfolding dispatch
        dispatch_twice token g (some e) c = unsent
        dispatch_twice token g none c =
            let req = upstream_request world u client token body in
            answered_twice token g retry retries (world.do_request req c.world)
              (record c { requests = c.requests ++ req ∷ [] }) c.requests c.world refl refl

        pub send_twice :
            (granted : Result Str Str × S) (c : Ctx S) (s₀ : S)
            → (world.get_access_token s₀).0 ≡ granted.0
            → AtMostTwice u client body c.requests
                (send_with world u client start body (some retry) granted c).1.requests
        unfolding send_with
        send_twice (err e, s) c s₀ from = rw (record_audit-requests _ _ _ _ _ _ _) unsent
        send_twice (ok token, s) c s₀ from =
            dispatch_twice token (s₀, from) _ (record c { world = s })
