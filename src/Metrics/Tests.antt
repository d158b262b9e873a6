-- ===== src/Metrics/Tests.antt =====
-- The metrics on a few requests and ticks.
use grok_auth_proxy.Prelude.{◌*◌, ◌≡◌, refl, inl, inr, [], ◌∷◌, length, map}
use grok_auth_proxy.Prelude.Int.{pos}
use grok_auth_proxy.Text.{codes, strings}
use grok_auth_proxy.Clock.{second}
use grok_auth_proxy.Auth.Manager.{publish_metrics}
use grok_auth_proxy.Auth.Refresh.{failed}
use grok_auth_proxy.Auth.Samples.{start, late, env_at, manager_of, sample_json}
use grok_auth_proxy.Auth.Token.{proactive_tick}
use grok_auth_proxy.Metrics.{
  inc, new_metrics, set_auth_state, inc_auth_refresh, unix, observe, observe_all,
}
use grok_auth_proxy.Metrics.Series.{stray, strays_unbounded}
use grok_auth_proxy.Metrics.Published.{
  apply_event, collect, IsPublished, proactive_tick-IsPublished,
}

measuring : Unit {0}
unfolding strings publish_metrics proactive_tick inc new_metrics set_auth_state inc_auth_refresh
    observe observe_all apply_event collect
measuring = tt

epoch : unix (62_198_755_200 * second) ≡ pos 0
epoch = refl

strays_unbounded_example :
    length (observe_all (map stray (codes "A" ∷ codes "B" ∷ [])) new_metrics).requests ≡ 2
unfolding measuring
strays_unbounded_example =
    strays_unbounded (codes "A" ∷ codes "B" ∷ [])
      ((λ y i. elim i [ inl e ↦ rw e refl | inr j ↦ elim j [ ] ]), ((λ y i. elim i [ ]), tt))

proactive_tick-IsPublished_example :
    let (m', events) = proactive_tick sample_json start (env_at start failed) (manager_of late) in
    IsPublished m' (collect start events new_metrics)
unfolding measuring
proactive_tick-IsPublished_example =
    proactive_tick-IsPublished sample_json (env_at start failed) start (manager_of late) new_metrics
      refl refl
