-- ===== src/Proxy/Runs.antt =====
-- crates/pqc-proxy/src/proxy.rs: any interleaving of requests. A handler waits at two places, for the
-- head of the upstream's answer and for its body; between them other requests, reloads, rotations
-- and health checks take their steps.
use pqc_gateway.Common.{
  done_unique, ap, ℕ, ◌+◌, ◌^◌, ◌<◌, ◌≡◌, List, ◌∷◌, ◌++◌, Bytes, Str, Bool, Outcome, done, Result,
  length,
}
use mathlib.Core.Path.{subst}
use pqc_gateway.CircuitBreaker.Manager.{update_health}
use pqc_gateway.CircuitBreaker.Sound.{update_health-IsBreaker}
use pqc_gateway.Config.{GatewayConfig}
use pqc_gateway.Proxy.{Outside, ProxyState, Response, reload_config}
use pqc_gateway.Proxy.Admission.{Request, Forward, respond, forward, admit}
use pqc_gateway.Proxy.Answers.{
  RouteLimits, answer_body-IsSound, complete-IsSound, reload_config-IsSound, heard-IsSound,
}
use pqc_gateway.Proxy.Completion.{
  failed, timed_out, tell_status, count_request, answer_body, complete,
}
use pqc_gateway.Proxy.Sound.{IsSound, EndsSound, admit-IsSound, with_breaker}
use pqc_gateway.VersionedKeys.{VersionedKeyManager, rotate}
use pqc_gateway.VersionedKeys.Rotation.{IsManager, rotate-IsManager}

module _ (o : Outside) where
  open o use {cr, ht, fl}

  -- A handler that waits.
  pub data Waiting : Type 0 where
    sent : Forward o → Waiting
    reading : Forward o → ℕ → ht.Headers → Waiting

  pub data Step : ProxyState o × List Waiting → ProxyState o × List Waiting → Type 1 where
    refused :
        (now : ℕ) (s s' : ProxyState o) (req : Request o) (r : Response o) (ws : List Waiting)
        → admit o now s req ≡ done (s', respond r)
        → Step (s, ws) (s', ws)
    admitted :
        (now : ℕ) (s s' : ProxyState o) (req : Request o) (f : Forward o) (ws : List Waiting)
        → admit o now s req ≡ done (s', forward f)
        → Step (s, ws) (s', sent f ∷ ws)
    heard :
        (now duration_ms status : ℕ) (h : ht.Headers) (s : ProxyState o) (f : Forward o)
        (before after : List Waiting)
        → Step
            (s, before ++ (sent f ∷ after))
            (
              count_request o f status duration_ms (tell_status o f now status s),
              before ++ (reading f status h ∷ after),
            )
    broken :
        (now duration_ms : ℕ) (e : Str) (s s' : ProxyState o) (f : Forward o) (r : Response o)
        (before after : List Waiting)
        → complete o now duration_ms s f (failed e) ≡ done (s', r)
        → Step (s, before ++ (sent f ∷ after)) (s', before ++ after)
    late :
        (now duration_ms : ℕ) (s s' : ProxyState o) (f : Forward o) (r : Response o)
        (before after : List Waiting)
        → complete o now duration_ms s f timed_out ≡ done (s', r)
        → Step (s, before ++ (sent f ∷ after)) (s', before ++ after)
    answered :
        (status : ℕ) (h : ht.Headers) (read : Result Bytes Str) (s s' : ProxyState o)
        (f : Forward o) (r : Response o) (before after : List Waiting)
        → answer_body o s f status h read ≡ done (s', r)
        → Step (s, before ++ (reading f status h ∷ after)) (s', before ++ after)
    reloaded :
        (s : ProxyState o) (config : GatewayConfig) (ws : List Waiting)
        → RouteLimits o config.routes
        → Step (s, ws) (reload_config o s config, ws)
    rotated :
        (s : ProxyState o) (seed : Bytes) (now : ℕ) (fill : ℕ → ℕ → Bytes)
        (m' : VersionedKeyManager) (kid : Str) (ws : List Waiting)
        → length seed ≡ 32
        → s.versioned_keys.next_version + 1 < 2 ^ 64
        → s.versioned_keys.max_retained_keys + 1 < 2 ^ 64
        → rotate cr seed now fill s.versioned_keys ≡ done (m', kid)
        → Step (s, ws) (record s { versioned_keys = m' }, ws)
    health_checked :
        (now : ℕ) (upstream : Str) (healthy : Bool) (s : ProxyState o) (ws : List Waiting)
        → Step
            (s, ws)
            (
              record s { circuit_breaker = update_health now s.circuit_breaker upstream healthy },
              ws,
            )

  pub data Reach : ProxyState o × List Waiting → ProxyState o × List Waiting → Type 1 where
    stay : (w : ProxyState o × List Waiting) → Reach w w
    then_ : (u v w : ProxyState o × List Waiting) → Step u v → Reach v w → Reach u w

  -- The state of the only result of a computation.
  IsSound-result :
      {D : Type 0} (x : Outcome (ProxyState o × D)) (s : ProxyState o) (d : D)
      → EndsSound o x
      → x ≡ done (s, d)
      → IsSound o s
  IsSound-result x s d (s', d', e, v) q =
      subst (IsSound o) (ap (λ p. p.0) (done_unique (s', d') (s, d) x e q)) v

  pub Step-IsSound : (u v : ProxyState o × List Waiting) → Step u v → IsSound o u.0 → IsSound o v.0
  Step-IsSound _ _ (refused now s s' req r ws e) h =
      IsSound-result (admit o now s req) s' (respond r) (admit-IsSound o now s req h) e
  Step-IsSound _ _ (admitted now s s' req f ws e) h =
      IsSound-result (admit o now s req) s' (forward f) (admit-IsSound o now s req h) e
  Step-IsSound _ _ (heard now duration_ms status hs s f before after) h =
      heard-IsSound o f now status duration_ms s h
  Step-IsSound _ _ (broken now duration_ms e s s' f r before after q) h =
      IsSound-result _ s' r (complete-IsSound o now duration_ms s f (failed e) h) q
  Step-IsSound _ _ (late now duration_ms s s' f r before after q) h =
      IsSound-result _ s' r (complete-IsSound o now duration_ms s f timed_out h) q
  Step-IsSound _ _ (answered status hs read s s' f r before after q) h =
      IsSound-result _ s' r (answer_body-IsSound o s f status hs read h) q
  Step-IsSound _ _ (reloaded s config ws l) h = reload_config-IsSound o s config h l
  Step-IsSound _ _ (rotated s seed now fill m' kid ws a b c q) h =
      let (m₁, kid₁, e, v, _, _, _) =
        rotate-IsManager cr seed now fill s.versioned_keys h.versioned_ok a b c in
      with_versioned s m' h
        (subst (IsManager cr) (ap (λ p. p.0) (done_unique (m₁, kid₁) (m', kid) _ e q)) v)
    where
      with_versioned :
          (s : ProxyState o) (m : VersionedKeyManager)
          → IsSound o s
          → IsManager cr m
          → IsSound o (record s { versioned_keys = m })
      with_versioned s m v k = record {
        breaker = v.breaker;
        buckets_ok = v.buckets_ok;
        bucket_keys = v.bucket_keys;
        capacity_u32 = v.capacity_u32;
        routes_ok = v.routes_ok;
        counts = v.counts;
        versioned_ok = k;
        signing_ok = v.signing_ok;
      }
  Step-IsSound _ _ (health_checked now upstream healthy s ws) h =
      with_breaker o s _ h
        (update_health-IsBreaker now s.circuit_breaker upstream healthy h.breaker)

  -- However requests, answers of upstreams, reloads, rotations and health checks interleave, a sound
  -- state leads to sound states only.
  pub Reach-IsSound :
      (u v : ProxyState o × List Waiting) → Reach u v → IsSound o u.0 → IsSound o v.0
  Reach-IsSound u v (stay _) h = h
  Reach-IsSound u v (then_ _ w _ st rest) h = Reach-IsSound w v rest (Step-IsSound u w st h)
