-- ===== src/Proxy/Started.antt =====
-- crates/pqc-proxy/src/proxy.rs: a gateway that starts from settings in range starts in the invariant.
use pqc_gateway.Common.{
  All, ◌%◌, ℕ, ◌^◌, ◌≤◌, ◌<◌, ◌≡◌, ◌⊎◌, inl, inr, refl, ap, ◌∙◌, [], Str, Bool, true, false,
  if_elim, Option, none, some, Outcome, done, Result, ok, err, length,
}
use pqc_gateway.CircuitBreaker.Sound.{new-IsBreaker}
use pqc_gateway.Config.{GatewayConfig, RouteMtlsConfig, ThresholdConfig}
use pqc_gateway.Metrics.Counting.{apply_all-new-IsConsistent, apply_all}
use pqc_gateway.Proxy.{
  Outside, Random, ProxyState, breaker_config, keys_or_generate, signing_keys, key_manager,
  state_of, new_state,
}
use pqc_gateway.Proxy.Answers.{RouteLimits, register_routes_sound, new_matcher_sound}
use pqc_gateway.Proxy.Sound.{IsSound}
use pqc_gateway.Router.{new_matcher}
use pqc_gateway.Signature.Keys.{
  SignatureKeys, KeyError, from_seed_hex, IsKeyPair, generate-IsKeyPair, from_seed_hex-IsKeyPair,
}
use pqc_gateway.Signature.Parsed.{from_seed_hex_total}
use pqc_gateway.VersionedKeys
use pqc_gateway.VersionedKeys.{VersionedKeyManager}
use pqc_gateway.VersionedKeys.Rotation.{IsManager, new-IsManager}
use pqc_gateway.VersionedKeys.Sharing.{with_threshold-IsManager}

-- Numbers of the types that the configuration gives them, a failure threshold of at least one, and,
-- where keys are shared, a threshold that `SharingConfig::new` accepts.
pub record IsSettings (o : Outside) (c : GatewayConfig) : Type 0 where
  pub failure_pos : 0 < c.circuit_breaker.failure_threshold
  pub failure_u32 : c.circuit_breaker.failure_threshold < 2 ^ 32
  pub requests_u32 : c.rate_limit.default_requests < 2 ^ 32
  pub limits_u32 : RouteLimits o c.routes
  pub sharing :
      (c.threshold.enabled ≡ false)
      ⊎ ((2 ≤ c.threshold.threshold) × (c.threshold.threshold ≤ c.threshold.total_shares))

module _ (o : Outside) where
  open o use {cr, ht, fl}

  -- The text of the signing key, if there is one, is ASCII and has an even number of characters.
  abbrev pub IsReadable : Option Str → Type 0
  IsReadable none = Unit
  IsReadable (some hex) = All (λ c. c < 128) hex × (length hex % 2 ≡ 0)

  signing_keys_ok :
      (random : Random) (env_key : Option Str)
      → length random.signing_seed ≡ 32
      → IsReadable env_key
      → (k : SignatureKeys) × (signing_keys o random env_key ≡ done k) × IsKeyPair cr k
  unfolding signing_keys keys_or_generate
  signing_keys_ok random none h r =
      (_, refl, generate-IsKeyPair cr random.ecdsa_key random.signing_seed h)
  signing_keys_ok random (some hex) h (ascii, even) =
      let (r, e) = from_seed_hex_total cr random.ecdsa_key hex ascii even in parsed r e
    where
      parsed :
          (r : Result SignatureKeys KeyError)
          → from_seed_hex cr random.ecdsa_key hex ≡ done r
          → (k : SignatureKeys) × (keys_or_generate o random (from_seed_hex cr random.ecdsa_key hex)
              ≡ done k)
            × IsKeyPair cr k
      parsed (ok k) e =
          (k, ap (keys_or_generate o random) e, from_seed_hex-IsKeyPair cr random.ecdsa_key hex k e)
      parsed (err x) e = (
        _,
        ap (keys_or_generate o random) e,
        generate-IsKeyPair cr random.fallback_ecdsa_key random.signing_seed h,
      )

  key_manager_ok :
      (random : Random) (now : ℕ) (c : ThresholdConfig)
      → length random.versioned_seed ≡ 32
      → (c.enabled ≡ false) ⊎ ((2 ≤ c.threshold) × (c.threshold ≤ c.total_shares))
      → (m : VersionedKeyManager) × (key_manager o random now c ≡ done m) × IsManager cr m
  unfolding key_manager
  key_manager_ok random now c h t =
      if_elim {A = Outcome VersionedKeyManager}
        (λ x. (m : VersionedKeyManager) × (x ≡ done m) × IsManager cr m) c.enabled _ _
        (λ q. shared q t)
        (λ _. (_, refl, new-IsManager cr random.versioned_seed now c.max_retained_keys h))
    where
      shared :
          c.enabled ≡ true
          → (c.enabled ≡ false) ⊎ ((2 ≤ c.threshold) × (c.threshold ≤ c.total_shares))
          → (m : VersionedKeyManager) × (VersionedKeys.with_threshold cr random.versioned_seed now
                random.share_bytes c.max_retained_keys c.threshold c.total_shares
              ≡ done m)
            × IsManager cr m
      shared q (inl f) = cc
      shared q (inr (p, r)) =
          with_threshold-IsManager cr random.versioned_seed now random.share_bytes
            c.max_retained_keys c.threshold c.total_shares h p r

  -- From settings in range and new seeds of 32 bytes, with no signing key or one whose text is ASCII
  -- with an even number of characters, the gateway starts without a panic, in a sound state.
  pub new_state-IsSound :
      (can_connect : RouteMtlsConfig → Bool) (random : Random) (now : ℕ)
      (env_mode env_key : Option Str) (config : GatewayConfig)
      → IsSettings o config
      → length random.signing_seed ≡ 32
      → length random.versioned_seed ≡ 32
      → IsReadable env_key
      → (s : ProxyState o) × (new_state o can_connect random now env_mode env_key config ≡ done s)
        × IsSound o s
  unfolding new_state state_of apply_all breaker_config
  new_state-IsSound can_connect random now env_mode env_key config c h k r =
      let (keys, e, v) = signing_keys_ok random env_key h r in
      let (m, d, w) = key_manager_ok random now config.threshold k c.sharing in
      (
        _,
        ap
              (λ x.
                state_of o can_connect config env_mode x
                  (key_manager o random now config.threshold))
              e
            ∙ ap (state_of o can_connect config env_mode (done keys)) d,
        record {
          breaker =
              register_routes_sound o _ (new_matcher config.routes)
                (new-IsBreaker (breaker_config config.circuit_breaker) c.failure_pos c.failure_u32);
          buckets_ok = tt;
          bucket_keys = tt;
          capacity_u32 = c.requests_u32;
          routes_ok = new_matcher_sound o config.routes c.limits_u32;
          counts = apply_all-new-IsConsistent [];
          versioned_ok = w;
          signing_ok = v;
        },
      )
