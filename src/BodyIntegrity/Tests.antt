-- ===== src/BodyIntegrity/Tests.antt =====
-- A request with a digest, and what a manager of keys signs.
use pqc_gateway.Common.{
  ℕ, ◌≡◌, ◌⊎◌, ◌↔◌, refl, [], ◌∷◌, Bytes, Str, codes, some, done, Result, ok, err, arith,
  str_instance,
}
use pqc_gateway.BodyIntegrity.{
  valid, run, compute_digest, verify_request_integrity, body_integrity_middleware,
}
use pqc_gateway.BodyIntegrity.Checked.{HasNone, IsChecked}
use pqc_gateway.BodyIntegrity.Middleware.{
  signed_request, body_integrity_middleware_iff, verify_request_integrity-sign_current,
}
use pqc_gateway.Common.Map.{Map}
use pqc_gateway.Crypto.Toy.{toy_crypto, filled}
use pqc_gateway.Http.Toy.{toy_http}
use pqc_gateway.VersionedKeys.{VersionedKeyManager, new, rotate, sign_current}
use pqc_gateway.VersionedKeys.Rotation.{new-IsManager}

abbrev no_bytes : ℕ → ℕ → Bytes
no_bytes i n = []

abbrev manager : VersionedKeyManager
manager = new toy_crypto (filled 32 (7 ∷ [])) 1000 2

abbrev headers : Map Str Str
headers = (codes "x-pqc-content-digest", compute_digest toy_crypto toy_http (codes "body")) ∷ []

body_integrity_middleware_iff_example :
    (body_integrity_middleware toy_crypto toy_http manager headers (ok (codes "body"))
      ≡ run (ok (codes "body")))
    ↔ ((HasNone toy_crypto toy_http headers
          × (◌≡◌ {A = Result Bytes Str} (ok (codes "body")) (ok (codes "body"))))
        ⊎ (((¬ HasNone toy_crypto toy_http headers)
              × ((e : Str) × (◌≡◌ {A = Result Bytes Str} (ok (codes "body")) (err e))
                  × (◌≡◌ {A = Result Bytes Str} (ok (codes "body")) (ok []))))
            ⊎ ((¬ HasNone toy_crypto toy_http headers)
                × ((body : Bytes) × (◌≡◌ {A = Result Bytes Str} (ok (codes "body")) (ok body))
                    × (◌≡◌ {A = Result Bytes Str} (ok (codes "body")) (ok body))
                    × IsChecked toy_crypto toy_http manager headers body))))
body_integrity_middleware_iff_example =
    body_integrity_middleware_iff toy_crypto toy_http manager headers (ok (codes "body"))
      (ok (codes "body"))

verify_request_integrity-sign_current_example :
    (signature : Bytes) × (m' : VersionedKeyManager) × (kid' : Str) × (sign_current toy_crypto
        manager
        (codes "body")
      ≡ some (manager.current_kid, signature))
    × (rotate toy_crypto (filled 32 (9 ∷ [])) 2000 no_bytes manager ≡ done (m', kid'))
    × (let h' =
          signed_request toy_crypto toy_http []
            (compute_digest toy_crypto toy_http (codes "body"))
            manager.current_kid
            (toy_crypto.b64_encode signature) in
        (verify_request_integrity toy_crypto toy_http manager (codes "body") h' ≡ valid)
        × (verify_request_integrity toy_crypto toy_http m' (codes "body") h' ≡ valid))
unfolding new
verify_request_integrity-sign_current_example =
    verify_request_integrity-sign_current toy_crypto toy_http (filled 32 (9 ∷ [])) 2000 no_bytes
      manager [] (codes "body") (new-IsManager toy_crypto (filled 32 (7 ∷ [])) 1000 2 refl) refl
      (omega arith) (omega arith) (omega arith)
