-- ===== src/HmacVerify/Tests.antt =====
-- src/security/hmacVerify.js on concrete requests.
use relay_cerebro_infra.Base.{ℕ, false, some, List, [], ◌∷◌, ◌≡◌, refl, arith, ◌↔◌}
use relay_cerebro_infra.StateMachine.Mac.{codes}
use relay_cerebro_infra.HmacVerify.{
  default_settings, Request, ok, replay, verify_relay_signature, from_hex, canonical, or_empty,
}
use relay_cerebro_infra.HmacVerify.Replay.{was_checked, after_requests, never_replayed}
use relay_cerebro_infra.HmacVerify.Signature.{verify-ok_iff}

-- Stands for the HMAC: the last digit tells an empty key.
abbrev sign : List ℕ → List ℕ → List ℕ
sign [] message = codes "a1b0"
sign (k ∷ key) message = codes "a1b2"

abbrev release : Request
release = record {
  method = some "post";
  path = some "/relay/action";
  raw_body = some "{}";
  ts = some 1700000000000;
  nonce = some "nonce-01";
  signature_hex = some "A1B2";
  secret = some "secret";
}

abbrev forged : Request
forged = record release { signature_hex = some "a1b3"; raw_body = some "{\"x\":1}" }

canonical_test :
    canonical release 1700000000000 ≡ codes "POST\n/relay/action\n1700000000000\nnonce-01\n{}"
unfolding canonical
canonical_test = refl

release_ok : (verify_relay_signature sign default_settings 1700000000500 release []).0 ≡ ok
unfolding verify_relay_signature
release_ok = refl

-- A forged request that comes first takes the nonce, so that the genuine one is refused.
forged_first :
    (verify_relay_signature sign default_settings 1700000000600 release
      (verify_relay_signature sign default_settings 1700000000500 forged []).1).0
    ≡ replay
unfolding verify_relay_signature
forged_first = refl

never_replayed_example :
    was_checked
      (verify_relay_signature sign default_settings 1700000300500 release (
        after_requests sign default_settings
          ((1700000100000, forged) ∷ [])
          (verify_relay_signature sign default_settings 1700000000500 release []).1)).0
    ≡ false
unfolding verify_relay_signature
never_replayed_example =
    never_replayed sign default_settings 1700000000500 1700000300500 release release
      ((1700000100000, forged) ∷ []) [] (omega arith) refl (omega arith, tt) refl refl

verify-ok_iff_example :
    ((verify_relay_signature sign default_settings 1700000000500 release []).0 ≡ ok) ↔ (
      from_hex (sign (or_empty release.secret) (canonical release 1700000000000))
      ≡ from_hex (or_empty release.signature_hex))
unfolding verify_relay_signature
verify-ok_iff_example =
    verify-ok_iff sign default_settings 1700000000500 1700000000000 "nonce-01" release [] refl refl
      refl (omega arith) refl (omega arith) refl
