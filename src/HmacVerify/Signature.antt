-- ===== src/HmacVerify/Signature.antt =====
-- src/security/hmacVerify.js: which signatures are accepted.
use relay_cerebro_infra.Base.{
  ℕ, ◌≤◌, String, Bool, true, false, none, some, List, [], ◌∷◌, ◌≡◌, refl, arith, ◌↔◌,
  if◌then◌else◌, truthy, ltb, leb, ap, sym, ◌∙◌,
}
use relay_cerebro_infra.Base.Dict.{lookup}
use relay_cerebro_infra.StateMachine.Mac.{codes}
use relay_cerebro_infra.HmacVerify.{
  Settings, Cache, ok, signature_invalid, Request, cleanup, bytes_eq, from_hex, safe_eq_hex,
  canonical, or_empty, distance, js_length, check_signature, check_replay, check_nonce, check_ts,
  verify_relay_signature,
}

bytes_eq_sound : (a b : List ℕ) → bytes_eq a b ≡ true → a ≡ b
bytes_eq_sound [] [] h = refl
bytes_eq_sound [] (y ∷ b) h = absurd (ground arith)
bytes_eq_sound (x ∷ a) [] h = absurd (ground arith)
bytes_eq_sound (x ∷ a) (y ∷ b) h = ground (arith, bytes_eq_sound a b)

bytes_eq_refl : (a : List ℕ) → bytes_eq a a ≡ true
bytes_eq_refl [] = refl
bytes_eq_refl (x ∷ a) = ground (arith, bytes_eq_refl a)

signed : (b : Bool) → (if b then ok else signature_invalid) ≡ ok → b ≡ true
signed true good = refl
signed false good = absurd (ground arith)

module _ (hmac_hex : List ℕ → List ℕ → List ℕ) (st : Settings) where
  verify-reaches :
      (now ts : ℕ) (nonce : String) (q : Request) (cache : Cache)
      → truthy q.secret ≡ true
      → truthy q.signature_hex ≡ true
      → q.ts ≡ some ts
      → distance now ts ≤ st.ts_skew_ms
      → q.nonce ≡ some nonce
      → 8 ≤ js_length (codes nonce)
      → lookup nonce (cleanup now cache) ≡ none
      → (verify_relay_signature hmac_hex st now q cache).0 ≡ check_signature hmac_hex st q ts
  unfolding verify_relay_signature check_ts check_nonce check_replay
  verify-reaches now ts nonce q cache given present at near named long fresh =
      let near : ltb st.ts_skew_ms (distance now ts) ≡ false = ground arith in
      let long : leb 8 (js_length (codes nonce)) ≡ true = ground arith in
      rw (given, present, at, named, near, long, fresh) refl

  -- A request that has a secret, a signature, a time within the skew and a nonce of eight characters
  -- or more that is not in the cache is accepted exactly when its signature stands for the same bytes
  -- as the HMAC of its canonical text.
  pub verify-ok_iff :
      (now ts : ℕ) (nonce : String) (q : Request) (cache : Cache)
      → truthy q.secret ≡ true
      → truthy q.signature_hex ≡ true
      → q.ts ≡ some ts
      → distance now ts ≤ st.ts_skew_ms
      → q.nonce ≡ some nonce
      → 8 ≤ js_length (codes nonce)
      → lookup nonce (cleanup now cache) ≡ none
      → ((verify_relay_signature hmac_hex st now q cache).0 ≡ ok) ↔ (
          from_hex (hmac_hex (or_empty q.secret) (canonical q ts))
          ≡ from_hex (or_empty q.signature_hex))
  unfolding check_signature safe_eq_hex
  verify-ok_iff now ts nonce q cache given present at near named long fresh =
      let reached = verify-reaches now ts nonce q cache given present at near named long fresh in
      (
        λ good. bytes_eq_sound _ _ (signed _ (sym reached ∙ good)),
        λ equal.
            reached
            ∙ ap (λ b. if b then ok else signature_invalid)
                (ap (λ a. bytes_eq a (from_hex (or_empty q.signature_hex))) equal
                  ∙ bytes_eq_refl (from_hex (or_empty q.signature_hex))),
      )
