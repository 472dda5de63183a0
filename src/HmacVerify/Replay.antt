-- ===== src/HmacVerify/Replay.antt =====
-- src/security/hmacVerify.js: what the cache of nonces does over a sequence of requests.
use relay_cerebro_infra.Base.{
  ℕ, ◌+◌, ◌*◌, ◌≤◌, ◌<◌, String, Bool, not, true, false, Option, none, some, List, [], ◌∷◌, ◌≡◌,
  ◌≢◌, inl, inr, refl, arith, eq_iff, ltb, if◌then◌else◌, is_some, truthy, Bool-cases, sym, ap,
  subst, ◌∙◌, str_eq, Option-cases, ◌+◌,
}
use relay_cerebro_infra.Base.Dict.{lookup, insert, lookup-insert, lookup-insert_self}
use relay_cerebro_infra.HmacVerify.{
  Settings, Cache, Answer, ok, Request, cleanup, check_signature, check_replay, check_nonce,
  check_ts, distance, verify_relay_signature, is_nonce, signature_invalid,
}

-- Cleaning up keeps the entries that have not expired.
lookup-cleanup :
    (now exp : ℕ) (nonce : String) (cache : Cache)
    → lookup nonce cache ≡ some exp
    → now < exp
    → lookup nonce (cleanup now cache) ≡ some exp
unfolding lookup cleanup
lookup-cleanup now exp nonce [] h live = ground arith
lookup-cleanup now exp nonce ((n, e) ∷ rest) h live =
    ground (arith, lookup-cleanup now exp nonce rest)

not_some {ℓ} : {A : Type ℓ} (o : Option A) → is_some o ≡ false → o ≡ none
not_some none h = refl
not_some (some a) h = absurd (ground arith)

some-none {ℓ} : {A : Type ℓ} {a : A} → some a ≢ none
some-none h = absurd (ground arith)

some_inj {ℓ} : {A : Type ℓ} {a b : A} → some a ≡ some b → a ≡ b
some_inj h = cc h

abbrev pub was_checked : Answer → Bool
was_checked ok = true
was_checked signature_invalid = true
was_checked _ = false

-- No request is later than `later`.
abbrev pub AllUpTo : ℕ → List (ℕ × Request) → Type 0
AllUpTo later [] = Unit {0}
AllUpTo later ((now, q) ∷ rest) = (now ≤ later) × AllUpTo later rest

-- A nonce that is in the cache until `exp` at the earliest.
data IsBurnt (nonce : String) (exp : ℕ) (cache : Cache) : Type 0 where
  burnt : (e : ℕ) → lookup nonce cache ≡ some e → exp ≤ e → IsBurnt nonce exp cache

module _ (hmac_hex : List ℕ → List ℕ → List ℕ) (st : Settings) where
  -- The state after some requests, each with its time.
  abbrev pub after_requests : List (ℕ × Request) → Cache → Cache
  after_requests [] cache = cache
  after_requests ((now, q) ∷ rest) cache =
      after_requests rest (verify_relay_signature hmac_hex st now q cache).1

  replay-keeps :
      (now : ℕ) (q : Request) (ts : ℕ) (n nonce : String) (exp : ℕ) (cache : Cache)
      → now < exp
      → IsBurnt nonce exp cache
      → IsBurnt nonce exp (check_replay hmac_hex st now q ts n cache).1
  unfolding check_replay
  replay-keeps now q ts n nonce exp cache live (burnt e h k) =
      let kept = cleanup now cache in
      let there : lookup nonce kept ≡ some e = lookup-cleanup now e nonce cache h (omega arith) in
      elim (Option-cases (lookup n kept)) [
        | inl none_there ↦
            let other : str_eq n nonce ≡ false = ground (arith, eq_iff n nonce) in
            rw (none_there)
              (burnt e (rw (lookup-insert n nonce (now + st.nonce_ttl_ms) kept, other) there) k)
        | inr (x, some_there) ↦ rw (some_there) (burnt e there k)
      ]

  nonce-keeps :
      (now : ℕ) (q : Request) (ts : ℕ) (n : Option String) (nonce : String) (exp : ℕ)
      (cache : Cache)
      → now < exp
      → IsBurnt nonce exp cache
      → IsBurnt nonce exp (check_nonce hmac_hex st now q ts n cache).1
  unfolding check_nonce
  nonce-keeps now q ts none nonce exp cache live b = b
  nonce-keeps now q ts (some n) nonce exp cache live b = elim (Bool-cases (is_nonce (some n))) [
    | inr short ↦ rw (short) b
    | inl long ↦ elim (Bool-cases (ltb st.ts_skew_ms (distance now ts))) [
      | inl far ↦ rw (long, far) b
      | inr near ↦ rw (long, near) (replay-keeps now q ts n nonce exp cache live b)
    ]
  ]

  ts-keeps :
      (now : ℕ) (q : Request) (ts : Option ℕ) (nonce : String) (exp : ℕ) (cache : Cache)
      → now < exp
      → IsBurnt nonce exp cache
      → IsBurnt nonce exp (check_ts hmac_hex st now q ts cache).1
  unfolding check_ts
  ts-keeps now q none nonce exp cache live b = b
  ts-keeps now q (some ts) nonce exp cache live b =
      nonce-keeps now q ts q.nonce nonce exp cache live b

  verify-keeps :
      (now : ℕ) (q : Request) (nonce : String) (exp : ℕ) (cache : Cache)
      → now < exp
      → IsBurnt nonce exp cache
      → IsBurnt nonce exp (verify_relay_signature hmac_hex st now q cache).1
  unfolding verify_relay_signature
  verify-keeps now q nonce exp cache live b =
      let later = ts-keeps now q q.ts nonce exp cache live b in
      elim (Bool-cases (truthy q.secret)) [
        | inr missing ↦ rw (missing) b
        | inl given ↦ elim (Bool-cases (truthy q.signature_hex)) [
          | inr unsigned ↦ rw (given, unsigned) b
          | inl signed ↦ rw (given, signed) later
        ]
      ]

  -- What is known of a request whose signature has been checked.
  data IsChecked (now : ℕ) (q : Request) (cache : Cache) (r : Answer × Cache) : Type 0 where
    checked :
        (ts : ℕ) (nonce : String)
        → q.ts ≡ some ts
        → q.nonce ≡ some nonce
        → distance now ts ≤ st.ts_skew_ms
        → lookup nonce (cleanup now cache) ≡ none
        → r ≡ (
          check_signature hmac_hex st q ts,
          insert nonce (now + st.nonce_ttl_ms) (cleanup now cache),
        )
        → IsChecked now q cache r

  -- An early return with an error: what is ok has passed it.
  passed :
      (b : Bool) (bad r : Answer × Cache) (now : ℕ) (q : Request) (cache : Cache)
      → was_checked bad.0 ≡ false
      → (b ≡ false → was_checked r.0 ≡ true → IsChecked now q cache r)
      → was_checked (if b then bad else r).0 ≡ true
      → IsChecked now q cache (if b then bad else r)
  passed true bad r now q cache early next good = absurd (ground arith)
  passed false bad r now q cache early next good = next refl good

  replay-checks :
      (now : ℕ) (q : Request) (ts : ℕ) (n : String) (cache : Cache)
      → q.ts ≡ some ts
      → q.nonce ≡ some n
      → distance now ts ≤ st.ts_skew_ms
      → was_checked (check_replay hmac_hex st now q ts n cache).0 ≡ true
      → IsChecked now q cache (check_replay hmac_hex st now q ts n cache)
  unfolding check_replay check_signature
  replay-checks now q ts n cache at named near =
      passed (is_some (lookup n (cleanup now cache))) _ _ now q cache refl
        (λ fresh good. checked ts n at named near (not_some _ fresh) refl)

  nonce-checks :
      (now : ℕ) (q : Request) (ts : ℕ) (n : Option String) (cache : Cache)
      → q.ts ≡ some ts
      → q.nonce ≡ n
      → was_checked (check_nonce hmac_hex st now q ts n cache).0 ≡ true
      → IsChecked now q cache (check_nonce hmac_hex st now q ts n cache)
  unfolding check_nonce
  nonce-checks now q ts none cache at named = λ good. absurd (ground arith)
  nonce-checks now q ts (some n) cache at named =
      passed (not (is_nonce (some n))) _ _ now q cache refl (λ long.
        passed (ltb st.ts_skew_ms (distance now ts)) _ _ now q cache refl
          (λ near. replay-checks now q ts n cache at named (ground arith)))

  ts-checks :
      (now : ℕ) (q : Request) (ts : Option ℕ) (cache : Cache)
      → q.ts ≡ ts
      → was_checked (check_ts hmac_hex st now q ts cache).0 ≡ true
      → IsChecked now q cache (check_ts hmac_hex st now q ts cache)
  unfolding check_ts
  ts-checks now q none cache at good = absurd (ground arith)
  ts-checks now q (some ts) cache at good = nonce-checks now q ts q.nonce cache at refl good

  verify-checks :
      (now : ℕ) (q : Request) (cache : Cache)
      → was_checked (verify_relay_signature hmac_hex st now q cache).0 ≡ true
      → IsChecked now q cache (verify_relay_signature hmac_hex st now q cache)
  unfolding verify_relay_signature
  verify-checks now q cache = passed (not (truthy q.secret)) _ _ now q cache refl (λ given.
      passed (not (truthy q.signature_hex)) _ _ now q cache refl
        (λ present. ts-checks now q q.ts cache refl))

  checked-burns :
      (now : ℕ) (q : Request) (ts : ℕ) (nonce : String) (cache : Cache) (r : Answer × Cache)
      → r ≡ (
        check_signature hmac_hex st q ts,
        insert nonce (now + st.nonce_ttl_ms) (cleanup now cache),
      )
      → IsBurnt nonce (now + st.nonce_ttl_ms) r.1
  checked-burns now q ts nonce cache r result =
      burnt (now + st.nonce_ttl_ms)
        (ap (λ r. lookup nonce r.1) result
          ∙ lookup-insert_self nonce (now + st.nonce_ttl_ms) (cleanup now cache))
        (omega arith)

  burnt-ends :
      (nonce : String) (exp later : ℕ) (cache : Cache)
      → IsBurnt nonce exp cache
      → lookup nonce (cleanup later cache) ≡ none
      → exp ≤ later
  burnt-ends nonce exp later cache (burnt e h k) gone = elim (Bool-cases (ltb later e)) [
    | inl live ↦
        absurd (some-none (sym (lookup-cleanup later e nonce cache h (ground arith)) ∙ gone))
    | inr over ↦ ground arith
  ]

  after-keeps :
      (requests : List (ℕ × Request)) (later : ℕ) (nonce : String) (exp : ℕ) (cache : Cache)
      → AllUpTo later requests
      → later < exp
      → IsBurnt nonce exp cache
      → IsBurnt nonce exp (after_requests requests cache)
  after-keeps [] later nonce exp cache times live b = b
  after-keeps ((now, q) ∷ rest) later nonce exp cache (now_le, times) live b =
      after-keeps rest later nonce exp _ times live
        (verify-keeps now q nonce exp cache (omega arith) b)

  -- Once the signature of a request has been checked, whatever its outcome, no request with its
  -- nonce and its time is accepted, at any time `later` and after any requests up to then, provided
  -- that nonces are kept longer than twice the skew that times may have.
  pub never_replayed :
      (now later : ℕ) (q again : Request) (requests : List (ℕ × Request)) (cache : Cache)
      → 2 * st.ts_skew_ms < st.nonce_ttl_ms
      → was_checked (verify_relay_signature hmac_hex st now q cache).0 ≡ true
      → AllUpTo later requests
      → again.nonce ≡ q.nonce
      → again.ts ≡ q.ts
      → was_checked
          (verify_relay_signature hmac_hex st later again
            (after_requests requests (verify_relay_signature hmac_hex st now q cache).1)).0
        ≡ false
  never_replayed now later q again requests cache long good times same_nonce same_ts =
      elim (verify-checks now q cache good) [
        | checked ts nonce at named near fresh result ↦
            let cache₂ =
              after_requests requests (verify_relay_signature hmac_hex st now q cache).1 in
            elim (Bool-cases
              (was_checked (verify_relay_signature hmac_hex st later again cache₂).0)) [
                | inr refused ↦ refused
                | inl good₂ ↦ elim (verify-checks later again cache₂ good₂) [
                  | checked ts₂ nonce₂ at₂ named₂ near₂ fresh₂ result₂ ↦
                      let same : ts ≡ ts₂ = some_inj (sym at ∙ sym same_ts ∙ at₂) in
                      let equal : nonce₂ ≡ nonce = some_inj (sym named₂ ∙ same_nonce ∙ named) in
                      elim (Bool-cases (ltb later (now + st.nonce_ttl_ms))) [
                        | inl live ↦
                            let over =
                              burnt-ends nonce (now + st.nonce_ttl_ms) later cache₂
                                (after-keeps requests later nonce (now + st.nonce_ttl_ms) _ times
                                  (ground arith) (checked-burns now q ts nonce cache _ result))
                                (subst (λ n. lookup n (cleanup later cache₂) ≡ none) equal
                                  fresh₂) in
                            absurd (ground arith)
                        | inr over ↦ absurd (ground arith)
                      ]
                ]
              ]
      ]
