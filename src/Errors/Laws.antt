-- ===== src/Errors/Laws.antt =====
-- src/services/errors: the class of an error and what follows from it.
use relay_cerebro_infra.Base.{
  String, true, false, ◌||◌, Option, none, some, ◌≡◌, ◌↔◌, ◌⊎◌, inl, inr, refl, arith, str_eq,
  Bool-cases, is_some,
}
use relay_cerebro_infra.Errors.{
  Err, is_setup_code, is_auth_failure, is_denied, normal_code, normalize_mikrotik_error, setup,
  auth, transient, Verdict, has, setup_codes, auth_codes, transient_codes, inconsistent_codes,
  classify_code, classify_error, code_or_empty,
}

abbrev Coherent : Verdict → Type 0
Coherent v =
    (v.retryable ≡ true ↔ v.class_of ≡ transient)
    × (is_some v.open_circuit_ms ≡ true ↔ (v.class_of ≡ setup) ⊎ (v.class_of ≡ auth))

classify_code-Coherent : (c : String) → Coherent (classify_code c)
unfolding classify_code
classify_code-Coherent c = elim (Bool-cases (has c setup_codes)) [
  | inl a ↦ rw (a) (ground arith)
  | inr a ↦ elim (Bool-cases (has c auth_codes)) [
    | inl b ↦ rw (a, b) (ground arith)
    | inr b ↦ elim (Bool-cases (has c transient_codes)) [
      | inl d ↦ rw (a, b, d) (ground arith)
      | inr d ↦ elim (Bool-cases (has c inconsistent_codes)) [
        | inl e ↦ rw (a, b, d, e) (ground arith)
        | inr e ↦ rw (a, b, d, e) (ground arith)
      ]
    ]
  ]
]

-- Exactly the transient errors may be retried, and a circuit is to be opened exactly for the setup
-- and the authentication errors.
classify_error-coherent :
    (err : Option Err)
    → ((classify_error err).retryable ≡ true ↔ (classify_error err).class_of ≡ transient)
      × (is_some (classify_error err).open_circuit_ms ≡ true
          ↔ ((classify_error err).class_of ≡ setup) ⊎ ((classify_error err).class_of ≡ auth))
unfolding classify_error
classify_error-coherent err = elim (Bool-cases (str_eq (code_or_empty err) "")) [
  | inl e ↦ rw (e) (ground arith)
  | inr e ↦ rw (e) (classify_code-Coherent (code_or_empty err))
]

-- A router's error without a code of its own that tells of a login or a permission is classed as
-- one of authentication, and so never retried, whatever else its message says.
normalize-auth_first :
    (e : Err)
    → e.code ≡ none
    → is_auth_failure e || is_denied e ≡ true
    → ((classify_error (some (normalize_mikrotik_error (some e)))).class_of ≡ auth)
      × ((classify_error (some (normalize_mikrotik_error (some e)))).retryable ≡ false)
unfolding normal_code normalize_mikrotik_error classify_error classify_code has is_setup_code
normalize-auth_first e h says_auth = elim (Bool-cases (is_auth_failure e)) [
  | inl a ↦ rw (h, a) (refl, refl)
  | inr a ↦ let d : is_denied e ≡ true = ground arith in rw (h, a, d) (refl, refl)
]
