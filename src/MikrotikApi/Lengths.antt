-- ===== src/MikrotikApi/Lengths.antt =====
-- src/services/mikrotikApi.js: `encodeLength` and `decodeLength`.
use relay_cerebro_infra.Base.{ℕ, ◌<◌, List, ◌++◌, ◌≡◌, arith, Bool-cases, inl, inr, ltb}
use relay_cerebro_infra.MikrotikApi.{length, encode_length, decode_length}

-- A length below 2 ^ 28 is read back from its encoding, whatever follows it, and the number of bytes
-- read is the number written.
pub decode_length-encode :
    (len : ℕ) (rest : List ℕ)
    → len < 0x10000000
    → decode_length (encode_length len ++ rest) ≡ (len, length (encode_length len))
unfolding decode_length encode_length
decode_length-encode len rest h = elim (Bool-cases (ltb len 0x80)) [
  | inl a ↦ rw (a) (ground arith)
  | inr a ↦ elim (Bool-cases (ltb len 0x4000)) [
    | inl b ↦ rw (a, b) (ground arith)
    | inr b ↦ elim (Bool-cases (ltb len 0x200000)) [
      | inl c ↦ rw (a, b, c) (ground arith)
      | inr c ↦ rw (a, b, c) (ground arith)
    ]
  ]
]
