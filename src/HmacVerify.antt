-- ===== src/HmacVerify.antt =====
-- src/security/hmacVerify.js: the signature of a request to the relay, and the cache of its nonces.
-- The HMAC itself (Node's crypto) is a parameter. Times are natural numbers of milliseconds, and a
-- method is ASCII, as HTTP's are.
mod Replay
mod Signature
mod Tests
use relay_cerebro_infra.Base.{
  ℕ, zero, suc, ◌+◌, ◌-◌, ◌*◌, ◌/◌, ◌%◌, String, Bool, true, false, not, ◌&&◌, ◌||◌, Option, none,
  some, List, [], ◌∷◌, ◌++◌, leb, ltb, ◌==◌, if◌then◌else◌, truthy, is_some,
}
use relay_cerebro_infra.Base.Dict.{lookup, insert}
use relay_cerebro_infra.StateMachine.Mac.{codes, to_upper_case}

pub record Settings : Type 0 where
  pub ts_skew_ms : ℕ
  pub nonce_ttl_ms : ℕ

abbrev pub default_settings : Settings
default_settings = record { ts_skew_ms = 120000; nonce_ttl_ms = 5 * 60000 }

-- nonce -> expiresAt
abbrev pub Cache : Type 0
Cache = List (String × ℕ)

pub data Answer : Type 0 where
  ok : Answer
  secret_not_configured signature_missing ts_invalid nonce_invalid : Answer
  ts_out_of_range replay signature_invalid : Answer

-- What `verifyRelaySignature` takes; `ts` is what `Number` makes of it, where that is finite.
pub record Request : Type 0 where
  pub method : Option String
  pub path : Option String
  pub raw_body : Option String
  pub ts : Option ℕ
  pub nonce : Option String
  pub signature_hex : Option String
  pub secret : Option String

unfoldable pub cleanup : ℕ → Cache → Cache
cleanup now [] = []
cleanup now ((n, exp) ∷ rest) =
    let kept = cleanup now rest in if leb exp now then kept else (n, exp) ∷ kept

-- The value of a hexadecimal digit.
abbrev pub hex_digit : ℕ → Option ℕ
hex_digit c =
    if leb b'0' c && leb c b'9'
    then some (c - b'0')
    else if leb b'a' c && leb c b'f'
    then some (c - b'a' + 10)
    else if leb b'A' c && leb c b'F'
    then some (c - b'A' + 10)
    else none

-- `Buffer.from(s, "hex")`: the bytes up to the first pair that is not two digits.
unfoldable pub from_hex : List ℕ → List ℕ
from_hex (a ∷ b ∷ s) =
    let rest = from_hex s in
    elim (hex_digit a) [
      | none ↦ []
      | some x ↦ elim (hex_digit b) [ none ↦ [] | some y ↦ (16 * x + y) ∷ rest ]
    ]
from_hex _ = []

-- Equal lengths and equal bytes.
abbrev pub bytes_eq : List ℕ → List ℕ → Bool
bytes_eq [] [] = true
bytes_eq [] (y ∷ b) = false
bytes_eq (x ∷ a) [] = false
bytes_eq (x ∷ a) (y ∷ b) = (x == y) && bytes_eq a b

unfoldable pub safe_eq_hex : List ℕ → List ℕ → Bool
unfolding from_hex
safe_eq_hex expected_hex provided_hex = bytes_eq (from_hex expected_hex) (from_hex provided_hex)

-- The length of a text, in UTF-16 units.
abbrev pub js_length : List ℕ → ℕ
js_length [] = 0
js_length (c ∷ s) = (if leb 0x10000 c then 2 else 1) + js_length s

-- The decimal digits of a number of at most as many digits as there is fuel.
unfoldable pub digits : ℕ → ℕ → List ℕ
digits zero n = []
digits (suc fuel) n =
    let rest = digits fuel (n / 10) in
    if ltb n 10 then (b'0' + n) ∷ [] else rest ++ (b'0' + n % 10) ∷ []

-- `s || ""`.
abbrev pub or_empty : Option String → List ℕ
or_empty none = []
or_empty (some s) = codes s

abbrev pub newline : ℕ
newline = 10

-- Times have at most 20 digits; JavaScript writes larger numbers another way.
unfoldable pub canonical : Request → ℕ → List ℕ
unfolding to_upper_case digits
canonical q ts =
    to_upper_case (or_empty q.method)
    ++ newline ∷ or_empty q.path
    ++ newline ∷ digits 20 ts
    ++ newline ∷ or_empty q.nonce
    ++ newline ∷ or_empty q.raw_body

abbrev pub distance : ℕ → ℕ → ℕ
distance a b = (a - b) + (b - a)

abbrev pub is_nonce : Option String → Bool
is_nonce none = false
is_nonce (some nonce) = leb 8 (js_length (codes nonce))

module _ (hmac_hex : List ℕ → List ℕ → List ℕ) (st : Settings) where
  unfoldable pub check_signature : Request → ℕ → Answer
  unfolding safe_eq_hex canonical
  check_signature q ts =
      if safe_eq_hex (hmac_hex (or_empty q.secret) (canonical q ts)) (or_empty q.signature_hex)
      then ok
      else signature_invalid

  -- From the clean-up of the cache on.
  unfoldable pub check_replay : ℕ → Request → ℕ → String → Cache → Answer × Cache
  unfolding cleanup check_signature lookup insert
  check_replay now q ts nonce cache =
      let kept = cleanup now cache in
      if is_some (lookup nonce kept)
      then (replay, kept)
      else (check_signature q ts, insert nonce (now + st.nonce_ttl_ms) kept)

  unfoldable pub check_nonce : ℕ → Request → ℕ → Option String → Cache → Answer × Cache
  unfolding check_replay
  check_nonce now q ts none cache = (nonce_invalid, cache)
  check_nonce now q ts (some nonce) cache =
      if not (is_nonce (some nonce))
      then (nonce_invalid, cache)
      else if ltb st.ts_skew_ms (distance now ts)
      then (ts_out_of_range, cache)
      else check_replay now q ts nonce cache

  unfoldable pub check_ts : ℕ → Request → Option ℕ → Cache → Answer × Cache
  unfolding check_nonce
  check_ts now q none cache = (ts_invalid, cache)
  check_ts now q (some ts) cache = check_nonce now q ts q.nonce cache

  unfoldable pub verify_relay_signature : ℕ → Request → Cache → Answer × Cache
  unfolding check_ts
  verify_relay_signature now q cache =
      if not (truthy q.secret)
      then (secret_not_configured, cache)
      else if not (truthy q.signature_hex)
      then (signature_missing, cache)
      else check_ts now q q.ts cache
