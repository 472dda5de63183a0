-- ===== src/StateMachine/Mac.antt =====
-- src/services/stateMachine.js: `isValidMac`.
use relay_cerebro_infra.Base.{
  ℕ, zero, suc, ◌-◌, String, Bool, true, false, ◌&&◌, ◌||◌, List, [], ◌∷◌, ◌++◌, leb, ◌==◌,
  if◌then◌else◌,
}
use relay_cerebro_infra.Base.Text.{trim}
use Prim.Native.Char.{code}

abbrev pub codes : String → List ℕ
codes String.[] = []
codes (String.◌∷◌ c s) = code c ∷ codes s

-- `toUpperCase`, as far as the pattern can tell: letters outside ASCII stay outside its alphabet,
-- but for the ligature U+FB00, whose upper case is FF.
unfoldable pub to_upper_case : List ℕ → List ℕ
to_upper_case [] = []
to_upper_case (c ∷ s) =
    (if leb b'a' c && leb c b'z'
      then (c - 32) ∷ []
      else if c == 0xfb00
      then b'F' ∷ b'F' ∷ []
      else c ∷ [])
    ++ to_upper_case s

abbrev pub is_hex : ℕ → Bool
is_hex c = (leb b'0' c && leb c b'9') || (leb b'A' c && leb c b'F')

-- `(:[0-9A-F]{2}){n}$`.
unfoldable pub more_pairs : ℕ → List ℕ → Bool
more_pairs zero [] = true
more_pairs (suc n) (s ∷ a ∷ b ∷ rest) =
    let more = more_pairs n rest in (s == b':') && is_hex a && is_hex b && more
more_pairs _ _ = false

-- `^[0-9A-F]{2}(:[0-9A-F]{2}){5}$`.
unfoldable pub is_mac : List ℕ → Bool
unfolding more_pairs
is_mac (a ∷ b ∷ rest) = is_hex a && is_hex b && more_pairs 5 rest
is_mac _ = false

unfoldable pub is_valid_mac : String → Bool
unfolding is_mac to_upper_case trim
is_valid_mac s = is_mac (to_upper_case (codes (trim s)))
