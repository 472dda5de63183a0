-- ===== src/MikrotikApi.antt =====
-- src/services/mikrotikApi.js: the wire format of the RouterOS API. A word is the list of its UTF-8
-- bytes, and a sentence a list of words. The client's state machine is in MikrotikApi/Client.antt.
pub mod Lengths
pub mod Replies
pub mod Client
pub mod Session
pub mod Exchange
mod Tests
use relay_cerebro_infra.Base.{
  ℕ, zero, suc, ◌+◌, ◌-◌, ◌*◌, ◌/◌, ◌%◌, List, [], ◌∷◌, ◌++◌, ltb, ◌==◌, if◌then◌else◌,
}

abbrev pub Word : Type 0
Word = List ℕ

abbrev pub Sentence : Type 0
Sentence = List Word

abbrev pub length : Word → ℕ
length [] = 0
length (b ∷ w) = suc (length w)

-- `buf.slice(0, n)` and `buf.slice(n)`.
abbrev pub take : ℕ → List ℕ → List ℕ
take zero buf = []
take (suc n) [] = []
take (suc n) (b ∷ buf) = b ∷ take n buf

abbrev pub drop : ℕ → List ℕ → List ℕ
drop zero buf = buf
drop (suc n) [] = []
drop (suc n) (b ∷ buf) = drop n buf

-- `encodeLength`. The code masks and shifts; for a byte `b` below 64, `b | 0x80` is `b + 0x80`, and
-- so on. The length of a buffer is below 2 ^ 32, where `>>` is a division.
unfoldable pub encode_length : ℕ → List ℕ
encode_length len =
    if ltb len 0x80
    then len ∷ []
    else if ltb len 0x4000
    then (len / 256 % 64 + 0x80) ∷ len % 256 ∷ []
    else if ltb len 0x200000
    then (len / 65536 % 32 + 0xc0) ∷ len / 256 % 256 ∷ len % 256 ∷ []
    else (len / 16777216 % 16 + 0xe0) ∷ len / 65536 % 256 ∷ len / 256 % 256 ∷ len % 256 ∷ []

abbrev pub encode_word : Word → List ℕ
encode_word w = encode_length (length w) ++ w

abbrev pub encode_words : Sentence → List ℕ
encode_words [] = []
encode_words (w ∷ s) = encode_word w ++ encode_words s

-- `encodeSentence`: the words and a zero.
unfoldable pub encode_sentence : Sentence → List ℕ
unfolding encode_length
encode_sentence s = encode_words s ++ 0 ∷ []

-- `buf[i]`; the code's undefined counts as 0 in its bit operations.
abbrev pub byte_at : List ℕ → ℕ → ℕ
byte_at [] i = 0
byte_at (b ∷ buf) zero = b
byte_at (b ∷ buf) (suc i) = byte_at buf i

-- `decodeLength` at the start of the rest of the buffer: the length and `bytesRead`.
unfoldable pub decode_length : List ℕ → ℕ × ℕ
decode_length buf =
    let b = byte_at buf 0 in
    if ltb b 0x80
    then (b, 1)
    else if ltb b 0xc0
    then (b % 64 * 256 + byte_at buf 1, 2)
    else if ltb b 0xe0
    then (b % 32 * 65536 + byte_at buf 1 * 256 + byte_at buf 2, 3)
    else (b % 16 * 16777216 + byte_at buf 1 * 65536 + byte_at buf 2 * 256 + byte_at buf 3, 4)

abbrev pub close_sentence : Sentence → List Sentence → List Sentence
close_sentence [] sentences = sentences
close_sentence (w ∷ s) sentences = sentences ++ (w ∷ s) ∷ []

-- The loop of `parseReply` on the rest of the buffer; it reads at least one byte in each round, so
-- the buffer's length is fuel enough. A sentence that is not closed at the end is dropped.
unfoldable pub parse_rest : ℕ → List ℕ → Sentence → List Sentence → List Sentence
unfolding decode_length
parse_rest zero buf current sentences = sentences
parse_rest (suc fuel) [] current sentences = sentences
parse_rest (suc fuel) (b ∷ buf) current sentences =
    let (len, bytes_read) = decode_length (b ∷ buf) in
    let rest = drop bytes_read (b ∷ buf) in
    let closed = parse_rest fuel rest [] (close_sentence current sentences) in
    let longer = parse_rest fuel (drop len rest) (current ++ take len rest ∷ []) sentences in
    if len == 0 then closed else longer

unfoldable pub parse_reply : List ℕ → List Sentence
unfolding parse_rest
parse_reply buf = parse_rest (length buf) buf [] []
