-- ===== src/MikrotikApi/Replies.antt =====
-- src/services/mikrotikApi.js: `encodeSentence` and `parseReply`.
use relay_cerebro_infra.Base.{
  ℕ, zero, suc, ◌+◌, ◌-◌, ◌/◌, ◌%◌, ltb, ◌≤◌, ◌<◌, List, [], ◌∷◌, ◌++◌, ◌≡◌, refl, arith,
  Bool-cases, inl, inr, true, false, ◌==◌, if◌then◌else◌, append_assoc, append-nil, ap, sym, ◌∙◌,
}
use relay_cerebro_infra.MikrotikApi.{
  Word, Sentence, length, take, drop, encode_length, encode_word, encode_words, encode_sentence,
  decode_length, close_sentence, parse_rest, parse_reply,
}
use relay_cerebro_infra.MikrotikApi.Lengths.{decode_length-encode}

drop-append : (a b : List ℕ) → drop (length a) (a ++ b) ≡ b
drop-append [] b = refl
drop-append (x ∷ a) b = drop-append a b

take-append : (a b : List ℕ) → take (length a) (a ++ b) ≡ a
take-append [] b = refl
take-append (x ∷ a) b = ap (λ l. x ∷ l) (take-append a b)

length-append : (a b : List ℕ) → length (a ++ b) ≡ length a + length b
length-append [] b = omega arith
length-append (x ∷ a) b = omega (arith, length-append a b)

length-drop : (n : ℕ) (l : List ℕ) → length (drop n l) ≡ length l - n
length-drop zero l = omega arith
length-drop (suc n) [] = omega arith
length-drop (suc n) (b ∷ l) = omega (arith, length-drop n l)

-- One round of the loop, on a buffer that is not empty.
parse_rest-round :
    (fuel : ℕ) (buf : List ℕ) (current : Sentence) (sentences : List Sentence)
    → 0 < length buf
    → parse_rest (suc fuel) buf current sentences ≡ (
        if (decode_length buf).0 == 0
        then parse_rest fuel (drop (decode_length buf).1 buf) [] (close_sentence current sentences)
        else parse_rest fuel
            (drop (decode_length buf).0 (drop (decode_length buf).1 buf))
            (current ++ take (decode_length buf).0 (drop (decode_length buf).1 buf) ∷ [])
            sentences)
unfolding parse_rest
parse_rest-round fuel [] current sentences h = absurd (omega arith)
parse_rest-round fuel (b ∷ buf) current sentences h = refl

decode_length-reads : (buf : List ℕ) → 0 < (decode_length buf).1
unfolding decode_length
decode_length-reads buf = ground arith

-- With fuel for every byte of the buffer, the result is that with any more fuel: the loop ends by
-- itself, at the end of the buffer.
parse_rest-ends :
    (fuel more : ℕ) (buf : List ℕ) (current : Sentence) (sentences : List Sentence)
    → length buf ≤ fuel
    → length buf ≤ more
    → parse_rest fuel buf current sentences ≡ parse_rest more buf current sentences
unfolding parse_rest
parse_rest-ends zero zero buf current sentences h k = refl
parse_rest-ends zero (suc more) [] current sentences h k = refl
parse_rest-ends zero (suc more) (b ∷ buf) current sentences h k = absurd (omega arith)
parse_rest-ends (suc fuel) zero [] current sentences h k = refl
parse_rest-ends (suc fuel) zero (b ∷ buf) current sentences h k = absurd (omega arith)
parse_rest-ends (suc fuel) (suc more) [] current sentences h k = refl
parse_rest-ends (suc fuel) (suc more) (b ∷ buf) current sentences h k =
    let (len, n) = decode_length (b ∷ buf) in
    let rest = drop n (b ∷ buf) in
    let shorter : length rest ≤ length buf =
      omega (arith, length-drop n (b ∷ buf), decode_length-reads (b ∷ buf)) in
    let shorter' : length (drop len rest) ≤ length buf = omega (arith, length-drop len rest) in
    elim (Bool-cases (len == 0)) [
      | inl z ↦ rw (z) (
          parse_rest-ends fuel more rest [] (close_sentence current sentences) (omega arith)
            (omega arith))
      | inr z ↦
          rw (z) (parse_rest-ends fuel more (drop len rest) _ sentences (omega arith) (omega arith))
    ]

-- A word that can be sent: not empty, as the empty word would end its sentence, and of a length
-- that its encoding can hold.
abbrev pub IsSendable : Word → Type 0
IsSendable w = (0 < length w) × (length w < 0x10000000)

abbrev pub AllSendable : Sentence → Type 0
AllSendable [] = Unit {0}
AllSendable (w ∷ s) = IsSendable w × AllSendable s

length-encode_length : (len : ℕ) → 0 < length (encode_length len)
unfolding encode_length
length-encode_length len = ground arith

-- The loop with just the fuel that `parseReply` gives it.
abbrev parse : List ℕ → Sentence → List Sentence → List Sentence
parse buf current sentences = parse_rest (length buf) buf current sentences

parse-word :
    (w : Word) (rest : List ℕ) (current : Sentence) (sentences : List Sentence)
    → IsSendable w
    → parse (encode_word w ++ rest) current sentences ≡ parse rest (current ++ w ∷ []) sentences
parse-word w rest current sentences (pos, small) =
    let e = encode_length (length w) in
    let buf = e ++ (w ++ rest) in
    let read = decode_length-encode (length w) (w ++ rest) small in
    let nonempty : 0 < length buf =
      omega (arith, length-append e (w ++ rest), length-encode_length (length w)) in
    let one_more : length buf ≡ suc (length buf - 1) = omega arith in
    let shorter : length rest ≤ length buf - 1 =
      omega (
        arith,
        length-append e (w ++ rest),
        length-append w rest,
        length-encode_length (length w),
      ) in
    let ne : (length w == 0) ≡ false = ground arith in
    rw
      (
        append_assoc e w rest,
        one_more,
        parse_rest-round (length buf - 1) buf current sentences nonempty,
        read,
        ne,
        drop-append e (w ++ rest),
        drop-append w rest,
        take-append w rest,
      )
      (parse_rest-ends (length buf - 1) (length rest) rest (current ++ w ∷ []) sentences shorter
        (omega arith))

parse-words :
    (s : Sentence) (rest : List ℕ) (current : Sentence) (sentences : List Sentence)
    → AllSendable s
    → parse (encode_words s ++ rest) current sentences ≡ parse rest (current ++ s) sentences
parse-words [] rest current sentences ok =
    ap (λ c. parse rest c sentences) (sym (append-nil current))
parse-words (w ∷ s) rest current sentences (one, more) =
    ap (λ b. parse b current sentences) (append_assoc (encode_word w) (encode_words s) rest)
    ∙ parse-word w (encode_words s ++ rest) current sentences one
    ∙ parse-words s rest (current ++ w ∷ []) sentences more
    ∙ ap (λ c. parse rest c sentences) (append_assoc current (w ∷ []) s)

parse-close :
    (rest : List ℕ) (current : Sentence) (sentences : List Sentence)
    → parse (0 ∷ rest) current sentences ≡ parse rest [] (close_sentence current sentences)
unfolding parse_rest decode_length
parse-close rest current sentences = refl

abbrev pub encode_all : List Sentence → List ℕ
encode_all [] = []
encode_all (s ∷ ss) = encode_sentence s ++ encode_all ss

-- Sentences that have words, all of which can be sent.
abbrev pub AllSentences : List Sentence → Type 0
AllSentences [] = Unit {0}
AllSentences ([] ∷ ss) = ⊥
AllSentences ((w ∷ s) ∷ ss) = AllSendable (w ∷ s) × AllSentences ss

parse-all :
    (ss : List Sentence) (rest : List ℕ) (sentences : List Sentence)
    → AllSentences ss
    → parse (encode_all ss ++ rest) [] sentences ≡ parse rest [] (sentences ++ ss)
unfolding encode_sentence
parse-all [] rest sentences ok = ap (λ l. parse rest [] l) (sym (append-nil sentences))
parse-all ([] ∷ ss) rest sentences ok = absurd ok
parse-all ((w ∷ s) ∷ ss) rest sentences (one, more) =
    let tail = encode_all ss ++ rest in
    ap (λ b. parse b [] sentences)
      (append_assoc (encode_words (w ∷ s) ++ 0 ∷ []) (encode_all ss) rest
        ∙ append_assoc (encode_words (w ∷ s)) (0 ∷ []) tail)
    ∙ parse-words (w ∷ s) (0 ∷ tail) [] sentences one
    ∙ parse-close tail (w ∷ s) sentences
    ∙ parse-all ss rest (sentences ++ (w ∷ s) ∷ []) more
    ∙ ap (λ l. parse rest [] l) (append_assoc sentences ((w ∷ s) ∷ []) ss)

-- What has arrived of the next word of a sentence: nothing, or its whole length and some of its bytes.
pub data Arrived : Type 0 where
  before : Arrived
  within : Word → List ℕ → Arrived

abbrev pub arrived_bytes : Arrived → List ℕ
arrived_bytes before = []
arrived_bytes (within w part) = encode_length (length w) ++ part

abbrev pub IsArriving : Arrived → Type 0
IsArriving before = Unit {0}
IsArriving (within w part) = IsSendable w × (length part ≤ length w)

parse_rest-nil :
    (fuel : ℕ) (current : Sentence) (sentences : List Sentence)
    → parse_rest fuel [] current sentences ≡ sentences
unfolding parse_rest
parse_rest-nil zero current sentences = refl
parse_rest-nil (suc fuel) current sentences = refl

drop-all : (n : ℕ) (l : List ℕ) → length l ≤ n → drop n l ≡ []
drop-all zero [] h = refl
drop-all zero (b ∷ l) h = absurd (omega arith)
drop-all (suc n) [] h = refl
drop-all (suc n) (b ∷ l) h = drop-all n l (omega arith)

parse-arriving :
    (a : Arrived) (current : Sentence) (sentences : List Sentence)
    → IsArriving a
    → parse (arrived_bytes a) current sentences ≡ sentences
parse-arriving before current sentences ok = parse_rest-nil 0 current sentences
parse-arriving (within w part) current sentences ((pos, small), short) =
    let e = encode_length (length w) in
    let buf = e ++ part in
    let read = decode_length-encode (length w) part small in
    let nonempty : 0 < length buf =
      omega (arith, length-append e part, length-encode_length (length w)) in
    let one_more : length buf ≡ suc (length buf - 1) = omega arith in
    let ne : (length w == 0) ≡ false = ground arith in
    rw
      (
        one_more,
        parse_rest-round (length buf - 1) buf current sentences nonempty,
        read,
        ne,
        drop-append e part,
        drop-all (length w) part short,
      )
      (parse_rest-nil (length buf - 1) _ sentences)

parse-beginning :
    (ss : List Sentence) (last : Sentence) (rest : List ℕ)
    → AllSentences ss
    → AllSendable last
    → parse_reply (encode_all ss ++ encode_words last ++ rest) ≡ parse rest last ss
unfolding parse_reply
parse-beginning ss last rest ok ends =
    ap (λ b. parse b [] []) (append_assoc (encode_all ss) (encode_words last) rest)
    ∙ parse-all ss (encode_words last ++ rest) [] ok
    ∙ parse-words last rest [] ss ends

-- `parseReply` of what `encodeSentence` writes for any sentences, one after the other, and then of
-- the beginning of a last one, is these sentences without the last, where each has a word, no word is
-- empty, and every word is shorter than 2 ^ 28 bytes. The beginning ends between two words or within
-- the bytes of a word; it does not end within the bytes that encode a length.
pub parse_reply-encode :
    (ss : List Sentence) (last : Sentence) (a : Arrived)
    → AllSentences ss
    → AllSendable last
    → IsArriving a
    → parse_reply (encode_all ss ++ encode_words last ++ arrived_bytes a) ≡ ss
parse_reply-encode ss last a ok ends arriving =
    parse-beginning ss last (arrived_bytes a) ok ends ∙ parse-arriving a last ss arriving

first_byte : (n : ℕ) → 128 ≤ n → n < 256 → take 1 (encode_length n) ≡ 0x80 ∷ []
unfolding encode_length
first_byte n long short =
    let one : ltb n 0x80 ≡ false = ground arith in
    let two : ltb n 0x4000 ≡ true = ground arith in
    let high : n / 256 % 64 + 0x80 ≡ 0x80 = omega arith in rw (one, two) (ap (λ b. b ∷ []) high)

-- Where the beginning ends after the first of the two bytes that encode the length of a word of 128 to
-- 255 bytes, `parseReply` takes that byte for the end of the sentence: it gives back the part of the
-- sentence that has arrived as if it were a whole one.
pub parse_reply-cut_length :
    (ss : List Sentence) (v : Word) (last : Sentence) (w : Word)
    → AllSentences ss
    → AllSendable (v ∷ last)
    → 128 ≤ length w
    → length w < 256
    → parse_reply (encode_all ss ++ encode_words (v ∷ last) ++ take 1 (encode_length (length w)))
      ≡ ss ++ (v ∷ last) ∷ []
unfolding parse_rest decode_length
parse_reply-cut_length ss v last w ok ends long short =
    let first : take 1 (encode_length (length w)) ≡ 0x80 ∷ [] = first_byte (length w) long short in
    ap (λ b. parse_reply (encode_all ss ++ encode_words (v ∷ last) ++ b)) first
    ∙ parse-beginning ss (v ∷ last) (0x80 ∷ []) ok ends
