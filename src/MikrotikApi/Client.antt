-- ===== src/MikrotikApi/Client.antt =====
-- src/services/mikrotikApi.js: `runCommands`, as the steps that its socket's events make. The
-- commands are lists of words, and there is at least one, as its caller sees to. No data arrives
-- once the socket is destroyed.
use relay_cerebro_infra.Base.{
  ℕ, zero, suc, ◌+◌, Bool, true, false, ◌&&◌, ◌||◌, Option, none, some, List, [], ◌∷◌, ◌++◌, leb,
  ◌==◌, if◌then◌else◌,
}
use relay_cerebro_infra.StateMachine.Mac.{codes}
use relay_cerebro_infra.MikrotikApi.{Word, Sentence, parse_reply}

abbrev pub word_eq : Word → Word → Bool
word_eq [] [] = true
word_eq [] (c ∷ w) = false
word_eq (b ∷ v) [] = false
word_eq (b ∷ v) (c ∷ w) = (b == c) && word_eq v w

-- The property under a name, `row[key] = value`.
abbrev pub Row : Type 0
Row = List (Word × Word)

abbrev pub put_field : Word → Word → Row → Row
put_field k v [] = (k, v) ∷ []
put_field k v ((j, u) ∷ row) =
    let rest = put_field k v row in if word_eq j k then (k, v) ∷ row else (j, u) ∷ rest

-- The bytes before and after the first `=` of a word, if it has one.
abbrev pub split_field : Word → Word → Option (Word × Word)
split_field key [] = none
split_field key (b ∷ w) =
    let rest = split_field (key ++ b ∷ []) w in if b == b'=' then some (key, w) else rest

-- `w.indexOf("=", 1)`: the first byte is passed over, as the first character of an attribute word,
-- an `=`, is one byte.
abbrev pub field_of : Word → Option (Word × Word)
field_of [] = none
field_of (b ∷ w) = split_field [] w

abbrev pub put_parsed : Option (Word × Word) → Row → Row
put_parsed none row = row
put_parsed (some (k, v)) row = put_field k v row

unfoldable pub row_from : List Word → Row → Row
row_from [] row = row
row_from (w ∷ words) row = row_from words (put_parsed (field_of w) row)

pub record CommandResult : Type 0 where
  pub cmd : Sentence
  pub ok : Bool
  pub rows : List Row
  pub error : Option (List Word)

pub data Outcome : Type 0 where
  resolved : Outcome
  auth_failed timed_out socket_error connection_closed : Outcome

pub record Client : Type 0 where
  pub authenticated : Bool
  pub results : List CommandResult
  pub cmd_index : ℕ
  pub outcome : Option Outcome
  pub sent : List Sentence

abbrev pub get_elem? {ℓ} : {A : Type ℓ} → List A → ℕ → Option A
get_elem? [] i = none
get_elem? (x ∷ l) zero = some x
get_elem? (x ∷ l) (suc i) = get_elem? l i

abbrev pub count {ℓ} : {A : Type ℓ} → List A → ℕ
count [] = 0
count (x ∷ l) = suc (count l)

-- `results[i] = r`, where `i` is at most the length.
abbrev pub assign : ℕ → CommandResult → List CommandResult → List CommandResult
assign zero r [] = r ∷ []
assign zero r (x ∷ l) = r ∷ l
assign (suc i) r [] = r ∷ []
assign (suc i) r (x ∷ l) = x ∷ assign i r l

-- A change of `results[i]`, if it is there.
abbrev pub change : (CommandResult → CommandResult) → ℕ → List CommandResult → List CommandResult
change f i [] = []
change f zero (x ∷ l) = f x ∷ l
change f (suc i) (x ∷ l) = x ∷ change f i l

abbrev pub fresh : Sentence → CommandResult
fresh c = record { cmd = c; ok = false; rows = []; error = none }

abbrev pub finish : Outcome → Client → Client
finish o c = record c { outcome = elim c.outcome [ none ↦ some o | some p ↦ some p ] }

abbrev pub send_command : Option Sentence → Client → Client
send_command none c = c
send_command (some cmd) c = record c {
  results = assign c.cmd_index (fresh cmd) c.results;
  sent = c.sent ++ cmd ∷ [];
}

abbrev pub send_next_command : List Sentence → Client → Client
send_next_command commands c = send_command (get_elem? commands c.cmd_index) c

-- `cmdIndex++` and what follows it.
unfoldable pub advance : List Sentence → Client → Client
advance commands c =
    let d = record c { cmd_index = c.cmd_index + 1 } in
    if leb (count commands) (c.cmd_index + 1)
    then finish resolved d
    else send_next_command commands d

abbrev pub re_word : Word
re_word = codes "!re"

abbrev pub done_word : Word
done_word = codes "!done"

abbrev pub trap_word : Word
trap_word = codes "!trap"

abbrev pub fatal_word : Word
fatal_word = codes "!fatal"

abbrev pub changed : (CommandResult → CommandResult) → Client → Client
changed f c = record c { results = change f c.cmd_index c.results }

abbrev pub add_row : Row → CommandResult → CommandResult
add_row row r = record r { rows = r.rows ++ row ∷ [] }

abbrev pub set_ok : CommandResult → CommandResult
set_ok r = record r { ok = true }

abbrev pub set_error : List Word → CommandResult → CommandResult
set_error words r = record r { ok = false; error = some words }

-- The error's words stand for the text that they are joined to.
unfoldable pub on_reply : List Sentence → Word → List Word → Client → Client
unfolding row_from advance
on_reply commands type words c =
    if word_eq type re_word
    then changed (add_row (row_from words [])) c
    else if word_eq type done_word
    then advance commands (changed set_ok c)
    else if word_eq type trap_word
    then advance commands (changed (set_error words) c)
    else c

unfoldable pub on_login : List Sentence → Word → Client → Client
on_login commands type c =
    if word_eq type done_word
    then send_next_command commands (record c { authenticated = true })
    else if word_eq type trap_word || word_eq type fatal_word
    then finish auth_failed c
    else c

unfoldable pub process_sentence : List Sentence → Sentence → Client → Client
unfolding on_reply on_login
process_sentence commands [] c = c
process_sentence commands (type ∷ words) c =
    if c.authenticated then on_reply commands type words c else on_login commands type c

-- `processLine`.
unfoldable pub process_line : List Sentence → List Sentence → Client → Client
unfolding process_sentence
process_line commands [] c = c
process_line commands (s ∷ sentences) c =
    process_line commands sentences (process_sentence commands s c)

-- What the socket and the timer report.
pub data Happening : Type 0 where
  arrives : List ℕ → Happening
  timeout error closed : Happening

unfoldable pub step : List Sentence → Happening → Client → Client
unfolding process_line parse_reply
step commands (arrives bytes) c = process_line commands (parse_reply bytes) c
step commands timeout c = finish timed_out c
step commands error c = finish socket_error c
step commands closed c = finish connection_closed c

-- Once connected, the client has sent its login.
abbrev pub connected : Sentence → Client
connected login = record {
  authenticated = false;
  results = [];
  cmd_index = 0;
  outcome = none;
  sent = login ∷ [];
}
