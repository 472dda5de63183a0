-- ===== src/MikrotikApi/Session.antt =====
-- src/services/mikrotikApi.js: a whole exchange of `runCommands` with a router.
use relay_cerebro_infra.Base.{
  ◌+◌, true, false, none, some, List, [], ◌∷◌, ◌++◌, ◌≡◌, refl, arith, leb, append_assoc,
  append-nil, ap, sym, subst, ◌∙◌,
}
use relay_cerebro_infra.MikrotikApi.{Word, Sentence}
use relay_cerebro_infra.MikrotikApi.Client.{
  Row, row_from, CommandResult, resolved, Client, get_elem?, count, assign, change, fresh, advance,
  add_row, set_ok, set_error, changed, re_word, done_word, trap_word, on_reply, process_sentence,
  process_line,
}

module _ {ℓ} {A : Type ℓ} where
  count-append : (a b : List A) → count (a ++ b) ≡ count a + count b
  count-append [] b = omega arith
  count-append (x ∷ a) b = omega (arith, count-append a b)

  get_elem?-append : (a : List A) (x : A) (b : List A) → get_elem? (a ++ x ∷ b) (count a) ≡ some x
  get_elem?-append [] x b = refl
  get_elem?-append (y ∷ a) x b = get_elem?-append a x b

assign-append :
    (past : List CommandResult) (r : CommandResult) → assign (count past) r past ≡ past ++ r ∷ []
assign-append [] r = refl
assign-append (x ∷ past) r = ap (λ l. x ∷ l) (assign-append past r)

change-append :
    (f : CommandResult → CommandResult) (past : List CommandResult) (r : CommandResult)
    → change f (count past) (past ++ r ∷ []) ≡ past ++ f r ∷ []
change-append f [] r = refl
change-append f (x ∷ past) r = ap (λ l. x ∷ l) (change-append f past r)

-- How a router answers a command: it serves it with rows, or it refuses it for a reason.
pub data Answer : Type 0 where
  served : List (List Word) → Answer
  refused : List Word → Answer

abbrev pub Script : Type 0
Script = List (Sentence × Answer)

abbrev pub commands : Script → List Sentence
commands [] = []
commands ((c, a) ∷ s) = c ∷ commands s

abbrev pub row_sentences : List (List Word) → List Sentence
row_sentences [] = []
row_sentences (w ∷ rows) = (re_word ∷ w) ∷ row_sentences rows

-- What the client takes for an answer: rows and then `!done`, or one `!trap`.
abbrev pub answer_sentences : Answer → List Sentence
answer_sentences (served rows) = row_sentences rows ++ (done_word ∷ []) ∷ []
answer_sentences (refused e) = (trap_word ∷ e) ∷ []

abbrev pub replies : Script → List Sentence
replies [] = []
replies ((c, a) ∷ s) = answer_sentences a ++ replies s

abbrev pub rows_of : List (List Word) → List Row
rows_of [] = []
rows_of (w ∷ rows) = row_from w [] ∷ rows_of rows

abbrev pub result_of : Sentence → Answer → CommandResult
result_of c (served rows) = record { cmd = c; ok = true; rows = rows_of rows; error = none }
result_of c (refused e) = record { cmd = c; ok = false; rows = []; error = some e }

abbrev pub results_of : Script → List CommandResult
results_of [] = []
results_of ((c, a) ∷ s) = result_of c a ∷ results_of s

pub process_line-append :
    (cs a b : List Sentence) (c : Client)
    → process_line cs (a ++ b) c ≡ process_line cs b (process_line cs a c)
unfolding process_line
process_line-append cs [] b c = refl
process_line-append cs (s ∷ a) b c = process_line-append cs a b (process_sentence cs s c)

-- The client that waits for the answer of the command after `past`.
abbrev pub waiting : List CommandResult → CommandResult → List Sentence → Client
waiting past r sent = record {
  authenticated = true;
  results = past ++ r ∷ [];
  cmd_index = count past;
  outcome = none;
  sent = sent;
}

-- The client after its last answer.
abbrev pub settled : List CommandResult → List Sentence → Client
settled results sent = record {
  authenticated = true;
  results = results;
  cmd_index = count results;
  outcome = some resolved;
  sent = sent;
}

rows-waiting :
    (cs : List Sentence) (past : List CommandResult) (r : CommandResult) (sent : List Sentence)
    (rows : List (List Word))
    → process_line cs (row_sentences rows) (waiting past r sent)
      ≡ waiting past (record r { rows = r.rows ++ rows_of rows }) sent
unfolding process_line process_sentence
rows-waiting cs past r sent [] =
    ap (λ l. waiting past (record r { rows = l }) sent) (sym (append-nil r.rows))
rows-waiting cs past r sent (w ∷ rows) =
    ap (λ l. process_line cs (row_sentences rows) (record (waiting past r sent) { results = l }))
      (change-append (add_row (row_from w [])) past r)
    ∙ rows-waiting cs past (add_row (row_from w []) r) sent rows
    ∙ ap (λ l. waiting past (record r { rows = l }) sent)
        (append_assoc r.rows (row_from w [] ∷ []) (rows_of rows))

-- The answer of the last command.
advance-last :
    (cs : List Sentence) (past : List CommandResult) (r : CommandResult) (sent : List Sentence)
    (f : CommandResult → CommandResult)
    → count cs ≡ count past + 1
    → advance cs (changed f (waiting past r sent)) ≡ settled (past ++ f r ∷ []) sent
unfolding advance
advance-last cs past r sent f h =
    let over : leb (count cs) (count past + 1) ≡ true = ground arith in
    rw (change-append f past r, over, count-append past (f r ∷ [])) (ground arith)

advance-next :
    (pre : List Sentence) (c d : Sentence) (post : List Sentence) (past : List CommandResult)
    (r : CommandResult) (sent : List Sentence) (f : CommandResult → CommandResult)
    → count pre ≡ count past
    → advance (pre ++ c ∷ d ∷ post) (changed f (waiting past r sent))
      ≡ waiting (past ++ f r ∷ []) (fresh d) (sent ++ d ∷ [])
unfolding advance
advance-next pre c d post past r sent f h =
    let more : leb (count (pre ++ c ∷ d ∷ post)) (count past + 1) ≡ false =
      ground (arith, count-append pre (c ∷ d ∷ post)) in
    let index : count (pre ++ c ∷ []) ≡ count past + 1 =
      omega (arith, count-append pre (c ∷ []), h) in
    let there : get_elem? (pre ++ c ∷ d ∷ post) (count past + 1) ≡ some d =
      subst (λ l. get_elem? l (count past + 1) ≡ some d) (append_assoc pre (c ∷ []) (d ∷ post))
        (subst (λ n. get_elem? ((pre ++ c ∷ []) ++ d ∷ post) n ≡ some d) index
          (get_elem?-append (pre ++ c ∷ []) d post)) in
    let size : count past + 1 ≡ count (past ++ f r ∷ []) =
      omega (arith, count-append past (f r ∷ [])) in
    let assigned : assign (count past + 1) (fresh d) (past ++ f r ∷ [])
        ≡ (past ++ f r ∷ []) ++ fresh d ∷ [] =
      subst (λ n. assign n (fresh d) (past ++ f r ∷ []) ≡ (past ++ f r ∷ []) ++ fresh d ∷ [])
        (sym size) (assign-append (past ++ f r ∷ []) (fresh d)) in
    rw (change-append f past r, more, there, assigned, size) refl

-- The effect of the reply that ends an answer.
abbrev pub settle : Answer → CommandResult → CommandResult
settle (served rows) r = set_ok (record r { rows = r.rows ++ rows_of rows })
settle (refused e) r = set_error e r

answer-waiting :
    (cs : List Sentence) (past : List CommandResult) (r : CommandResult) (sent : List Sentence)
    (a : Answer)
    → process_line cs (answer_sentences a) (waiting past r sent)
      ≡ advance cs (changed (settle a) (waiting past r sent))
unfolding process_line process_sentence on_reply
answer-waiting cs past r sent (served rows) =
    let all = record r { rows = r.rows ++ rows_of rows } in
    process_line-append cs (row_sentences rows) ((done_word ∷ []) ∷ []) (waiting past r sent)
    ∙ ap (process_line cs ((done_word ∷ []) ∷ [])) (rows-waiting cs past r sent rows)
    ∙ ap (λ l. advance cs (record (waiting past r sent) { results = l }))
        (change-append set_ok past all ∙ sym (change-append (settle (served rows)) past r))
answer-waiting cs past r sent (refused e) = refl

settle-fresh : (c : Sentence) (a : Answer) → settle a (fresh c) ≡ result_of c a
settle-fresh c (served rows) = refl
settle-fresh c (refused e) = refl

pub serve :
    (s : Script) (pre : List Sentence) (c : Sentence) (a : Answer) (past : List CommandResult)
    (sent : List Sentence)
    → count pre ≡ count past
    → process_line
        (pre ++ c ∷ commands s)
        (answer_sentences a ++ replies s)
        (waiting past (fresh c) sent)
      ≡ settled (past ++ result_of c a ∷ results_of s) (sent ++ commands s)
serve [] pre c a past sent h =
    let only : count (pre ++ c ∷ []) ≡ count past + 1 =
      omega (arith, count-append pre (c ∷ []), h) in
    ap (λ l. process_line (pre ++ c ∷ []) l (waiting past (fresh c) sent))
      (append-nil (answer_sentences a))
    ∙ answer-waiting (pre ++ c ∷ []) past (fresh c) sent a
    ∙ advance-last (pre ++ c ∷ []) past (fresh c) sent (settle a) only
    ∙ ap (λ r. settled (past ++ r ∷ []) sent) (settle-fresh c a)
    ∙ ap (settled (past ++ result_of c a ∷ [])) (sym (append-nil sent))
serve ((d, b) ∷ s) pre c a past sent h =
    let cs = pre ++ c ∷ d ∷ commands s in
    let r = result_of c a in
    let index : count (pre ++ c ∷ []) ≡ count (past ++ r ∷ []) =
      omega (arith, count-append pre (c ∷ []), count-append past (r ∷ []), h) in
    let next = waiting (past ++ r ∷ []) (fresh d) (sent ++ d ∷ []) in
    process_line-append cs (answer_sentences a) (answer_sentences b ++ replies s)
      (waiting past (fresh c) sent)
    ∙ ap (process_line cs (answer_sentences b ++ replies s)) (
        answer-waiting cs past (fresh c) sent a
        ∙ advance-next pre c d (commands s) past (fresh c) sent (settle a) h
        ∙ ap (λ q. waiting (past ++ q ∷ []) (fresh d) (sent ++ d ∷ [])) (settle-fresh c a))
    ∙ ap (λ l. process_line l (answer_sentences b ++ replies s) next)
        (sym (append_assoc pre (c ∷ []) (d ∷ commands s)))
    ∙ serve s (pre ++ c ∷ []) d b (past ++ r ∷ []) (sent ++ d ∷ []) index
    ∙ ap (λ l. settled l ((sent ++ d ∷ []) ++ commands s))
        (append_assoc past (r ∷ []) (result_of d b ∷ results_of s))
    ∙ ap (settled (past ++ r ∷ result_of d b ∷ results_of s))
        (append_assoc sent (d ∷ []) (commands s))
