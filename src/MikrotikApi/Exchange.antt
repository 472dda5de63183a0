-- ===== src/MikrotikApi/Exchange.antt =====
-- src/services/mikrotikApi.js: an exchange with a router that ends every answer with `!done`.
use relay_cerebro_infra.Base.{
  ◌+◌, true, some, List, [], ◌∷◌, ◌++◌, ◌≡◌, refl, arith, leb, append_assoc, append-nil, ap, sym,
  subst, ◌∙◌,
}
use relay_cerebro_infra.MikrotikApi.{Word, Sentence}
use relay_cerebro_infra.MikrotikApi.Client.{
  CommandResult, resolved, Client, count, change, advance, set_ok, done_word, trap_word, on_reply,
  on_login, process_sentence, process_line, connected,
}
use relay_cerebro_infra.MikrotikApi.Session.{
  Answer, served, refused, Script, commands, row_sentences, answer_sentences, replies, results_of,
  process_line-append, settled, serve,
}

-- What a router sends: each answer ends with `!done`, a refusal after its `!trap` too.
abbrev pub router_sentences : Answer → List Sentence
router_sentences (served rows) = row_sentences rows ++ (done_word ∷ []) ∷ []
router_sentences (refused e) = (trap_word ∷ e) ∷ (done_word ∷ []) ∷ []

abbrev pub router_replies : Script → List Sentence
router_replies [] = []
router_replies ((c, a) ∷ s) = router_sentences a ++ router_replies s

-- Commands that are served, with their rows, and then one more with its answer.
abbrev pub Served : Type 0
Served = List (Sentence × List (List Word))

abbrev pub then_last : Served → Sentence → Answer → Script
then_last [] c a = (c, a) ∷ []
then_last ((d, rows) ∷ s) c a = (d, served rows) ∷ then_last s c a

-- The `!done` of a refusal that the client has not read yet.
abbrev pub left_over : Answer → List Sentence
left_over (served rows) = []
left_over (refused e) = (done_word ∷ []) ∷ []

router_replies-then_last :
    (s : Served) (c : Sentence) (a : Answer)
    → router_replies (then_last s c a) ≡ replies (then_last s c a) ++ left_over a
router_replies-then_last [] c (served rows) = sym (append-nil _)
router_replies-then_last [] c (refused e) = refl
router_replies-then_last ((d, rows) ∷ s) c a =
    ap (◌++◌ (answer_sentences (served rows))) (router_replies-then_last s c a)
    ∙ sym (append_assoc (answer_sentences (served rows)) (replies (then_last s c a)) (left_over a))

process_line-answers :
    (c : Sentence) (a : Answer) (s : Script) (login : Sentence)
    → process_line
        (commands ((c, a) ∷ s))
        ((done_word ∷ []) ∷ replies ((c, a) ∷ s))
        (connected login)
      ≡ settled (results_of ((c, a) ∷ s)) (login ∷ commands ((c, a) ∷ s))
unfolding process_line process_sentence on_login
process_line-answers c a s login = serve s [] c a [] (login ∷ c ∷ []) refl

process_line-answers_last :
    (s : Served) (c : Sentence) (a : Answer) (login : Sentence)
    → process_line
        (commands (then_last s c a))
        ((done_word ∷ []) ∷ replies (then_last s c a))
        (connected login)
      ≡ settled (results_of (then_last s c a)) (login ∷ commands (then_last s c a))
process_line-answers_last [] c a login = process_line-answers c a [] login
process_line-answers_last ((d, rows) ∷ s) c a login =
    process_line-answers d (served rows) (then_last s c a) login

change-past :
    (f : CommandResult → CommandResult) (l : List CommandResult) → change f (count l) l ≡ l
change-past f [] = refl
change-past f (x ∷ l) = ap (◌∷◌ x) (change-past f l)

-- The promise is resolved with these results, after these sentences were sent.
abbrev pub IsResolved : List CommandResult → List Sentence → Client → Type 0
IsResolved results sent c = (c.results ≡ results) × (c.sent ≡ sent) × (c.outcome ≡ some resolved)

count-commands : (s : Script) → count (commands s) ≡ count (results_of s)
count-commands [] = refl
count-commands ((c, a) ∷ s) = omega (arith, count-commands s)

settled-ignores_done :
    (cs : List Sentence) (results : List CommandResult) (sent : List Sentence)
    → count cs ≡ count results
    → IsResolved results sent (process_line cs ((done_word ∷ []) ∷ []) (settled results sent))
unfolding process_line process_sentence on_reply advance
settled-ignores_done cs results sent h =
    let over : leb (count cs) (count results + 1) ≡ true = ground arith in
    rw (over) (change-past set_ok results, refl, refl)

settled-ignores :
    (s : Script) (a : Answer) (sent : List Sentence)
    → IsResolved
        (results_of s)
        sent
        (process_line (commands s) (left_over a) (settled (results_of s) sent))
unfolding process_line
settled-ignores s (served rows) sent = (refl, refl, refl)
settled-ignores s (refused e) sent =
    settled-ignores_done (commands s) (results_of s) sent (count-commands s)

-- When a router accepts the login, serves some commands and serves or refuses one last command, and
-- ends every answer with `!done`, after a refusal's `!trap` too, the client has sent the login and each
-- command once and in order, its results are those of the commands' own answers, in order, and its
-- promise is resolved.
pub process_line-replies :
    (s : Served) (c : Sentence) (a : Answer) (login : Sentence)
    → let after =
        process_line
          (commands (then_last s c a))
          ((done_word ∷ []) ∷ router_replies (then_last s c a))
          (connected login) in
      (after.results ≡ results_of (then_last s c a))
      × (after.sent ≡ login ∷ commands (then_last s c a))
      × (after.outcome ≡ some resolved)
process_line-replies s c a login =
    let script = then_last s c a in
    let sent = login ∷ commands script in
    let split : process_line (commands script) ((done_word ∷ []) ∷ router_replies script)
          (connected login)
        ≡ process_line (commands script) (left_over a) (settled (results_of script) sent) =
      ap (λ l. process_line (commands script) ((done_word ∷ []) ∷ l) (connected login))
        (router_replies-then_last s c a)
      ∙ process_line-append (commands script) ((done_word ∷ []) ∷ replies script) (left_over a)
          (connected login)
      ∙ ap (process_line (commands script) (left_over a)) (process_line-answers_last s c a login) in
    subst (IsResolved (results_of script) sent) (sym split) (settled-ignores script a sent)

-- Served commands, with one more before the last.
abbrev pub then_two : Served → Sentence → Answer → Sentence → Answer → Script
then_two [] c a d b = (c, a) ∷ (d, b) ∷ []
then_two ((e, rows) ∷ s) c a d b = (e, served rows) ∷ then_two s c a d b

router_replies-refused :
    (s : Served) (c d : Sentence) (e : List Word)
    → router_replies (then_last s c (refused e)) ≡ replies (then_two s c (refused e) d (served []))
router_replies-refused [] c d e = refl
router_replies-refused ((f, rows) ∷ s) c d e =
    ap (◌++◌ (answer_sentences (served rows))) (router_replies-refused s c d e)

process_line-answers_two :
    (s : Served) (c : Sentence) (a : Answer) (d : Sentence) (b : Answer) (login : Sentence)
    → process_line
        (commands (then_two s c a d b))
        ((done_word ∷ []) ∷ replies (then_two s c a d b))
        (connected login)
      ≡ settled (results_of (then_two s c a d b)) (login ∷ commands (then_two s c a d b))
process_line-answers_two [] c a d b login = process_line-answers c a ((d, b) ∷ []) login
process_line-answers_two ((f, rows) ∷ s) c a d b login =
    process_line-answers f (served rows) (then_two s c a d b) login

-- When the router serves some commands and refuses the one before the last, with `!trap` and `!done`,
-- the client has resolved its promise before the router answers the last command, with a result that
-- says that the last command was served without rows.
pub process_line-trap_done :
    (s : Served) (c d : Sentence) (e : List Word) (login : Sentence)
    → process_line
        (commands (then_two s c (refused e) d (served [])))
        ((done_word ∷ []) ∷ router_replies (then_last s c (refused e)))
        (connected login)
      ≡ settled
          (results_of (then_two s c (refused e) d (served [])))
          (login ∷ commands (then_two s c (refused e) d (served [])))
process_line-trap_done s c d e login =
    ap
      (λ l.
        process_line (commands (then_two s c (refused e) d (served []))) ((done_word ∷ []) ∷ l)
          (connected login))
      (router_replies-refused s c d e)
    ∙ process_line-answers_two s c (refused e) d (served []) login
