-- ===== src/MikrotikApi/Tests.antt =====
-- src/services/mikrotikApi.js on concrete words, sentences and exchanges.
use relay_cerebro_infra.Base.{ℕ, zero, suc, List, some, [], ◌∷◌, ◌++◌, ◌≡◌, arith}
use relay_cerebro_infra.StateMachine.Mac.{codes}
use relay_cerebro_infra.MikrotikApi.{
  Word, Sentence, parse_reply, encode_words, encode_length, length, take,
}
use relay_cerebro_infra.MikrotikApi.Replies.{
  encode_all, within, parse_reply-encode, parse_reply-cut_length,
}
use relay_cerebro_infra.MikrotikApi.Client.{resolved, process_line, connected, done_word, trap_word}
use relay_cerebro_infra.MikrotikApi.Session.{
  Answer, Script, served, refused, commands, results_of, settled,
}
use relay_cerebro_infra.MikrotikApi.Exchange.{
  router_replies, process_line-replies, process_line-trap_done,
}

abbrev print_bindings : Sentence
print_bindings = codes "/ip/hotspot/ip-binding/print" ∷ []

abbrev remove_binding : Sentence
remove_binding = codes "/ip/hotspot/ip-binding/remove" ∷ codes "=.id=*1" ∷ []

abbrev printed_rows : List (List Word)
printed_rows = (codes "=.id=*1" ∷ codes "=address=10.0.0.2" ∷ []) ∷ []

abbrev one_row : Answer
one_row = served printed_rows

abbrev login : Sentence
login = codes "/login" ∷ codes "=name=admin" ∷ codes "=password=secret" ∷ []

abbrev refusal : Answer
refusal = refused (codes "=message=no such item" ∷ [])

process_line-replies_example :
    let script : Script = (print_bindings, one_row) ∷ (remove_binding, refusal) ∷ [] in
    let after =
      process_line (commands script) ((done_word ∷ []) ∷ router_replies script) (connected login) in
    (after.results ≡ results_of script)
    × (after.sent ≡ login ∷ print_bindings ∷ remove_binding ∷ [])
    × (after.outcome ≡ some resolved)
process_line-replies_example =
    process_line-replies ((print_bindings, printed_rows) ∷ []) remove_binding refusal login

process_line-trap_done_example :
    process_line
      (print_bindings ∷ remove_binding ∷ print_bindings ∷ [])
      ((done_word ∷ [])
        ∷ router_replies ((print_bindings, one_row) ∷ (remove_binding, refusal) ∷ []))
      (connected login)
    ≡ settled
        (results_of (
          (print_bindings, one_row) ∷ (remove_binding, refusal) ∷ (print_bindings, served []) ∷ []))
        (login ∷ print_bindings ∷ remove_binding ∷ print_bindings ∷ [])
process_line-trap_done_example =
    process_line-trap_done ((print_bindings, printed_rows) ∷ []) remove_binding print_bindings
      (codes "=message=no such item" ∷ []) login

-- The last sentence has arrived up to the third byte of its second word.
parse_reply-encode_example :
    parse_reply (
      encode_all ((done_word ∷ []) ∷ (trap_word ∷ []) ∷ [])
      ++ encode_words (trap_word ∷ [])
      ++ (5 ∷ codes "=me"))
    ≡ (done_word ∷ []) ∷ (trap_word ∷ []) ∷ []
unfolding encode_length
parse_reply-encode_example =
    parse_reply-encode ((done_word ∷ []) ∷ (trap_word ∷ []) ∷ []) (trap_word ∷ [])
      (within (codes "=mess") (codes "=me"))
      (((omega arith, omega arith), tt), (((omega arith, omega arith), tt), tt))
      ((omega arith, omega arith), tt) ((omega arith, omega arith), omega arith)

abbrev repeat : ℕ → ℕ → Word
repeat zero b = []
repeat (suc n) b = b ∷ repeat n b

abbrev long_word : Word
long_word = repeat 150 0x78

parse_reply-cut_length_example :
    parse_reply (
      encode_all ((done_word ∷ []) ∷ [])
      ++ encode_words (trap_word ∷ [])
      ++ take 1 (encode_length (length long_word)))
    ≡ (done_word ∷ []) ∷ (trap_word ∷ []) ∷ []
parse_reply-cut_length_example =
    parse_reply-cut_length ((done_word ∷ []) ∷ []) trap_word [] long_word
      (((omega arith, omega arith), tt), tt) ((omega arith, omega arith), tt) (omega arith)
      (omega arith)
