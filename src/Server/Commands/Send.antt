-- ===== src/Server/Commands/Send.antt =====
-- What runSendCommand reads in the arguments that it is given (server/command.go).
use mattermost_plugin_todo.Prelude.{
  ℕ, ◌≡◌, refl, ◌∙◌, true, List, [], ◌∷◌, Bool-cases, inl, inr, arith,
}
use mattermost_plugin_todo.Server.Action.{ok}
use mattermost_plugin_todo.Server.Commands.{
  trim_space, string_args, Handler, run_send, calls, handler_of, dispatch, user_name, sends_to,
  send_request, SendRequest, posts_usage,
}
use mattermost_plugin_todo.Server.Commands.Words.{
  is_word, are_words, has_text, string_args-words_of,
}

send_request_returns :
    (args : List (List ℕ)) → are_words args ≡ true → (r : SendRequest) × (send_request args ≡ ok r)
unfolding are_words is_word send_request sends_to user_name
send_request_returns [] h = (posts_usage, refl)
send_request_returns (arg ∷ []) h = (posts_usage, refl)
send_request_returns ([] ∷ word ∷ words) h = absurd (cc)
send_request_returns ((c ∷ name) ∷ word ∷ words) h = (_, refl)

handler_of-calls :
    (command : List ℕ) (rest args : List (List ℕ)) (h : Handler)
    → handler_of command rest ≡ calls h args
    → rest ≡ args
unfolding handler_of
handler_of-calls command rest args h e = ground arith

dispatch_words :
    (texts args : List (List ℕ))
    → are_words texts ≡ true
    → dispatch texts ≡ ok (calls run_send args)
    → are_words args ≡ true
unfolding dispatch are_words
dispatch_words [] args h e = absurd (cc)
dispatch_words (trigger ∷ []) args h e = absurd (cc)
dispatch_words (trigger ∷ command ∷ rest) args h e =
    let f : handler_of command rest ≡ calls run_send args = cc in
    let same = handler_of-calls command rest args run_send f in ground (arith, same)

-- Whatever is typed, runSendCommand does not panic on the arguments that ExecuteCommand gives
-- it: it reads a user and a message, or posts the usage.
pub send_request-string_args :
    (text : List ℕ) (args : List (List ℕ))
    → dispatch (string_args text) ≡ ok (calls run_send args)
    → (r : SendRequest) × (send_request args ≡ ok r)
send_request-string_args text args e =
    let (same, words) = string_args-words_of text in
    elim (Bool-cases (has_text (trim_space text))) [
      | inl some_text ↦
          send_request_returns args (dispatch_words (string_args text) args (words ∙ some_text) e)
      | inr blank ↦ absurd (unfold dispatch in cc)
    ]
