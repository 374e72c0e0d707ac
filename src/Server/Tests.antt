-- ===== src/Server/Tests.antt =====
-- Runs of the server.
use oh_my_github_runner.Prelude.{
  ℕ, String, ◌≡◌, refl, not, true, Option, none, some, List, [], ◌∷◌, codes, includes,
  text_discrete, if◌then◌else◌,
}
use oh_my_github_runner.Commands.{Text, starts_with, same_text}
use oh_my_github_runner.Task.{TaskRecord}
use oh_my_github_runner.RateLimit.{saved, clear}
use oh_my_github_runner.Prelude.Assoc.{lookup}
use oh_my_github_runner.Webhook.Samples.{handler, headers, world}
use oh_my_github_runner.Server.{
  IncomingMessage, ServerState, WebhookServerOptions, serve, wired, Disk, with_pauses,
  default_paths,
}
use oh_my_github_runner.Server.Routes.{
  clears, is_lost, serve_pauses, serve_answers, has_answer, Changed, is_delivery,
}

abbrev tools : TaskRecord → List String
tools task = "claude" ∷ []

-- A name with an escape does not decode here.
abbrev decode : Text → Option String
decode text = if starts_with (codes "%") text then none else some "claude"

abbrev utf8 : Text → List ℕ
utf8 text = text

-- The file system gives no errors.
abbrev disk : Disk
disk = record { status_error = λ store. none; clear_error = λ tool file. none }

abbrev options : WebhookServerOptions
options = wired disk handler tools ("claude" ∷ []) (some (codes "key")) utf8 decode "t2" 150

abbrev clear_request : String → IncomingMessage
clear_request url = record {
  method = "POST";
  url = some (codes url);
  authorization = some (codes "Bearer key");
  headers = headers;
  body = none;
}

abbrev state : ServerState
state = with_pauses (saved (("claude", 900) ∷ [])) world

abbrev late_state : ServerState
late_state = with_pauses (saved (("claude", 8640000000000001) ∷ [])) world

abbrev clear_claude : IncomingMessage
clear_claude = clear_request "/admin/rate-limits/claude/clear"

serve_pauses_example :
    Changed disk handler tools
      ("claude" ∷ [])
      (some (codes "key"))
      utf8
      decode
      "t2"
      150
      200
      "claude"
      state
      (clears disk handler tools
        ("claude" ∷ [])
        (some (codes "key"))
        utf8
        decode
        "t2"
        150
        clear_claude
        "claude"
        state)
      (is_delivery default_paths clear_claude)
      (serve options clear_claude state)
serve_pauses_example =
    serve_pauses disk handler tools ("claude" ∷ []) (some (codes "key")) utf8 decode "t2" 150 200
      "claude" state clear_claude

it_clears :
    clears disk handler tools
      ("claude" ∷ [])
      (some (codes "key"))
      utf8
      decode
      "t2"
      150
      clear_claude
      "claude"
      state
    ≡ true
unfolding starts_with same_text text_discrete includes
it_clears = refl

abbrev malformed : IncomingMessage
malformed = clear_request "/admin/rate-limits/%/clear"

serve_answers_example :
    has_answer (serve options malformed state).0
    ≡ not (
        is_lost disk handler tools
          ("claude" ∷ [])
          (some (codes "key"))
          utf8
          decode
          "t2"
          150
          malformed
          state)
serve_answers_example =
    serve_answers disk handler tools ("claude" ∷ []) (some (codes "key")) utf8 decode "t2" 150 state
      malformed

it_is_lost :
    is_lost disk handler tools
      ("claude" ∷ [])
      (some (codes "key"))
      utf8
      decode
      "t2"
      150
      malformed
      state
    ≡ true
unfolding starts_with same_text text_discrete
it_is_lost = refl

a_late_one_is_lost :
    is_lost disk handler tools
      ("claude" ∷ [])
      (some (codes "key"))
      utf8
      decode
      "t2"
      150
      clear_claude
      late_state
    ≡ true
unfolding starts_with same_text text_discrete includes clear lookup
a_late_one_is_lost = refl
