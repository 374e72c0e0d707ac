-- ===== src/Server.antt =====
-- src/infra/webhook/webhook-server.ts: the routes of the HTTP server, and how src/index.ts
-- wires them. A request runs from its first line to its response in one step. Arguments stand for
-- the runtime: the bytes of a text, and `decodeURIComponent`, which throws on a malformed escape.
pub mod Routes
mod Tests
use oh_my_github_runner.Prelude.{
  ℕ, ◌-◌, String, Bool, true, false, ◌&&◌, ◌||◌, not, Option, none, some, List, [], ◌∷◌,
  if◌then◌else◌, is, text_discrete, ◌==◌, leb, ltb, length, take, drop, any, codes, includes,
}
use oh_my_github_runner.Prelude.Action.{Result, ok, err, Failure}
use oh_my_github_runner.Commands.{Text, is_empty, starts_with, same_text}
use oh_my_github_runner.Task.{TaskRecord}
use oh_my_github_runner.Queue.{Store}
use oh_my_github_runner.RateLimit.{StateFile, clear}
use oh_my_github_runner.RunnerStatus.{RunnerStatusSummary, get_status}
use oh_my_github_runner.Webhook.{WebhookHandler, World, Headers, WebhookHandlerResult, handle}

-- `url` and `authorization` may be missing; `body` is absent when reading it fails.
pub record IncomingMessage : Type 0 where
  pub method : String
  pub url : Option Text
  pub authorization : Option Text
  pub headers : Headers
  pub body : Option Text

pub data ServerResponse : Type 0 where
  health unavailable unauthorized clear_error bare_404 bare_400 bare_500 : ServerResponse
  summary : RunnerStatusSummary → ServerResponse
  unknown_tool : String → ServerResponse
  cleared : String → Option ℕ → ServerResponse
  handled : WebhookHandlerResult → ServerResponse

abbrev pub status_code : ServerResponse → ℕ
status_code health = 200
status_code unavailable = 503
status_code unauthorized = 401
status_code clear_error = 500
status_code bare_404 = 404
status_code bare_400 = 400
status_code bare_500 = 500
status_code (summary _) = 200
status_code (unknown_tool _) = 404
status_code (cleared _ _) = 200
status_code (handled result) = result.status

-- The routes work on the world of the deliveries, with the daemon's queue and pauses.
abbrev pub ServerState : Type 0
ServerState = World

abbrev pub with_pauses : StateFile → ServerState → ServerState
with_pauses pauses s = record s { daemon = record s.daemon { pauses = pauses } }

abbrev pub with_store : Store → ServerState → ServerState
with_store store s = record s { daemon = record s.daemon { store = store } }

-- The errors that the file system gives to the reads of the status and to the write of a clear.
pub record Disk : Type 0 where
  pub status_error : Store → Option Failure
  pub clear_error : String → StateFile → Option Failure

-- The last time that `toISOString` prints.
abbrev pub max_time : ℕ
max_time = 8640000000000000

pub record RateLimitAdminProvider : Type 0 where
  pub registered_tools : List String
  pub clear : String → StateFile → Result (Option ℕ) × StateFile
  pub admin_token : Option Text

pub record WebhookServerOptions : Type 0 where
  pub handler : Text → Headers → World → Result WebhookHandlerResult × World
  pub paths : List Text
  pub status_provider : Option (Store → Result RunnerStatusSummary × Store)
  pub rate_limit_admin : Option RateLimitAdminProvider
  pub utf8 : Text → List ℕ
  pub decode_uri_component : Text → Option String

abbrev pub default_paths : List Text
default_paths = codes "/webhook" ∷ codes "/github/webhooks" ∷ []

-- An empty token counts as none.
abbrev pub given_token : Option Text → Option Text
given_token none = none
given_token (some token) = if is_empty token then none else some token

abbrev pub unless_error {ℓ} :
    {A : Type ℓ} {S : Type 0} → Option Failure → S → Result A × S → Result A × S
unless_error none s r = r
unless_error (some e) s r = (err e, s)

abbrev pub cleared_pause : Disk → String → StateFile → Result (Option ℕ) × StateFile
cleared_pause disk tool file =
    let (previous, file') = clear tool file in
    unless_error (disk.clear_error tool file) file (ok previous, file')

abbrev pub status_of :
    Disk → (TaskRecord → List String) → List String → ℕ → Store → Result RunnerStatusSummary × Store
status_of disk tools_for_task registered_tools now s =
    let (status, s') = get_status tools_for_task registered_tools now s in
    unless_error (disk.status_error s) s (ok status, s')

-- The server of the composition root, for a request at `now`. A new task gets the id `task_id`.
abbrev pub wired :
    Disk
    → WebhookHandler
    → (TaskRecord → List String)
    → List String
    → Option Text
    → (Text → List ℕ)
    → (Text → Option String)
    → String
    → ℕ
    → WebhookServerOptions
wired disk h tools_for_task registered_tools admin_token utf8 decode task_id now = record {
  handler = λ body headers. handle h body headers task_id now;
  paths = default_paths;
  status_provider = some (status_of disk tools_for_task registered_tools now);
  rate_limit_admin = some (record {
    registered_tools = registered_tools;
    clear = cleared_pause disk;
    admin_token = given_token admin_token;
  });
  utf8 = utf8;
  decode_uri_component = decode;
}

abbrev pub clear_prefix : Text
clear_prefix = codes "/admin/rate-limits/"

abbrev pub clear_suffix : Text
clear_suffix = codes "/clear"

abbrev pub bearer : Text
bearer = codes "Bearer "

abbrev pub ends_with : Text → Text → Bool
ends_with suffix cs =
    leb (length suffix) (length cs) && same_text (drop (length cs - length suffix) cs) suffix

-- `slice`, with a start that is not after the end of the text.
abbrev pub slice : ℕ → ℕ → Text → Text
slice start stop cs = take (stop - start) (drop start cs)

abbrev pub has_method : String → IncomingMessage → Bool
has_method name req = is (text_discrete req.method name)

abbrev pub has_url : Text → Option Text → Bool
has_url path none = false
has_url path (some url) = same_text url path

abbrev pub is_clear_url : Option Text → Bool
is_clear_url none = false
is_clear_url (some url) = starts_with clear_prefix url && ends_with clear_suffix url

abbrev pub in_paths : List Text → Option Text → Bool
in_paths paths none = false
in_paths paths (some url) = any (same_text url) paths

abbrev pub url_or_empty : Option Text → Text
url_or_empty none = codes ""
url_or_empty (some url) = url

-- An end of the callback: a response, or an exception that leaves it without one.
abbrev pub Served : Type 0
Served = Option ServerResponse × ServerState

module _ (options : WebhookServerOptions) where
  abbrev pub bearer_is : Option Text → Text → Bool
  bearer_is none expected_token = false
  bearer_is (some header) expected_token =
      let provided = options.utf8 (drop (length bearer) header) in
      let expected = options.utf8 expected_token in
      starts_with bearer header && length provided == length expected && same_text provided expected

  unfoldable pub is_authorized_admin : IncomingMessage → Text → Bool
  is_authorized_admin req expected_token = bearer_is req.authorization expected_token

  abbrev pub clear_name : IncomingMessage → Option String
  clear_name req =
      let url = url_or_empty req.url in
      options.decode_uri_component
        (slice (length clear_prefix) (length url - length clear_suffix) url)

  -- A time that is too late to be printed throws, outside of the `try`.
  abbrev pub is_late : Option ℕ → Bool
  is_late none = false
  is_late (some previous) = ltb max_time previous

  abbrev pub clear_ended : String → ServerState → Result (Option ℕ) × StateFile → Served
  clear_ended tool s (ok previous, pauses) =
      (if is_late previous then none else some (cleared tool previous), with_pauses pauses s)
  clear_ended tool s (err e, pauses) = (some clear_error, with_pauses pauses s)

  unfoldable pub clear_tool : RateLimitAdminProvider → Option String → ServerState → Served
  clear_tool admin none s = (none, s)
  clear_tool admin (some tool) s =
      if is (text_discrete tool "") || not (includes tool admin.registered_tools)
      then (some (unknown_tool tool), s)
      else clear_ended tool s (admin.clear tool s.daemon.pauses)

  unfoldable pub clear_with_token :
      IncomingMessage → RateLimitAdminProvider → Option Text → ServerState → Served
  clear_with_token req admin none s = (some unavailable, s)
  clear_with_token req admin (some token) s =
      if not (is_authorized_admin req token)
      then (some unauthorized, s)
      else clear_tool admin (clear_name req) s

  unfoldable pub handle_rate_limit_clear : IncomingMessage → ServerState → Served
  handle_rate_limit_clear req s = elim options.rate_limit_admin [
    | none ↦ (some unavailable, s)
    | some admin ↦ clear_with_token req admin admin.admin_token s
  ]

  abbrev pub status_ended : ServerState → Result RunnerStatusSummary × Store → Served
  status_ended s (ok status, store) = (some (summary status), with_store store s)
  status_ended s (err e, store) = (some unavailable, with_store store s)

  unfoldable pub serve_status : ServerState → Served
  serve_status s = elim options.status_provider [
    | none ↦ (some unavailable, s)
    | some get_status ↦ status_ended s (get_status s.daemon.store)
  ]

  abbrev pub handler_ended : Result WebhookHandlerResult × World → Served
  handler_ended (ok result, world) = (some (handled result), world)
  handler_ended (err e, world) = (some bare_500, world)

  unfoldable pub serve_body : IncomingMessage → ServerState → Served
  serve_body req s = elim req.body [
    | none ↦ (some bare_400, s)
    | some body ↦ handler_ended (options.handler body req.headers s)
  ]

  unfoldable pub serve : IncomingMessage → ServerState → Served
  serve req s =
      if has_method "GET" req && has_url (codes "/health") req.url
      then (some health, s)
      else if has_method "GET" req && has_url (codes "/status") req.url
      then serve_status s
      else if has_method "POST" req && is_clear_url req.url
      then handle_rate_limit_clear req s
      else if not (has_method "POST" req) || not (in_paths options.paths req.url)
      then (some bare_404, s)
      else serve_body req s
