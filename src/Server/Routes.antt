-- ===== src/Server/Routes.antt =====
-- Which requests change the pauses, and which are answered.
use oh_my_github_runner.Prelude.{
  ℕ, String, ◌≡◌, refl, sym, subst, ap, ◌∙◌, by_test, is, text_discrete, Bool, true, false, not,
  ◌&&◌, ◌||◌, Option, none, some, List, [], ◌∷◌, arith, includes, length, drop, ◌==◌, inl, inr,
  Option-cases, codes,
}
use oh_my_github_runner.Prelude.Action.{Result, ok, err}
use oh_my_github_runner.Commands.{Text, starts_with, same_text}
use oh_my_github_runner.RateLimit.{StateFile, paused_tools, clear, pause}
use oh_my_github_runner.RateLimit.Pauses.{paused-clear, paused-pause}
use oh_my_github_runner.Queue.{Store}
use oh_my_github_runner.RunnerStatus.{RunnerStatusSummary}
use oh_my_github_runner.Webhook.Effects.{Grown, handle-Grown}
use oh_my_github_runner.Task.{TaskRecord}
use oh_my_github_runner.Webhook.{WebhookHandler, World, WebhookHandlerResult, handle, pause_github}
use oh_my_github_runner.Server.{
  WebhookServerOptions, RateLimitAdminProvider, IncomingMessage, ServerState, Served, serve,
  serve_status, serve_body, handle_rate_limit_clear, clear_with_token, clear_tool,
  is_authorized_admin, has_method, has_url, is_clear_url, in_paths, clear_name, bearer, bearer_is,
  wired, given_token, health, bare_404, cleared_pause, handler_ended, Disk, status_of, status_ended,
  clear_ended, is_late, default_paths,
}

same_text-length : (cs ds : Text) → same_text cs ds ≡ true → length cs == length ds ≡ true
unfolding same_text
same_text-length [] [] h = refl
same_text-length [] (d ∷ ds) h = cc
same_text-length (c ∷ cs) [] h = cc
same_text-length (c ∷ cs) (d ∷ ds) h = ground (arith, same_text-length cs ds)

-- The header of a request is the token, as bytes, after `Bearer`.
abbrev bears : (Text → List ℕ) → Option Text → Option Text → Bool
bears utf8 header none = false
bears utf8 none (some token) = false
bears utf8 (some header) (some token) =
    starts_with bearer header && same_text (utf8 (drop (length bearer) header)) (utf8 token)

abbrev pub has_answer {ℓ} : {A : Type ℓ} → Option A → Bool
has_answer none = false
has_answer (some _) = true

handler_ended-Answered :
    (options : WebhookServerOptions) (r : Result WebhookHandlerResult × World)
    → has_answer (handler_ended options r).0 ≡ true
handler_ended-Answered options (ok result, world) = refl
handler_ended-Answered options (err e, world) = refl

handler_ended-world :
    (options : WebhookServerOptions) (r : Result WebhookHandlerResult × World)
    → (handler_ended options r).1 ≡ r.1
handler_ended-world options (ok result, world) = refl
handler_ended-world options (err e, world) = refl

status_ended-Answered :
    (options : WebhookServerOptions) (s : ServerState) (r : Result RunnerStatusSummary × Store)
    → has_answer (status_ended options s r).0 ≡ true
status_ended-Answered options s (ok status, store) = refl
status_ended-Answered options s (err e, store) = refl

status_ended-pauses :
    (options : WebhookServerOptions) (s : ServerState) (r : Result RunnerStatusSummary × Store)
    → (status_ended options s r).1.daemon.pauses ≡ s.daemon.pauses
status_ended-pauses options s (ok status, store) = refl
status_ended-pauses options s (err e, store) = refl

-- A POST to one of the paths of the webhook.
abbrev pub is_delivery : List Text → IncomingMessage → Bool
is_delivery paths req = has_method "POST" req && in_paths paths req.url

-- Pauses of `github` take none away, and add none but this.
module _ (at : ℕ) (j : String) where
  abbrev pub paused : StateFile → Bool
  paused file = includes j (paused_tools at file)

  grown-paused :
      (ends : List ℕ) (file : StateFile)
      → ((paused file && not (paused (pause_github ends file))) ≡ false)
        × ((paused (pause_github ends file)
              && not (paused file)
              && not (is (text_discrete "github" j)))
            ≡ false)
  unfolding pause_github
  grown-paused [] file = (ground arith, ground arith)
  grown-paused (u ∷ ends) file =
      let (keeps, adds) = grown-paused ends (pause "github" u file) in
      let one = paused-pause at u "github" j file in
      (ground (arith, keeps, one), ground (arith, adds, one))

-- What holds of each route holds of the server.
serve_by :
    (options : WebhookServerOptions) (P : Served → Type 0) (req : IncomingMessage) (s : ServerState)
    → (has_method "GET" req ≡ true → P (some health, s))
    → (has_method "GET" req ≡ true → P (serve_status options s))
    → (has_method "POST" req && is_clear_url req.url ≡ true
        → P (handle_rate_limit_clear options req s))
    → (has_method "POST" req && is_clear_url req.url ≡ false → P (some bare_404, s))
    → (has_method "POST" req && is_clear_url req.url ≡ false
        → is_delivery options.paths req ≡ true
        → P (serve_body options req s))
    → P (serve options req s)
unfolding serve
serve_by options P req s on_health on_status on_clear on_missing on_body =
    by_test P (has_method "GET" req && has_url (codes "/health") req.url)
      (λ e. on_health (ground (arith, e)))
      λ _.
        by_test P (has_method "GET" req && has_url (codes "/status") req.url)
          (λ e. on_status (ground (arith, e)))
          λ _. by_test P (has_method "POST" req && is_clear_url req.url) on_clear λ e.
            by_test P (not (has_method "POST" req) || not (in_paths options.paths req.url))
              (λ _. on_missing e) (λ d. on_body e (ground (arith, d)))

get_is_no_post :
    (req : IncomingMessage) → has_method "GET" req ≡ true → has_method "POST" req ≡ false
get_is_no_post req e = elim (text_discrete req.method "GET") [
  | yes same ↦
      subst (λ m. is (text_discrete m "POST") ≡ false) (sym same) (unfold text_discrete in refl)
  | no differs ↦ ground (arith, e, differs)
]

module _ (disk : Disk) (h : WebhookHandler) (tools_for_task : TaskRecord → List String)
    (registered_tools : List String) (admin_token : Option Text) (utf8 : Text → List ℕ)
    (decode : Text → Option String) (task_id : String) (now : ℕ) where
  abbrev options : WebhookServerOptions
  options = wired disk h tools_for_task registered_tools admin_token utf8 decode task_id now

  bearer_is_lem :
      (header : Option Text) (token : Text)
      → bearer_is options header token ≡ bears utf8 header (some token)
  bearer_is_lem none token = refl
  bearer_is_lem (some header) token =
      ground (arith, same_text-length (utf8 (drop (length bearer) header)) (utf8 token))

  abbrev admin : RateLimitAdminProvider
  admin = record {
    registered_tools = registered_tools;
    clear = cleared_pause disk;
    admin_token = given_token admin_token;
  }

  -- The tool is registered, and the file system lets its pause be cleared.
  abbrev clearable : String → ServerState → Bool
  clearable tool s =
      not (is (text_discrete tool ""))
      && includes tool registered_tools
      && not (has_answer (disk.clear_error tool s.daemon.pauses))

  abbrev names : Option String → String → ServerState → Bool
  names none j s = false
  names (some tool) j s = is (text_discrete tool j) && clearable tool s

  -- The request asks to clear the pause of a tool, and may and can do so.
  abbrev pub clears : IncomingMessage → String → ServerState → Bool
  clears req j s =
      has_method "POST" req
      && is_clear_url req.url
      && bears utf8 req.authorization (given_token admin_token)
      && names (clear_name options req) j s

  module _ (at : ℕ) (j : String) (s : ServerState) where
    abbrev Lifted : Bool → Served → Type 0
    Lifted lifted r = paused at j r.1.daemon.pauses ≡ (paused at j s.daemon.pauses && not lifted)

    clear_ended-pauses :
        (tool : String) (r : Result (Option ℕ) × StateFile)
        → (clear_ended options tool s r).1.daemon.pauses ≡ r.1
    clear_ended-pauses tool (ok previous, file) = refl
    clear_ended-pauses tool (err e, file) = refl

    cleared-paused :
        (tool : String)
        → paused at j (cleared_pause disk tool s.daemon.pauses).1 ≡ (
            paused at j s.daemon.pauses
            && not (
                is (text_discrete tool j)
                && not (has_answer (disk.clear_error tool s.daemon.pauses))))
    cleared-paused tool = elim (Option-cases (disk.clear_error tool s.daemon.pauses)) [
      | inl e ↦ rw e (ground (arith, paused-clear at tool j s.daemon.pauses))
      | inr (x, e) ↦ rw e (ground arith)
    ]

    clear_tool-Lifted :
        (name : Option String) → Lifted (names name j s) (clear_tool options admin name s)
    unfolding clear_tool
    clear_tool-Lifted none = ground arith
    clear_tool-Lifted (some tool) =
        by_test (Lifted (names (some tool) j s))
          (is (text_discrete tool "") || not (includes tool registered_tools))
          (λ e. ground (arith, e))
          (λ e.
            ap (paused at j) (clear_ended-pauses tool (cleared_pause disk tool s.daemon.pauses))
            ∙ cleared-paused tool
            ∙ ground (arith, e))

    clear_with_token-Lifted :
        (req : IncomingMessage) (token : Option Text)
        → Lifted
            (bears utf8 req.authorization token && names (clear_name options req) j s)
            (clear_with_token options req admin token s)
    unfolding clear_with_token is_authorized_admin
    clear_with_token-Lifted req none = ground arith
    clear_with_token-Lifted req (some token) =
        by_test
          (Lifted (bears utf8 req.authorization (some token) && names (clear_name options req) j s))
          (not (bearer_is options req.authorization token))
          (λ e. ground (arith, e, bearer_is_lem req.authorization token))
          (λ e. ground (
            arith,
            e,
            bearer_is_lem req.authorization token,
            clear_tool-Lifted (clear_name options req),
          ))

    -- What is paused after a request: a pause that is not lifted stays, a lifted one is gone, and one
    -- is added by a delivery only, and only of `github`.
    abbrev pub Changed : (lifted delivery : Bool) → Served → Type 0
    Changed lifted delivery r =
        ((paused at j s.daemon.pauses && not lifted && not (paused at j r.1.daemon.pauses)) ≡ false)
        × ((lifted && paused at j r.1.daemon.pauses) ≡ false)
        × ((paused at j r.1.daemon.pauses
              && not (paused at j s.daemon.pauses)
              && not (delivery && is (text_discrete "github" j)))
            ≡ false)

    exact-Changed :
        (lifted delivery : Bool) (r : Served) → Lifted lifted r → Changed lifted delivery r
    exact-Changed lifted delivery r e = (ground (arith, e), ground (arith, e), ground (arith, e))

    Grown-Changed :
        (lifted delivery : Bool) (r : Served)
        → lifted ≡ false
        → delivery ≡ true
        → Grown s.daemon.pauses r.1.daemon.pauses
        → Changed lifted delivery r
    Grown-Changed lifted delivery r none_lifted is_one (ends, e) =
        let (keeps, adds) = grown-paused at j ends s.daemon.pauses in
        let same = ap (paused at j) e in
        (
          ground (arith, keeps, same),
          ground (arith, none_lifted),
          ground (arith, adds, same, is_one),
        )

    body-Grown :
        (req : IncomingMessage) → Grown s.daemon.pauses (serve_body options req s).1.daemon.pauses
    unfolding serve_body pause_github
    body-Grown req = elim (Option-cases req.body) [
      | inl e ↦ rw (e, serve_body) ([], refl)
      | inr (body, e) ↦
          rw (e, serve_body)
            (subst (λ w. Grown s.daemon.pauses w.daemon.pauses)
              (sym (handler_ended-world options (handle h body req.headers task_id now s)))
              (handle-Grown h body req.headers task_id now s))
    ]

    -- What is paused at any time, after a request. A POST whose URL has the shape of the route, with
    -- the token of the server after `Bearer`, lifts the pause of the registered tool that its URL
    -- names, unless the file system refuses. Every other pause stays. No request adds a pause but a
    -- POST to a path of the webhook, whose calls can pause the tool `github`, and no other.
    pub serve_pauses :
        (req : IncomingMessage)
        → Changed (clears req j s) (is_delivery default_paths req) (serve options req s)
    unfolding handle_rate_limit_clear serve_status
    serve_pauses req =
        let delivery = is_delivery default_paths req in
        serve_by options (Changed (clears req j s) delivery) req s
          (λ e.
            exact-Changed (clears req j s) delivery (some health, s)
              (ground (arith, e, get_is_no_post req)))
          (λ e. exact-Changed (clears req j s) delivery (serve_status options s) (
            ap (paused at j) (
              status_ended-pauses options s
                (status_of disk tools_for_task registered_tools now s.daemon.store))
            ∙ ground (arith, e, get_is_no_post req)))
          (λ e.
            exact-Changed (clears req j s) delivery (handle_rate_limit_clear options req s)
              (ground (arith, e, clear_with_token-Lifted req (given_token admin_token))))
          (λ e. exact-Changed (clears req j s) delivery (some bare_404, s) (ground (arith, e)))
          (λ e d.
            Grown-Changed (clears req j s) delivery (serve_body options req s) (ground (arith, e)) d
              (body-Grown req))

  -- The name does not decode, or the pause that is cleared ends too late for its time to be printed.
  abbrev loses : Option String → ServerState → Bool
  loses none s = true
  loses (some tool) s = clearable tool s && is_late options (clear tool s.daemon.pauses).0

  -- The request is an authorised one to clear a tool, and fails outside of the `try`.
  abbrev pub is_lost : IncomingMessage → ServerState → Bool
  is_lost req s =
      has_method "POST" req
      && is_clear_url req.url
      && bears utf8 req.authorization (given_token admin_token)
      && loses (clear_name options req) s

  module _ (s : ServerState) where
    abbrev Answered : Bool → Served → Type 0
    Answered lost r = has_answer r.0 ≡ not lost

    cleared-Answered :
        (tool : String)
        → Answered
            (not (has_answer (disk.clear_error tool s.daemon.pauses))
              && is_late options (clear tool s.daemon.pauses).0)
            (clear_ended options tool s (cleared_pause disk tool s.daemon.pauses))
    cleared-Answered tool = elim (Option-cases (disk.clear_error tool s.daemon.pauses)) [
      | inl e ↦ rw e (ground arith)
      | inr (x, e) ↦ rw e (ground arith)
    ]

    clear_tool-Answered :
        (name : Option String) → Answered (loses name s) (clear_tool options admin name s)
    unfolding clear_tool
    clear_tool-Answered none = refl
    clear_tool-Answered (some tool) =
        by_test (Answered (loses (some tool) s))
          (is (text_discrete tool "") || not (includes tool registered_tools))
          (λ e. ground (arith, e)) (λ e. cleared-Answered tool ∙ ground (arith, e))

    clear_with_token-Answered :
        (req : IncomingMessage) (token : Option Text)
        → Answered
            (bears utf8 req.authorization token && loses (clear_name options req) s)
            (clear_with_token options req admin token s)
    unfolding clear_with_token is_authorized_admin
    clear_with_token-Answered req none = ground arith
    clear_with_token-Answered req (some token) =
        by_test
          (Answered (bears utf8 req.authorization (some token) && loses (clear_name options req) s))
          (not (bearer_is options req.authorization token))
          (λ e. ground (arith, e, bearer_is_lem req.authorization token))
          (λ e. ground (
            arith,
            e,
            bearer_is_lem req.authorization token,
            clear_tool-Answered (clear_name options req),
          ))

    body-Answered : (req : IncomingMessage) → Answered false (serve_body options req s)
    unfolding serve_body
    body-Answered req = elim (Option-cases req.body) [
      | inl e ↦ rw (e, serve_body) refl
      | inr (body, e) ↦
          rw (e, serve_body)
            (handler_ended-Answered options (handle h body req.headers task_id now s))
    ]

    -- Every request gets a response, also when the body cannot be read, the handler throws, or the
    -- file system fails the status or the clear. The only exceptions leave the callback of an
    -- authorised request to clear a pause: a name that does not decode, and a registered tool whose
    -- pause was cleared and had a time that is too late to be printed.
    pub serve_answers : (req : IncomingMessage) → Answered (is_lost req s) (serve options req s)
    unfolding handle_rate_limit_clear serve_status
    serve_answers req =
        serve_by options (Answered (is_lost req s)) req s
          (λ e. ground (arith, e, get_is_no_post req))
          (λ e.
            status_ended-Answered options s
              (status_of disk tools_for_task registered_tools now s.daemon.store)
            ∙ ground (arith, e, get_is_no_post req))
          (λ e. ground (arith, e, clear_with_token-Answered req (given_token admin_token)))
          (λ e. ground (arith, e)) (λ e d. ground (arith, e, body-Answered req))
