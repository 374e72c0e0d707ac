-- ===== src/GithubClient.antt =====
-- src/infra/github/github-app-client.ts: the calls of the GitHub API, over the cache of tokens. A
-- request is recorded before it is answered; `server` stands for the fetcher and gives a reply by
-- all requests so far, or throws. An endpoint stands for its path, and a reply's JSON for the
-- fields that the code reads of it. The signed token of the app is one constructor. A call reads
-- the clock once.
pub mod Tokens
pub mod Deletes
pub mod LinkedRefs
mod Tests
use oh_my_github_runner.Prelude.{
  ℕ, ◌+◌, String, ◌<>◌, Bool, true, false, ◌&&◌, not, Option, none, some, List, [], ◌∷◌, ◌++◌,
  if◌then◌else◌, leb, ltb, ◌==◌, get_or,
}
use oh_my_github_runner.Prelude.Action.{
  Action, Result, ok, err, Failure, thrown, request_failed, after, ◌>>=◌,
}
use oh_my_github_runner.Task.{RepoRef, TriggerTarget}
use oh_my_github_runner.Commands.{Text}
use oh_my_github_runner.TokenCache.{
  InstallationTokenCache, get_installation_id, set_installation_id, get_token, set_token,
}
use oh_my_github_runner.Payload.{PullField, pull_request_state, Label, label_names}
use oh_my_github_runner.Dispatch.{PullRequestState}

pub data Authorization : Type 0 where
  app_jwt no_authorization : Authorization
  installation_token : String → Authorization

pub data Endpoint : Type 0 where
  installation_of issues_of repository_of pulls_of : RepoRef → Endpoint
  access_tokens_of : (installation_id : String) → Endpoint
  issue_at pull_at comments_of comment_at : RepoRef → ℕ → Endpoint
  reactions_of : RepoRef → TriggerTarget → Endpoint
  reaction_at : RepoRef → TriggerTarget → ℕ → Endpoint
  app_endpoint : Endpoint
  user_endpoint : (login : String) → Endpoint

pub data RequestBody : Type 0 where
  no_body closed_state : RequestBody
  comment_text : Text → RequestBody
  reaction_content : String → RequestBody
  new_issue : (title body : Text) → RequestBody

pub record GithubRequest : Type 0 where
  pub method : String
  pub endpoint : Endpoint
  pub authorization : Authorization
  pub body : RequestBody

-- `expires_at` is absent when `Date.parse` does not read it.
pub data ReplyJson : Type 0 where
  no_json : ReplyJson
  installation_json : (id : String) → ReplyJson
  token_json : (token : String) → (expires_at : Option ℕ) → ReplyJson
  id_json : (id : ℕ) → ReplyJson
  user_json : (id : ℕ) → (login : String) → ReplyJson
  app_json : (slug : String) → ReplyJson
  pull_json : PullField → ReplyJson
  labels_json : List Label → ReplyJson
  repository_json : (default_branch : String) → ReplyJson
  issue_json : (number : ℕ) → (html_url : String) → ReplyJson

pub record GithubReply : Type 0 where
  pub status : ℕ
  pub json : ReplyJson

pub record ClientState : Type 0 where
  pub installation_token_cache : InstallationTokenCache
  pub requests : List GithubRequest

pub record AppBotInfo : Type 0 where
  pub id : ℕ
  pub login : String
  pub slug : String

-- `response.ok`.
abbrev pub is_ok : ℕ → Bool
is_ok status = leb 200 status && ltb status 300

abbrev pub repo_key_of : RepoRef → String
repo_key_of repo = repo.owner <> "/" <> repo.name

-- A field of a reply of another shape: `TypeError`.
abbrev pub as_id : ReplyJson → Result ℕ
as_id json = elim json [ id_json id ↦ ok id | _ ↦ err (thrown "TypeError") ]

abbrev pub with_cache : InstallationTokenCache → ClientState → ClientState
with_cache cache s = record s { installation_token_cache = cache }

abbrev pub pure : {A : Type 0} → A → Action ClientState A
pure a s = (ok a, s)

abbrev pub fail_with : {A : Type 0} → Failure → Action ClientState A
fail_with e s = (err e, s)

abbrev pub app_call : String → Endpoint → GithubRequest
app_call method endpoint = record {
  method = method;
  endpoint = endpoint;
  authorization = app_jwt;
  body = no_body;
}

abbrev pub installation_call : String → Endpoint → RequestBody → String → GithubRequest
installation_call method endpoint body token = record {
  method = method;
  endpoint = endpoint;
  authorization = installation_token token;
  body = body;
}

module _ (server : List GithubRequest → Result GithubReply) (now : ℕ) where
  abbrev pub send : GithubRequest → Action ClientState GithubReply
  send request s =
      let s' = record s { requests = s.requests ++ request ∷ [] } in (server s'.requests, s')

  abbrev pub checked : String → GithubReply → Action ClientState ReplyJson
  checked method reply s =
      if is_ok reply.status
      then (ok reply.json, s)
      else (err (request_failed method reply.status), s)

  unfoldable pub app_request : String → Endpoint → Action ClientState ReplyJson
  app_request method endpoint s = after (send (app_call method endpoint) s) (checked method)

  abbrev pub installation_found : RepoRef → ReplyJson → Action ClientState String
  installation_found repo json s = elim json [
    | installation_json id ↦
        (ok id, with_cache (set_installation_id (repo_key_of repo) id s.installation_token_cache) s)
    | _ ↦ (err (thrown "TypeError"), s)
  ]

  abbrev pub installation_or_ask : RepoRef → Option String → Action ClientState String
  installation_or_ask repo (some id) s = (ok id, s)
  installation_or_ask repo none s =
      after (app_request "GET" (installation_of repo) s) (installation_found repo)

  unfoldable pub get_installation : RepoRef → Action ClientState String
  get_installation repo s =
      installation_or_ask repo (get_installation_id (repo_key_of repo) s.installation_token_cache) s

  abbrev pub token_found : String → ReplyJson → Action ClientState String
  token_found id json s = elim json [
    | token_json token expires_at ↦ (
      ok token,
      with_cache (set_token id token (get_or expires_at (now + 60000)) s.installation_token_cache)
          s,
    )
    | _ ↦ (err (thrown "TypeError"), s)
  ]

  abbrev pub token_or_ask :
      String → Option String × InstallationTokenCache → Action ClientState String
  token_or_ask id (some token, cache) s = (ok token, with_cache cache s)
  token_or_ask id (none, cache) s =
      after (app_request "POST" (access_tokens_of id) (with_cache cache s)) (token_found id)

  abbrev pub token_for : String → Action ClientState String
  token_for id s = token_or_ask id (get_token id now s.installation_token_cache) s

  unfoldable pub get_installation_token : RepoRef → Action ClientState String
  get_installation_token repo s = after (get_installation repo s) token_for

  abbrev pub with_token : String → Endpoint → RequestBody → String → Action ClientState ReplyJson
  with_token method endpoint body token s =
      after (send (installation_call method endpoint body token) s) (checked method)

  unfoldable pub installation_request :
      RepoRef → String → Endpoint → RequestBody → Action ClientState ReplyJson
  installation_request repo method endpoint body s =
      after (get_installation_token repo s) (with_token method endpoint body)

  -- The id of what was created.
  abbrev pub id_of : ReplyJson → Action ClientState ℕ
  id_of json s = (as_id json, s)

  unfoldable pub post_issue_comment : RepoRef → ℕ → Text → Action ClientState ℕ
  post_issue_comment repo issue_number body =
      installation_request repo "POST" (comments_of repo issue_number) (comment_text body) >>= id_of

  unfoldable pub post_pull_request_comment : RepoRef → ℕ → Text → Action ClientState ℕ
  post_pull_request_comment repo number body = post_issue_comment repo number body

  unfoldable pub add_reaction : RepoRef → TriggerTarget → String → Action ClientState ℕ
  add_reaction repo target content =
      installation_request repo "POST" (reactions_of repo target) (reaction_content content)
      >>= id_of

  unfoldable pub create_issue : RepoRef → Text → Text → Action ClientState (ℕ × String)
  create_issue repo title body =
      installation_request repo "POST" (issues_of repo) (new_issue title body) >>= λ json.
      elim json [ issue_json number url ↦ pure (number, url) | _ ↦ fail_with (thrown "TypeError") ]

  abbrev pub done : ReplyJson → Action ClientState (Unit {0})
  done json s = (ok tt, s)

  unfoldable pub close_issue : RepoRef → ℕ → Action ClientState (Unit {0})
  close_issue repo issue_number =
      installation_request repo "PATCH" (issue_at repo issue_number) closed_state >>= done

  unfoldable pub update_issue_comment : RepoRef → ℕ → Text → Action ClientState (Unit {0})
  update_issue_comment repo comment_id body =
      installation_request repo "PATCH" (comment_at repo comment_id) (comment_text body) >>= done

  -- `/ -> 404$/` on the message of an error: all the failed requests above have such a message.
  abbrev pub is_not_found_error : Failure → Bool
  is_not_found_error e = elim e [ request_failed method status ↦ status == 404 | _ ↦ false ]

  abbrev pub unless_missing : Result ReplyJson × ClientState → Result (Unit {0}) × ClientState
  unless_missing (ok json, s) = (ok tt, s)
  unless_missing (err e, s) = if is_not_found_error e then (ok tt, s) else (err e, s)

  unfoldable pub delete_issue_comment : RepoRef → ℕ → Action ClientState (Unit {0})
  delete_issue_comment repo comment_id s =
      unless_missing (installation_request repo "DELETE" (comment_at repo comment_id) no_body s)

  unfoldable pub delete_reaction : RepoRef → TriggerTarget → ℕ → Action ClientState (Unit {0})
  delete_reaction repo target reaction_id s =
      unless_missing
        (installation_request repo "DELETE" (reaction_at repo target reaction_id) no_body s)

  unfoldable pub get_pull_request_state : RepoRef → ℕ → Action ClientState PullRequestState
  get_pull_request_state repo number =
      installation_request repo "GET" (pull_at repo number) no_body >>= λ json. elim json [
        | pull_json pull ↦ pure (pull_request_state repo pull)
        | _ ↦ fail_with (thrown "TypeError")
      ]

  unfoldable pub get_issue_labels : RepoRef → ℕ → Action ClientState (List String)
  get_issue_labels repo issue_number =
      installation_request repo "GET" (issue_at repo issue_number) no_body >>= λ json. elim json [
        | labels_json labels ↦ pure (label_names (some labels))
        | _ ↦ fail_with (thrown "TypeError")
      ]

  unfoldable pub get_default_branch : RepoRef → Action ClientState String
  get_default_branch repo = installation_request repo "GET" (repository_of repo) no_body >>= λ json.
      elim json [ repository_json branch ↦ pure branch | _ ↦ fail_with (thrown "TypeError") ]

  unfoldable pub public_request : Endpoint → Action ClientState ReplyJson
  public_request endpoint s =
      after
        (send
          (record {
            method = "GET";
            endpoint = endpoint;
            authorization = no_authorization;
            body = no_body;
          })
          s)
        (checked "GET")

  unfoldable pub get_app_bot_info : Action ClientState AppBotInfo
  get_app_bot_info = app_request "GET" app_endpoint >>= λ json. elim json [
    | app_json slug ↦ public_request (user_endpoint (slug <> "[bot]")) >>= λ user. elim user [
      | user_json id login ↦ pure (record { id = id; login = login; slug = slug })
      | _ ↦ fail_with (thrown "TypeError")
    ]
    | _ ↦ fail_with (thrown "TypeError")
  ]
