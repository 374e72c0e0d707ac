-- ===== src/GithubClient/Deletes.antt =====
-- `deleteIssueComment` and `deleteReaction`: the errors that count as success.
use oh_my_github_runner.Prelude.{ℕ, ◌≡◌, ap, ◌∙◌, none, List, [], ◌∷◌, ◌++◌}
use oh_my_github_runner.Prelude.Action.{Result, ok, err, after, request_failed}
use oh_my_github_runner.Task.{RepoRef, TriggerTarget}
use oh_my_github_runner.TokenCache.{get_installation_id}
use oh_my_github_runner.GithubClient.{
  GithubRequest, GithubReply, ClientState, ReplyJson, Endpoint, app_request, checked,
  get_installation, installation_or_ask, installation_found, token_for, get_installation_token,
  installation_request, with_token, unless_missing, delete_issue_comment, delete_reaction,
  repo_key_of, app_call, installation_of, comment_at, reaction_at, no_body,
}

module _ (server : List GithubRequest → Result GithubReply) (now : ℕ) (repo : RepoRef)
    (s : ClientState) (json : ReplyJson)
    (unknown : get_installation_id (repo_key_of repo) s.installation_token_cache ≡ none)
    (missing : server (s.requests ++ app_call "GET" (installation_of repo) ∷ [])
      ≡ ok (record { status = 404; json = json })) where
  -- The state after the question for the installation, and nothing else.
  abbrev pub asked : ClientState
  asked = record s { requests = s.requests ++ app_call "GET" (installation_of repo) ∷ [] }

  no_token : get_installation_token server now repo s ≡ (err (request_failed "GET" 404), asked)
  unfolding get_installation_token get_installation app_request
  no_token =
      ap (λ o. after (installation_or_ask server now repo o s) (token_for server now)) unknown
      ∙ ap
          (λ r.
            after
              (after (after (r, asked) (checked server now "GET"))
                (installation_found server now repo))
              (token_for server now))
          missing

  no_deletion :
      (endpoint : Endpoint)
      → unless_missing server now (installation_request server now repo "DELETE" endpoint no_body s)
        ≡ (ok tt, asked)
  unfolding installation_request
  no_deletion endpoint =
      ap
        (λ r. unless_missing server now (after r (with_token server now "DELETE" endpoint no_body)))
        no_token

  -- When the installation of a repository is not known and GitHub answers 404 to the question for
  -- it, the deletion of a comment or of a reaction is reported as done, although that question was
  -- the only request: none for the deletion was sent.
  pub deletes_nothing :
      (comment_id : ℕ) (target : TriggerTarget) (reaction_id : ℕ)
      → (delete_issue_comment server now repo comment_id s ≡ (ok tt, asked))
        × (delete_reaction server now repo target reaction_id s ≡ (ok tt, asked))
  unfolding delete_issue_comment delete_reaction
  deletes_nothing comment_id target reaction_id =
      (no_deletion (comment_at repo comment_id), no_deletion (reaction_at repo target reaction_id))
