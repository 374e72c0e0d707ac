-- ===== src/GithubClient/Tests.antt =====
-- Runs of the client of the GitHub API.
use oh_my_github_runner.Prelude.{
  ℕ, ◌+◌, ◌<◌, ◌≡◌, refl, false, none, some, List, [], ◌∷◌, codes, text_discrete,
}
use oh_my_github_runner.Prelude.Assoc.{lookup, insert}
use oh_my_github_runner.Prelude.Action.{Result, ok, err, thrown}
use oh_my_github_runner.Task.{issue, issue_target}
use oh_my_github_runner.Task.Samples.{sample_repo}
use oh_my_github_runner.TokenCache.{get_installation_id, set_installation_id, get_token, set_token}
use oh_my_github_runner.GithubClient.{
  GithubRequest, GithubReply, ClientState, installation_json, token_json, no_json, app_request,
  get_installation, get_installation_token, delete_issue_comment, delete_reaction, repo_key_of,
}
use oh_my_github_runner.GithubClient.Tokens.{token_again, Origin}
use oh_my_github_runner.GithubClient.Deletes.{deletes_nothing, asked}
use oh_my_github_runner.GithubClient.LinkedRefs.{
  LinkedRefsGraphqlNode, LinkedRefsGraphqlRepository, map_linked_refs_response, AreMentions,
  map_linked_refs_response-AreMentions,
}

-- The first request is about the installation, the second about its token.
abbrev server : List GithubRequest → Result GithubReply
server [] = err (thrown "none")
server (_ ∷ []) = ok (record { status = 200; json = installation_json "12" })
server (_ ∷ _ ∷ _) = ok (record { status = 201; json = token_json "secret" (some 900000) })

abbrev start : ClientState
start = record {
  installation_token_cache = record { tokens = []; installation_ids = []; buffer_ms = 60000 };
  requests = [];
}

abbrev later_state : ClientState
later_state = (get_installation_token server 100 sample_repo start).1

token_again_example :
    (expires_at : ℕ) × Origin server sample_repo 100 [] "secret" expires_at later_state
    × ((later : ℕ)
        → later + 60000 < expires_at
        → get_installation_token server later sample_repo later_state ≡ (ok "secret", later_state))
unfolding get_installation_token get_installation app_request get_installation_id
    set_installation_id get_token set_token lookup insert text_discrete
token_again_example = token_again server sample_repo 100 start later_state "secret" refl

abbrev missing : List GithubRequest → Result GithubReply
missing requests = ok (record { status = 404; json = no_json })

not_known : get_installation_id (repo_key_of sample_repo) start.installation_token_cache ≡ none
unfolding get_installation_id lookup
not_known = refl

deletes_nothing_example :
    (delete_issue_comment missing 100 sample_repo 31 start
      ≡ (ok tt, asked missing 100 sample_repo start no_json not_known refl))
    × (delete_reaction missing 100 sample_repo (issue_target 7) 5 start
        ≡ (ok tt, asked missing 100 sample_repo start no_json not_known refl))
deletes_nothing_example =
    deletes_nothing missing 100 sample_repo start no_json not_known refl 31 (issue_target 7) 5

abbrev node : ℕ → LinkedRefsGraphqlNode
node number = record {
  is_pull_request = false;
  number = number;
  title = "t";
  state = codes "OPEN";
  merged = none;
  name_with_owner = "nerd-animals/runner";
}

abbrev repository : LinkedRefsGraphqlRepository
repository = record {
  closing_nodes = λ kind. some (node 3 ∷ []);
  alias_node = λ index. some (node (index + 3));
}

map_linked_refs_response-AreMentions_example :
    AreMentions
      (λ text. text)
      (map_linked_refs_response
        (λ text. text)
        (some repository)
        issue
        (3 ∷ 4 ∷ [])
        "nerd-animals/runner").closes
      (3 ∷ 4 ∷ [])
      (map_linked_refs_response
        (λ text. text)
        (some repository)
        issue
        (3 ∷ 4 ∷ [])
        "nerd-animals/runner").body_mentions
map_linked_refs_response-AreMentions_example =
    map_linked_refs_response-AreMentions (λ text. text) repository issue (3 ∷ 4 ∷ [])
      "nerd-animals/runner" ((λ n e. number_of n (node 3) e), ((λ n e. number_of n (node 4) e), tt))
  where
    number_of : (n m : LinkedRefsGraphqlNode) → some m ≡ some n → n.number ≡ m.number
    number_of n m e = cc
