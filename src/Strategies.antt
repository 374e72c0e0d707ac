-- ===== src/Strategies.antt =====
-- src/strategies/index.ts and the `policies` of the strategies: which instruction ids have a
-- strategy, and what the queue and the scheduler read of it.
use oh_my_github_runner.Prelude.{
  ℕ, ◌*◌, String, Bool, true, false, Option, none, some, List, [], ◌∷◌,
}
use oh_my_github_runner.Prelude.Assoc.{Assoc, lookup}
use oh_my_github_runner.Task.{TaskRecord}

-- `uses` lists the keys of the object.
pub record StrategyPolicies : Type 0 where
  pub uses : List String
  pub supersede_on_same_source : Bool
  pub timeout_ms : ℕ

abbrev pub issue_response : StrategyPolicies
issue_response = record {
  uses = "codex" ∷ [];
  supersede_on_same_source = true;
  timeout_ms = 1800 * 1000;
}

abbrev pub pr_review_comment : StrategyPolicies
pr_review_comment = record {
  uses = "claude" ∷ [];
  supersede_on_same_source = true;
  timeout_ms = 1800 * 1000;
}

abbrev pub issue_implement : StrategyPolicies
issue_implement = record {
  uses = "claude" ∷ [];
  supersede_on_same_source = true;
  timeout_ms = 3600 * 1000;
}

abbrev pub pr_implement : StrategyPolicies
pr_implement = record {
  uses = "claude" ∷ [];
  supersede_on_same_source = true;
  timeout_ms = 3600 * 1000;
}

abbrev pub strategies : Assoc StrategyPolicies
strategies =
    ("issue-initial-review", issue_response)
    ∷ ("issue-comment-reply", issue_response)
    ∷ ("pr-review-comment", pr_review_comment)
    ∷ ("issue-implement", issue_implement)
    ∷ ("pr-implement", pr_implement)
    ∷ []

-- `getStrategy`, and `hasStrategy` as its test for `none`.
unfoldable pub get_strategy : String → Option StrategyPolicies
get_strategy instruction_id = lookup instruction_id strategies

abbrev pub supersedes : Option StrategyPolicies → Bool
supersedes none = false
supersedes (some p) = p.supersede_on_same_source

abbrev pub declared : Option StrategyPolicies → List String
declared none = []
declared (some p) = p.uses

-- `toolsForTask` as the composition root wires it; there a missing strategy throws.
unfoldable pub tools_for_task : TaskRecord → List String
tools_for_task t = declared (get_strategy t.instruction_id)
