-- ===== src/GithubClient/LinkedRefs.antt =====
-- The links of an issue or a pull request in src/infra/github/github-app-client.ts, out of the
-- answer of the GraphQL query, and their entries of src/domain/github.ts. `toUpperCase` is an
-- argument, and the aliases of the query are a function of their index.
use oh_my_github_runner.Prelude.{
  ℕ, suc, String, ◌≡◌, refl, sym, ap, ◌∙◌, subst, Bool, false, ◌&&◌, ◌||◌, Option, none, some, List,
  [], ◌∷◌, map, if◌then◌else◌, is, text_discrete, keep, any, ◌==◌, All, Picks, done, kept, skip,
  by_test, codes,
}
use oh_my_github_runner.Task.{SourceKind, issue, pull_request}
use oh_my_github_runner.Commands.{Text, same_text}

pub data LinkedRefState : Type 0 where
  open_ref closed_ref : LinkedRefState

pub record LinkedRefEntry : Type 0 where
  pub kind : SourceKind
  pub number : ℕ
  pub title : String
  pub state : LinkedRefState
  pub merged : Option Bool

pub record LinkedRefs : Type 0 where
  pub closes : List LinkedRefEntry
  pub body_mentions : List LinkedRefEntry

-- `__typename` is one of two.
pub record LinkedRefsGraphqlNode : Type 0 where
  pub is_pull_request : Bool
  pub number : ℕ
  pub title : String
  pub state : Text
  pub merged : Option Bool
  pub name_with_owner : String

-- The nodes that close or are closed, by the kind of the source, absent when the object lacks them.
pub record LinkedRefsGraphqlRepository : Type 0 where
  pub closing_nodes : SourceKind → Option (List LinkedRefsGraphqlNode)
  pub alias_node : (index : ℕ) → Option LinkedRefsGraphqlNode

abbrev pub is_true : Option Bool → Bool
is_true none = false
is_true (some b) = b

abbrev pub or_no_nodes : Option (List LinkedRefsGraphqlNode) → List LinkedRefsGraphqlNode
or_no_nodes none = []
or_no_nodes (some nodes) = nodes

module _ (to_upper : Text → Text) where
  abbrev pub state_is : String → LinkedRefsGraphqlNode → Bool
  state_is name node = same_text (to_upper node.state) (codes name)

  unfoldable pub to_linked_ref_entry : LinkedRefsGraphqlNode → LinkedRefEntry
  to_linked_ref_entry node =
      let merged = node.is_pull_request && is_true node.merged in
      record {
        kind = if node.is_pull_request then pull_request else issue;
        number = node.number;
        title = node.title;
        state =
            if node.is_pull_request
            then (if merged || state_is "MERGED" node || state_is "CLOSED" node
                then closed_ref
                else open_ref)
            else if state_is "OPEN" node
            then open_ref
            else closed_ref;
        merged = if node.is_pull_request then some merged else none;
      }

  abbrev pub is_own : String → LinkedRefsGraphqlNode → Bool
  is_own owner_repo node = is (text_discrete node.name_with_owner owner_repo)

  abbrev pub has_number : List LinkedRefEntry → ℕ → Bool
  has_number entries number = any (λ e. e.number == number) entries

  abbrev pub mention_or :
      String → Option LinkedRefsGraphqlNode → List LinkedRefEntry → List LinkedRefEntry
  mention_or owner_repo none rest = rest
  mention_or owner_repo (some node) rest =
      if is_own owner_repo node then to_linked_ref_entry node ∷ rest else rest

  -- The loop over the mentioned numbers, from an index on.
  unfoldable pub mention_entries :
      (ℕ → Option LinkedRefsGraphqlNode)
      → List LinkedRefEntry
      → String
      → List ℕ
      → ℕ
      → List LinkedRefEntry
  mention_entries alias_node closes owner_repo [] index = []
  mention_entries alias_node closes owner_repo (number ∷ numbers) index =
      let rest = mention_entries alias_node closes owner_repo numbers (suc index) in
      if has_number closes number then rest else mention_or owner_repo (alias_node index) rest

  unfoldable pub map_linked_refs_response :
      Option LinkedRefsGraphqlRepository → SourceKind → List ℕ → String → LinkedRefs
  map_linked_refs_response none source_kind numbers owner_repo = record {
    closes = [];
    body_mentions = [];
  }
  map_linked_refs_response (some repository) source_kind numbers owner_repo =
      let nodes = keep (is_own owner_repo) (or_no_nodes (repository.closing_nodes source_kind)) in
      let closes = map to_linked_ref_entry nodes in
      record {
        closes = closes;
        body_mentions = mention_entries repository.alias_node closes owner_repo numbers 0;
      }

  -- GitHub gives each alias the issue or pull request of the number that the query has for it.
  abbrev pub Answers : (ℕ → Option LinkedRefsGraphqlNode) → List ℕ → ℕ → Type 0
  Answers alias_node [] index = Unit
  Answers alias_node (number ∷ numbers) index =
      ((node : LinkedRefsGraphqlNode) → alias_node index ≡ some node → node.number ≡ number)
      × Answers alias_node numbers (suc index)

  -- The mentions are some of the numbers, in order, without those of the closing entries.
  abbrev pub AreMentions : List LinkedRefEntry → List ℕ → List LinkedRefEntry → Type 0
  AreMentions closes numbers mentions =
      Picks (map (λ (e : LinkedRefEntry). e.number) mentions) numbers
      × All (λ (e : LinkedRefEntry). has_number closes e.number ≡ false) mentions

  skipped :
      (closes : List LinkedRefEntry) (number : ℕ) (numbers : List ℕ) (rest : List LinkedRefEntry)
      → AreMentions closes numbers rest
      → AreMentions closes (number ∷ numbers) rest
  skipped closes number numbers rest (picks, fresh) = (skip picks, fresh)

  to_linked_ref_entry-number :
      (node : LinkedRefsGraphqlNode) → (to_linked_ref_entry node).number ≡ node.number
  unfolding to_linked_ref_entry
  to_linked_ref_entry-number node = refl

  mention_or-AreMentions :
      (closes : List LinkedRefEntry) (owner_repo : String) (number : ℕ) (numbers : List ℕ)
      (node : Option LinkedRefsGraphqlNode) (rest : List LinkedRefEntry)
      → has_number closes number ≡ false
      → ((n : LinkedRefsGraphqlNode) → node ≡ some n → n.number ≡ number)
      → AreMentions closes numbers rest
      → AreMentions closes (number ∷ numbers) (mention_or owner_repo node rest)
  mention_or-AreMentions closes owner_repo number numbers none rest fresh answers h =
      skipped closes number numbers rest h
  mention_or-AreMentions closes owner_repo number numbers (some node) rest fresh answers h =
      by_test (AreMentions closes (number ∷ numbers)) (is_own owner_repo node)
        (λ _.
          let same = to_linked_ref_entry-number node ∙ answers node refl in
          (
            subst (λ n. Picks (n ∷ map (λ (e : LinkedRefEntry). e.number) rest) (number ∷ numbers))
                (sym same) (kept h.0),
            (ap (has_number closes) same ∙ fresh, h.1),
          ))
        (λ _. skipped closes number numbers rest h)

  mention_entries-AreMentions :
      (alias_node : ℕ → Option LinkedRefsGraphqlNode) (closes : List LinkedRefEntry)
      (owner_repo : String) (numbers : List ℕ) (index : ℕ)
      → Answers alias_node numbers index
      → AreMentions closes numbers (mention_entries alias_node closes owner_repo numbers index)
  unfolding mention_entries
  mention_entries-AreMentions alias_node closes owner_repo [] index answers = (done, tt)
  mention_entries-AreMentions alias_node closes owner_repo (number ∷ numbers) index answers =
      let rest =
        mention_entries-AreMentions alias_node closes owner_repo numbers (suc index) answers.1 in
      by_test (AreMentions closes (number ∷ numbers)) (has_number closes number)
        (λ _. skipped closes number numbers _ rest)
        (λ fresh.
          mention_or-AreMentions closes owner_repo number numbers (alias_node index) _ fresh
            answers.0 rest)

  -- When GitHub answers each alias with the number that was asked for, the mentions of a body are
  -- some of the numbers that it mentions, in their order, each at most as often as there, and none
  -- of them is the number of a closing entry.
  pub map_linked_refs_response-AreMentions :
      (repository : LinkedRefsGraphqlRepository) (source_kind : SourceKind) (numbers : List ℕ)
      (owner_repo : String)
      → Answers repository.alias_node numbers 0
      → let refs = map_linked_refs_response (some repository) source_kind numbers owner_repo in
        AreMentions refs.closes numbers refs.body_mentions
  unfolding map_linked_refs_response
  map_linked_refs_response-AreMentions repository source_kind numbers owner_repo answers =
      mention_entries-AreMentions repository.alias_node _ owner_repo numbers 0 answers
