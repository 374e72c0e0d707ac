-- ===== src/GithubClient/Tokens.antt =====
-- `getInstallationToken`: when a token is asked for again.
use oh_my_github_runner.Prelude.{
  ℕ, ◌+◌, ◌<◌, String, ◌≡◌, refl, ap, ◌∙◌, subst, Option, none, some, List, arith, by_test, leb,
  ◌⊎◌, inl, inr, text_discrete, if_pos, get_or,
}
use oh_my_github_runner.Prelude.Assoc.{Assoc, lookup, insert, lookup-insert, erase}
use oh_my_github_runner.Prelude.Action.{Result, ok, err, after}
use oh_my_github_runner.Task.{RepoRef}
use oh_my_github_runner.TokenCache.{
  CachedToken, InstallationTokenCache, get_installation_id, set_installation_id, get_token,
  set_token, usable,
}
use oh_my_github_runner.GithubClient.{
  GithubRequest, GithubReply, ClientState, ReplyJson, Endpoint, no_json, installation_json,
  token_json, id_json, user_json, app_json, pull_json, labels_json, repository_json, issue_json,
  app_request, checked, send, get_installation, installation_or_ask, installation_found, token_for,
  token_or_ask, token_found, get_installation_token, repo_key_of, with_cache, access_tokens_of,
  installation_of, app_call, is_ok,
}

-- The cache has a token for the repository that lasts up to `expires_at`.
pub record IsKnown (repo : RepoRef) (token : String) (expires_at : ℕ) (s : ClientState)
    : Type 0 where
  pub installation_id : String
  pub is_installed :
      get_installation_id (repo_key_of repo) s.installation_token_cache ≡ some installation_id
  pub is_cached :
      lookup installation_id s.installation_token_cache.tokens
      ≡ some (record { token = token; expires_at = expires_at })

lookup_same {ℓ} :
    {V : Type ℓ} (k : String) (v : V) (m : List (String × V)) → lookup k (insert k v m) ≡ some v
lookup_same k v m = lookup-insert k k v m ∙ if_pos (text_discrete k k) refl _ _

module _ (server : List GithubRequest → Result GithubReply) (repo : RepoRef) where
  get_token_known :
      (id : String) (now : ℕ) (c : InstallationTokenCache) (entry : CachedToken)
      → lookup id c.tokens ≡ some entry
      → now + c.buffer_ms < entry.expires_at
      → get_token id now c ≡ (some entry.token, c)
  unfolding get_token
  get_token_known id now c entry e long =
      ap (usable id now c) e
      ∙ by_test (λ r. r ≡ (some entry.token, c)) (leb entry.expires_at (now + c.buffer_ms))
          (λ short. absurd (ground (arith, short, long))) (λ _. refl)

  known_again :
      (later : ℕ) (token : String) (expires_at : ℕ) (s : ClientState)
      → IsKnown repo token expires_at s
      → later + s.installation_token_cache.buffer_ms < expires_at
      → get_installation_token server later repo s ≡ (ok token, s)
  unfolding get_installation_token get_installation
  known_again later token expires_at s k long =
      ap (λ o. after (installation_or_ask server later repo o s) (token_for server later))
        k.is_installed
      ∙ ap (λ r. token_or_ask server later k.installation_id r s)
          (get_token_known k.installation_id later s.installation_token_cache
            (record { token = token; expires_at = expires_at }) k.is_cached long)

  module _ (now : ℕ) where
    abbrev SameCache : {A : Type 0} → ClientState → Result A × ClientState → Type 0
    SameCache s r = r.1.installation_token_cache ≡ s.installation_token_cache

    checked-cache :
        (method : String) (s : ClientState) (r : Result GithubReply × ClientState)
        → SameCache s r
        → SameCache s (after r (checked server now method))
    checked-cache method s (ok reply, s') e =
        by_test (SameCache s) (is_ok reply.status) (λ _. e) (λ _. e)
    checked-cache method s (err x, s') e = e

    app_request-cache :
        (method : String) (endpoint : Endpoint) (s : ClientState)
        → SameCache s (app_request server now method endpoint s)
    unfolding app_request
    app_request-cache method endpoint s =
        checked-cache method s (send server now (app_call method endpoint) s) refl

    -- The tokens are those of before.
    abbrev SameTokens : {A : Type 0} → ClientState → Result A × ClientState → Type 0
    SameTokens s r = r.1.installation_token_cache.tokens ≡ s.installation_token_cache.tokens

    found-SameTokens :
        (json : ReplyJson) (s : ClientState)
        → SameTokens s (installation_found server now repo json s)
    unfolding set_installation_id
    found-SameTokens (installation_json id) s = refl
    found-SameTokens no_json s = refl
    found-SameTokens (token_json token e) s = refl
    found-SameTokens (id_json id) s = refl
    found-SameTokens (user_json id login) s = refl
    found-SameTokens (app_json slug) s = refl
    found-SameTokens (pull_json pull) s = refl
    found-SameTokens (labels_json labels) s = refl
    found-SameTokens (repository_json branch) s = refl
    found-SameTokens (issue_json number url) s = refl

    after_found-SameTokens :
        (s : ClientState) (r : Result ReplyJson × ClientState)
        → SameCache s r
        → SameTokens s (after r (installation_found server now repo))
    after_found-SameTokens s (ok json, s') e = found-SameTokens json s' ∙ ap (λ c. c.tokens) e
    after_found-SameTokens s (err x, s') e = ap (λ c. c.tokens) e

    or_ask-SameTokens :
        (known : Option String) (s : ClientState)
        → SameTokens s (installation_or_ask server now repo known s)
    or_ask-SameTokens (some id) s = refl
    or_ask-SameTokens none s =
        after_found-SameTokens s _ (app_request-cache "GET" (installation_of repo) s)

    -- The last reply of the server had this JSON.
    abbrev Replied : Result ReplyJson × ClientState → Type 0
    Replied (ok json, s) =
        (reply : GithubReply) × (server s.requests ≡ ok reply) × (reply.json ≡ json)
    Replied (err e, s) = Unit

    checked-Replied :
        (method : String) (r : Result GithubReply) (s : ClientState)
        → server s.requests ≡ r
        → Replied (after (r, s) (checked server now method))
    checked-Replied method (ok reply) s e =
        by_test Replied (is_ok reply.status) (λ _. (reply, e, refl)) (λ _. tt)
    checked-Replied method (err x) s e = tt

    app_request-Replied :
        (method : String) (endpoint : Endpoint) (s : ClientState)
        → Replied (app_request server now method endpoint s)
    unfolding app_request
    app_request-Replied method endpoint s = checked-Replied method _ _ refl

    -- Where a token and its expiry are from: the tokens of before, or the last reply of the server.
    abbrev pub Origin : Assoc CachedToken → String → ℕ → ClientState → Type 0
    Origin tokens token expires_at s =
        ((id : String) × (lookup id tokens
            ≡ some (record { token = token; expires_at = expires_at })))
        ⊎ ((reply : GithubReply) × (stated : Option ℕ) × (server s.requests ≡ ok reply)
            × (reply.json ≡ token_json token stated)
            × (expires_at ≡ get_or stated (now + 60000)))

    -- A result with an id leaves a cache that knows it.
    abbrev Installed : Result String × ClientState → Type 0
    Installed (ok id, s) =
        get_installation_id (repo_key_of repo) s.installation_token_cache ≡ some id
    Installed (err e, s) = Unit

    found-Installed :
        (json : ReplyJson) (s : ClientState) → Installed (installation_found server now repo json s)
    unfolding get_installation_id set_installation_id
    found-Installed (installation_json id) s =
        lookup_same (repo_key_of repo) id s.installation_token_cache.installation_ids
    found-Installed no_json s = tt
    found-Installed (token_json token e) s = tt
    found-Installed (id_json id) s = tt
    found-Installed (user_json id login) s = tt
    found-Installed (app_json slug) s = tt
    found-Installed (pull_json pull) s = tt
    found-Installed (labels_json labels) s = tt
    found-Installed (repository_json branch) s = tt
    found-Installed (issue_json number url) s = tt

    asked-Installed :
        (r : Result ReplyJson × ClientState)
        → Installed (after r (installation_found server now repo))
    asked-Installed (ok json, s) = found-Installed json s
    asked-Installed (err e, s) = tt

    or_ask-Installed :
        (known : Option String) (s : ClientState)
        → get_installation_id (repo_key_of repo) s.installation_token_cache ≡ known
        → Installed (installation_or_ask server now repo known s)
    or_ask-Installed (some id) s e = e
    or_ask-Installed none s e =
        asked-Installed (app_request server now "GET" (installation_of repo) s)

    -- A result with a token leaves a cache that knows it.
    abbrev Known : Assoc CachedToken → Result String × ClientState → Type 0
    Known tokens (ok token, s) =
        (expires_at : ℕ) × Origin tokens token expires_at s × IsKnown repo token expires_at s
    Known tokens (err e, s) = Unit

    module _ (id : String) where
      abbrev HasInstallation : ClientState → Type 0
      HasInstallation s =
          get_installation_id (repo_key_of repo) s.installation_token_cache ≡ some id

      found-Known :
          (tokens : Assoc CachedToken) (json : ReplyJson) (s : ClientState)
          → HasInstallation s
          → Replied (ok json, s)
          → Known tokens (token_found server now id json s)
      unfolding get_installation_id set_token
      found-Known tokens (token_json token e) s h (reply, says, is_json) = (
        get_or e (now + 60000),
        inr (reply, e, says, is_json, refl),
        record {
          installation_id = id;
          is_installed = h;
          is_cached = lookup_same id _ s.installation_token_cache.tokens;
        },
      )
      found-Known tokens no_json s h a = tt
      found-Known tokens (installation_json i) s h a = tt
      found-Known tokens (id_json i) s h a = tt
      found-Known tokens (user_json i login) s h a = tt
      found-Known tokens (app_json slug) s h a = tt
      found-Known tokens (pull_json pull) s h a = tt
      found-Known tokens (labels_json labels) s h a = tt
      found-Known tokens (repository_json branch) s h a = tt
      found-Known tokens (issue_json number url) s h a = tt

      asked-Known :
          (tokens : Assoc CachedToken) (s : ClientState) (r : Result ReplyJson × ClientState)
          → HasInstallation s
          → SameCache s r
          → Replied r
          → Known tokens (after r (token_found server now id))
      asked-Known tokens s (ok json, s') h e a =
          found-Known tokens json s' (ap (get_installation_id (repo_key_of repo)) e ∙ h) a
      asked-Known tokens s (err x, s') h e a = tt

      without : ClientState → ClientState
      without s =
          with_cache
            (record s.installation_token_cache {
              tokens = erase id s.installation_token_cache.tokens;
            })
            s

      usable-Known :
          (s : ClientState) (cached : Option CachedToken)
          → HasInstallation s
          → lookup id s.installation_token_cache.tokens ≡ cached
          → Known s.installation_token_cache.tokens
              (token_or_ask server now id (usable id now s.installation_token_cache cached) s)
      unfolding get_installation_id without
      usable-Known s none h e =
          asked-Known s.installation_token_cache.tokens s _ h
            (app_request-cache "POST" (access_tokens_of id) s) (app_request-Replied _ _ _)
      usable-Known s (some entry) h e =
          by_test
            (λ (r : Option String × InstallationTokenCache).
              Known s.installation_token_cache.tokens (token_or_ask server now id r s))
            (leb entry.expires_at (now + s.installation_token_cache.buffer_ms))
            (λ _.
              asked-Known s.installation_token_cache.tokens (without s) _ h
                (app_request-cache "POST" (access_tokens_of id) (without s))
                (app_request-Replied _ _ _))
            (λ _. (
              entry.expires_at,
              inl (id, e),
              record { installation_id = id; is_installed = h; is_cached = e },
            ))

    for_id-Known :
        (r : Result String × ClientState)
        → Installed r
        → Known r.1.installation_token_cache.tokens (after r (token_for server now))
    unfolding get_token
    for_id-Known (ok id, s) h =
        usable-Known id s (lookup id s.installation_token_cache.tokens) h refl
    for_id-Known (err e, s) h = tt

    token-Known :
        (s : ClientState)
        → Known s.installation_token_cache.tokens (get_installation_token server now repo s)
    unfolding get_installation_token get_installation
    token-Known s =
        subst (λ t. Known t (get_installation_token server now repo s)) (or_ask-SameTokens _ s)
          (for_id-Known _ (or_ask-Installed _ s refl))

    -- A token that was given out was in the cache, or is from the last reply of the server. Up to its
    -- time of expiry, which is that of its entry or the one that the reply states (a minute from now
    -- if it states none), it is given out again for its repository without any request, as long as
    -- more than the buffer is left.
    pub token_again :
        (s s' : ClientState) (token : String)
        → get_installation_token server now repo s ≡ (ok token, s')
        → (expires_at : ℕ) × Origin s.installation_token_cache.tokens token expires_at s'
          × ((later : ℕ)
              → later + s'.installation_token_cache.buffer_ms < expires_at
              → get_installation_token server later repo s' ≡ (ok token, s'))
    token_again s s' token e =
        let (expires_at, origin, known) =
          subst (Known s.installation_token_cache.tokens) e (token-Known s) in
        (expires_at, origin, λ later long. known_again later token expires_at s' known long)
