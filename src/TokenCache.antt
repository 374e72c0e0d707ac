-- ===== src/TokenCache.antt =====
-- src/infra/github/installation-token-cache.ts: the installation of each repository and the token of
-- each installation.
pub mod Expiry
mod Tests
use oh_my_github_runner.Prelude.{ℕ, ◌+◌, String, Option, none, some, List, [], if◌then◌else◌, leb}
use oh_my_github_runner.Prelude.Assoc.{Assoc, lookup, insert, erase}

pub record CachedToken : Type 0 where
  pub token : String
  pub expires_at : ℕ

pub record InstallationTokenCache : Type 0 where
  pub tokens : Assoc CachedToken
  pub installation_ids : Assoc String
  pub buffer_ms : ℕ

unfoldable pub get_installation_id : String → InstallationTokenCache → Option String
get_installation_id repo_key c = lookup repo_key c.installation_ids

unfoldable pub set_installation_id :
    String → String → InstallationTokenCache → InstallationTokenCache
set_installation_id repo_key installation_id c = record c {
  installation_ids = insert repo_key installation_id c.installation_ids;
}

abbrev pub usable :
    String
    → ℕ
    → InstallationTokenCache
    → Option CachedToken
    → Option String × InstallationTokenCache
usable installation_id now c none = (none, c)
usable installation_id now c (some entry) =
    if leb entry.expires_at (now + c.buffer_ms)
    then (none, record c { tokens = erase installation_id c.tokens })
    else (some entry.token, c)

unfoldable pub get_token :
    String → ℕ → InstallationTokenCache → Option String × InstallationTokenCache
get_token installation_id now c = usable installation_id now c (lookup installation_id c.tokens)

unfoldable pub set_token : String → String → ℕ → InstallationTokenCache → InstallationTokenCache
set_token installation_id token expires_at c = record c {
  tokens = insert installation_id (record { token = token; expires_at = expires_at }) c.tokens;
}
