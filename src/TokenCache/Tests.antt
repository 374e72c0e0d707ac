-- ===== src/TokenCache/Tests.antt =====
-- Runs of the token cache.
use oh_my_github_runner.Prelude.{◌≡◌, refl, none, some, [], text_discrete}
use oh_my_github_runner.Prelude.Assoc.{lookup, insert}
use oh_my_github_runner.TokenCache.{InstallationTokenCache, get_token, set_token}

abbrev empty_cache : InstallationTokenCache
empty_cache = record { tokens = []; installation_ids = []; buffer_ms = 60000 }

fresh_token : (get_token "i" 100 (set_token "i" "t" 60101 empty_cache)).0 ≡ some "t"
unfolding get_token set_token lookup insert text_discrete
fresh_token = refl

old_token : (get_token "i" 100 (set_token "i" "t" 60100 empty_cache)).0 ≡ none
unfolding get_token set_token lookup insert text_discrete
old_token = refl
