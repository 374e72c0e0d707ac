-- ===== src/GithubFetch/Tests.antt =====
-- A request to a server that always reports a rate limit.
use oh_my_github_runner.Prelude.{ℕ, ◌+◌, ◌*◌, ◌≤◌}
use oh_my_github_runner.GithubFetch.{Fetched, response, absent, numeric, default_options, request}
use oh_my_github_runner.GithubFetch.Retries.{Settles, request_ends}

abbrev limited_server : ℕ → Fetched
limited_server n =
    response
      (record { status = 429; remaining = numeric 0; reset = absent; retry_after = numeric 1 })

abbrev clock : ℕ → ℕ
clock n = 1000 * n

request_ends_example :
    Settles
      (request default_options limited_server clock).0
      (request default_options limited_server clock).1
    × ((request default_options limited_server clock).1.calls ≤ 2 + 2)
request_ends_example = request_ends default_options limited_server clock
