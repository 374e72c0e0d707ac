-- ===== src/GithubFetch.antt =====
-- src/infra/github/github-fetch.ts: one request to GitHub, with its retries and the pauses it asks
-- for. The server is an argument: what the n-th call of `fetch` gives, and the clock after it. A
-- header's number is a natural number. The sink of the pauses is there, and its errors change
-- nothing.
pub mod Retries
mod Tests
use oh_my_github_runner.Prelude.{
  ℕ, zero, suc, ◌+◌, ◌-◌, ◌*◌, ◌^◌, max, String, Bool, true, false, ◌&&◌, ◌||◌, Option, none, some,
  List, [], ◌∷◌, ◌++◌, if◌then◌else◌, ltb, leb, ◌==◌,
}

-- A header as the code reads it: `Number` or `Date.parse` gives a finite value, or neither does.
pub data Header : Type 0 where
  absent other : Header
  numeric date : ℕ → Header

pub record Response : Type 0 where
  pub status : ℕ
  pub remaining : Header
  pub reset : Header
  pub retry_after : Header

pub data Fetched : Type 0 where
  network_error : String → Fetched
  response : Response → Fetched

pub data GithubRateLimitKind : Type 0 where
  primary secondary : GithubRateLimitKind

pub record ResolvedOptions : Type 0 where
  pub proactive_threshold : ℕ
  pub inline_retry_threshold_ms : ℕ
  pub cooldown_ms : ℕ
  pub transient_retry_limit : ℕ
  pub transient_backoff_base_ms : ℕ

abbrev pub default_options : ResolvedOptions
default_options = record {
  proactive_threshold = 500;
  inline_retry_threshold_ms = 60000;
  cooldown_ms = 30 * 60000;
  transient_retry_limit = 2;
  transient_backoff_base_ms = 500;
}

-- A date is no number.
abbrev pub number_header : Header → Option ℕ
number_header absent = none
number_header other = none
number_header (numeric n) = some n
number_header (date ms) = none

abbrev pub is_transient_server_error : Response → Bool
is_transient_server_error r =
    r.status == 500 || r.status == 502 || r.status == 503 || r.status == 504

abbrev pub is_zero : Option ℕ → Bool
is_zero none = false
is_zero (some n) = n == 0

abbrev pub is_present : Header → Bool
is_present absent = false
is_present other = true
is_present (numeric _) = true
is_present (date _) = true

unfoldable pub is_rate_limit_response : Response → Bool
is_rate_limit_response r =
    r.status == 429
    || r.status == 403 && (is_zero (number_header r.remaining) || is_present r.retry_after)

abbrev pub infer_kind : Response → GithubRateLimitKind
infer_kind r = if is_zero (number_header r.remaining) then primary else secondary

abbrev pub until_reset : ℕ → Option ℕ → ℕ
until_reset now none = 0
until_reset now (some reset_epoch_s) = reset_epoch_s * 1000 - now

unfoldable pub parse_retry_after_ms : ℕ → Header → Header → ℕ
parse_retry_after_ms now (numeric seconds) reset = seconds * 1000
parse_retry_after_ms now (date ms) reset = ms - now
parse_retry_after_ms now absent reset = until_reset now (number_header reset)
parse_retry_after_ms now other reset = until_reset now (number_header reset)

unfoldable pub transient_backoff_ms : ResolvedOptions → ℕ → ℕ
transient_backoff_ms cfg transient_attempt = cfg.transient_backoff_base_ms * 3 ^ transient_attempt

-- What a call has done so far: the calls of `fetch`, the sleeps, and the pauses it asked for.
pub record Trace : Type 0 where
  pub calls : ℕ
  pub sleeps : List ℕ
  pub pauses : List ℕ

abbrev pub slept : ℕ → Trace → Trace
slept ms w = record w { sleeps = w.sleeps ++ ms ∷ [] }

abbrev pub paused : ℕ → Trace → Trace
paused until w = record w { pauses = w.pauses ++ until ∷ [] }

abbrev pub proactive_until : ResolvedOptions → ℕ → Option ℕ → ℕ
proactive_until cfg now none = now + cfg.cooldown_ms
proactive_until cfg now (some reset_epoch_s) = max (reset_epoch_s * 1000) (now + cfg.cooldown_ms)

abbrev pub below : ℕ → Option ℕ → Bool
below threshold none = false
below threshold (some remaining) = ltb remaining threshold

unfoldable pub maybe_proactive_pause : ResolvedOptions → ℕ → Response → Trace → Trace
maybe_proactive_pause cfg now r w =
    if below cfg.proactive_threshold (number_header r.remaining)
    then paused (proactive_until cfg now (number_header r.reset)) w
    else w

pub data Answer : Type 0 where
  responded : Response → Answer
  rate_limited : GithubRateLimitKind → ℕ → ℕ → Answer
  failed_with : String → Answer
  out_of_fuel : Answer

-- After one call of `fetch`: the request ends, or `doRequest` calls itself with new counts.
pub data Next : Type 0 where
  ends : Answer → Trace → Next
  again : ℕ → ℕ → Trace → Next

module _ (cfg : ResolvedOptions) where
  unfoldable pub limited : ℕ → ℕ → ℕ → Response → Trace → Next
  limited now attempt transient r w =
      let retry_after_ms = parse_retry_after_ms now r.retry_after r.reset in
      let until = now + max retry_after_ms cfg.cooldown_ms in
      if leb retry_after_ms cfg.inline_retry_threshold_ms && attempt == 0
      then again (attempt + 1) transient (slept retry_after_ms w)
      else ends (rate_limited (infer_kind r) retry_after_ms until) (paused until w)

  unfoldable pub after_fetch : ℕ → ℕ → ℕ → Fetched → Trace → Next
  after_fetch now attempt transient (network_error e) w =
      if ltb transient cfg.transient_retry_limit
      then again attempt (transient + 1) (slept (transient_backoff_ms cfg transient) w)
      else ends (failed_with e) w
  after_fetch now attempt transient (response r) w =
      if is_transient_server_error r && ltb transient cfg.transient_retry_limit
      then again attempt (transient + 1) (slept (transient_backoff_ms cfg transient) w)
      else if is_rate_limit_response r
      then limited now attempt transient r (maybe_proactive_pause cfg now r w)
      else ends (responded r) (maybe_proactive_pause cfg now r w)

  abbrev pub proceed : (ℕ → ℕ → Trace → Answer × Trace) → Next → Answer × Trace
  proceed rest (ends answer w) = (answer, w)
  proceed rest (again attempt transient w) = rest attempt transient w

  module _ (fetch : ℕ → Fetched) (clock : ℕ → ℕ) where
    unfoldable pub do_request : ℕ → ℕ → ℕ → Trace → Answer × Trace
    do_request zero attempt transient w = (out_of_fuel, w)
    do_request (suc fuel) attempt transient w = proceed (do_request fuel) (
        after_fetch (clock w.calls) attempt transient (fetch w.calls)
          (record w { calls = w.calls + 1 }))

    unfoldable pub request : Answer × Trace
    request =
        do_request (cfg.transient_retry_limit + 2) 0 0
          (record { calls = 0; sleeps = []; pauses = [] })
