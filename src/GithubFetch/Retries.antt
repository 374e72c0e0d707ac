-- ===== src/GithubFetch/Retries.antt =====
-- How a request ends, and after how many calls.
use oh_my_github_runner.Prelude.{
  by_test, ◌&&◌, ◌==◌, ℕ, zero, suc, ◌+◌, ◌-◌, ◌≤◌, ◌<◌, ◌≡◌, refl, false, List, [], ◌∷◌, arith,
  ltb, leb, Member, here, there, subst, ◌++◌,
}
use oh_my_github_runner.GithubFetch.{
  ResolvedOptions, Response, Fetched, network_error, response, Trace, Answer, responded,
  rate_limited, failed_with, out_of_fuel, Next, ends, again, limited, after_fetch, do_request,
  request, proceed, is_transient_server_error, is_rate_limit_response, maybe_proactive_pause,
  parse_retry_after_ms,
}

-- What an end of a request promises.
abbrev pub Settles : Answer → Trace → Type 0
Settles (responded r) w = is_rate_limit_response r ≡ false
Settles (rate_limited kind retry_after_ms until) w = Member until w.pauses
Settles (failed_with e) w = Unit
Settles out_of_fuel w = zero ≡ suc zero

module _ (cfg : ResolvedOptions) where
  abbrev budget : ℕ → ℕ → ℕ
  budget attempt transient = (1 - attempt) + (cfg.transient_retry_limit - transient)

  Member-snoc : {x : ℕ} (xs : List ℕ) → Member x (xs ++ x ∷ [])
  Member-snoc [] = here
  Member-snoc (y ∷ ys) = there (Member-snoc ys)

  -- One call either ends well, or leaves less of the budget.
  Progress : ℕ → ℕ → ℕ → Next → Type 0
  Progress attempt transient calls (ends answer w) = Settles answer w × (w.calls ≡ calls)
  Progress attempt transient calls (again a t w) =
      (budget a t + 1 ≤ budget attempt transient) × (w.calls ≡ calls)

  pause-calls :
      (now : ℕ) (r : Response) (w : Trace) → (maybe_proactive_pause cfg now r w).calls ≡ w.calls
  unfolding maybe_proactive_pause
  pause-calls now r w = ground arith

  limited-Progress :
      (now attempt transient : ℕ) (r : Response) (w : Trace)
      → Progress attempt transient w.calls (limited cfg now attempt transient r w)
  unfolding limited Progress
  limited-Progress now attempt transient r w =
      by_test (Progress attempt transient w.calls)
        (leb (parse_retry_after_ms now r.retry_after r.reset) cfg.inline_retry_threshold_ms
          && attempt == 0)
        (λ e. (ground arith, refl)) (λ e. (Member-snoc w.pauses, refl))

  after_fetch-Progress :
      (now attempt transient : ℕ) (f : Fetched) (w : Trace)
      → Progress attempt transient w.calls (after_fetch cfg now attempt transient f w)
  unfolding after_fetch Progress
  after_fetch-Progress now attempt transient (network_error e) w =
      by_test (Progress attempt transient w.calls) (ltb transient cfg.transient_retry_limit)
        (λ e. (ground arith, refl)) (λ e. (tt, refl))
  after_fetch-Progress now attempt transient (response r) w =
      let w' = maybe_proactive_pause cfg now r w in
      by_test (Progress attempt transient w.calls)
        (is_transient_server_error r && ltb transient cfg.transient_retry_limit)
        (λ e. (ground arith, refl))
        (λ e.
          by_test (Progress attempt transient w.calls) (is_rate_limit_response r)
            (λ h.
              subst (λ n. Progress attempt transient n (limited cfg now attempt transient r w'))
                (pause-calls now r w) (limited-Progress now attempt transient r w'))
            (λ h. (h, pause-calls now r w)))

  Ended : ℕ → Answer × Trace → Type 0
  Ended calls (answer, w) = Settles answer w × (w.calls ≤ calls)

  proceed-Ended :
      (fuel attempt transient calls : ℕ) (rest : ℕ → ℕ → Trace → Answer × Trace) (n : Next)
      → budget attempt transient < suc fuel
      → ((a t : ℕ) (w : Trace) → budget a t < fuel → Ended (w.calls + 1 + budget a t) (rest a t w))
      → Progress attempt transient calls n
      → Ended (calls + budget attempt transient) (proceed cfg rest n)
  unfolding Progress Ended
  proceed-Ended fuel attempt transient calls rest (ends answer w) enough ih (settles, e) =
      (settles, omega arith)
  proceed-Ended fuel attempt transient calls rest (again a t w) enough ih (less, e) =
      let (settles, bound) = ih a t w (omega arith) in (settles, omega arith)

  module _ (fetch : ℕ → Fetched) (clock : ℕ → ℕ) where
    -- With more fuel than budget, the request ends, after at most one call more than the budget.
    do_request-Ended :
        (fuel attempt transient : ℕ) (w : Trace)
        → budget attempt transient < fuel
        → Ended
            (w.calls + 1 + budget attempt transient)
            (do_request cfg fetch clock fuel attempt transient w)
    unfolding do_request
    do_request-Ended zero attempt transient w h = absurd (omega arith)
    do_request-Ended (suc fuel) attempt transient w h =
        proceed-Ended fuel attempt transient (w.calls + 1) (do_request cfg fetch clock fuel) _ h
          (do_request-Ended fuel)
          (after_fetch-Progress (clock w.calls) attempt transient (fetch w.calls)
            (record w { calls = w.calls + 1 }))

    -- A request ends whatever the server answers, after at most two calls more than the limit of
    -- transient retries. A response that it returns does not report a rate limit, and an end by a
    -- rate limit has asked for a pause up to the time that the error names.
    pub request_ends :
        Settles (request cfg fetch clock).0 (request cfg fetch clock).1
        × ((request cfg fetch clock).1.calls ≤ cfg.transient_retry_limit + 2)
    unfolding request Ended
    request_ends =
        let (settles, bound) =
          do_request-Ended (cfg.transient_retry_limit + 2) 0 0 _ (omega arith) in
        (settles, omega arith)
