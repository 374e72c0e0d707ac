-- ===== src/TokenCache/Expiry.antt =====
-- How long a token is handed out.
use oh_my_github_runner.Prelude.{
  ℕ, ◌+◌, ◌≤◌, String, ◌≡◌, refl, none, some, arith, ite, text_discrete, if◌then◌else◌, ltb,
  Option-cases, inl, inr,
}
use oh_my_github_runner.Prelude.Assoc.{lookup, lookup-insert, lookup-erase}
use oh_my_github_runner.TokenCache.{InstallationTokenCache, get_token, set_token}

-- After a token was set, at any time, its own installation gets it exactly while it lasts longer
-- than the buffer, and another installation gets what it got before.
pub get-set_token :
    (id j token : String) (expires_at now : ℕ) (c : InstallationTokenCache)
    → (get_token j now (set_token id token expires_at c)).0
      ≡ ite
          (text_discrete id j)
          (if ltb (now + c.buffer_ms) expires_at then some token else none)
          (get_token j now c).0
unfolding get_token set_token
get-set_token id j token expires_at now c =
    ground (arith, lookup-insert id j (record { token = token; expires_at = expires_at }) c.tokens)

-- A read of a token changes nothing that a read at the same time or later gives.
pub get-get_token :
    (id j : String) (now later : ℕ) (c : InstallationTokenCache)
    → now ≤ later
    → (get_token j later (get_token id now c).1).0 ≡ (get_token j later c).0
unfolding get_token
get-get_token id j now later c h = elim (Option-cases (lookup id c.tokens)) [
  | inl e ↦ rw e refl
  | inr (t, e) ↦ ground (arith, e, lookup-erase id j c.tokens)
]
