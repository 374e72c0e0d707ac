-- ===== src/RateLimit/Pauses.antt =====
-- What a pause, a clear and the clock do to the set of paused tools.
use oh_my_github_runner.Prelude.{
  ℕ, String, ◌≡◌, refl, false, ◌||◌, ◌&&◌, none, List, [], ◌∷◌, arith, ite, text_discrete, ltb,
  keep, includes,
}
use oh_my_github_runner.Prelude.Assoc.{Assoc, lookup, insert, erase, keys}
use oh_my_github_runner.RateLimit.{
  StateFile, read_state, merge, pause, clear, paused_tools, pause_all,
}

abbrev live : ℕ → Assoc ℕ → List String
live now m = keys (keep (λ e. ltb now e.1) m)

live-insert :
    (now u : ℕ) (tool j : String) (m : Assoc ℕ)
    → includes j (live now (insert tool (merge (lookup tool m) u) m))
      ≡ (ite (text_discrete tool j) (ltb now u) false || includes j (live now m))
unfolding lookup insert includes
live-insert now u tool j [] = ground arith
live-insert now u tool j ((k, v) ∷ m) = ground (arith, live-insert now u tool j m)

live-erase :
    (now : ℕ) (tool j : String) (m : Assoc ℕ)
    → includes j (live now (erase tool m))
      ≡ ite (text_discrete tool j) false (includes j (live now m))
unfolding erase includes
live-erase now tool j [] = ground arith
live-erase now tool j ((k, v) ∷ m) = ground (arith, live-erase now tool j m)

live_missing :
    (now : ℕ) (tool : String) (m : Assoc ℕ)
    → lookup tool m ≡ none
    → includes tool (live now m) ≡ false
unfolding lookup includes
live_missing now tool [] h = refl
live_missing now tool ((k, v) ∷ m) h = ground (arith, live_missing now tool m)

-- At any time, a pause adds its own tool while it lasts, and takes no tool away: a pause that was
-- longer before stays as it was.
pub paused-pause :
    (now paused_until : ℕ) (tool j : String) (file : StateFile)
    → includes j (paused_tools now (pause tool paused_until file)) ≡ (
        ite (text_discrete tool j) (ltb now paused_until) false
        || includes j (paused_tools now file))
unfolding pause paused_tools read_state
paused-pause now paused_until tool j file = live-insert now paused_until tool j (read_state file)

-- At any time, a clear takes its own tool out of the paused tools and no other.
pub paused-clear :
    (now : ℕ) (tool j : String) (file : StateFile)
    → includes j (paused_tools now (clear tool file).1)
      ≡ ite (text_discrete tool j) false (includes j (paused_tools now file))
unfolding clear paused_tools
paused-clear now tool j file =
    ground (arith, live-erase now tool j (read_state file), live_missing now tool (read_state file))

-- Two writers that pause one tool leave the same tools paused in either order.
pub pause_order :
    (now a b : ℕ) (tool j : String) (file : StateFile)
    → includes j (paused_tools now (pause tool a (pause tool b file)))
      ≡ includes j (paused_tools now (pause tool b (pause tool a file)))
pause_order now a b tool j file = ground (
  arith,
  paused-pause now a tool j (pause tool b file),
  paused-pause now b tool j (pause tool a file),
  paused-pause now a tool j file,
  paused-pause now b tool j file,
)

-- After all tools of a result are paused, the paused tools are those of before and, until the
-- pause ends, those of the result.
pub paused-pause_all :
    (now paused_until : ℕ) (tools : List String) (j : String) (file : StateFile)
    → includes j (paused_tools now (pause_all tools paused_until file))
      ≡ (includes j (paused_tools now file) || (includes j tools && ltb now paused_until))
unfolding pause_all includes
paused-pause_all now paused_until [] j file = ground arith
paused-pause_all now paused_until (tool ∷ tools) j file = ground (
  arith,
  paused-pause now paused_until tool j file,
  paused-pause_all now paused_until tools j (pause tool paused_until file),
)
