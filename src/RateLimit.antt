-- ===== src/RateLimit.antt =====
-- src/infra/queue/rate-limit-state-store.ts: the pauses of rate-limited tools, kept in state.json.
-- The store's lock makes each call below one step; the file is written in one rename.
pub mod Pauses
mod Tests
use oh_my_github_runner.Prelude.{
  ℕ, String, Option, none, some, List, [], ◌∷◌, ltb, keep, if◌then◌else◌, includes,
}
use oh_my_github_runner.Prelude.Assoc.{Assoc, lookup, insert, erase, keys}

-- What `readFile` and `JSON.parse` find at the path.
pub data StateFile : Type 0 where
  missing corrupt : StateFile
  saved : Assoc ℕ → StateFile

pub read_state : StateFile → Assoc ℕ
read_state missing = []
read_state corrupt = []
read_state (saved pauses) = pauses

unfoldable pub load_active_pauses : ℕ → StateFile → Assoc ℕ
unfolding read_state
load_active_pauses now file = keep (λ e. ltb now e.1) (read_state file)

-- The longer pause wins.
abbrev pub merge : Option ℕ → ℕ → ℕ
merge none paused_until = paused_until
merge (some existing) paused_until = if ltb paused_until existing then existing else paused_until

unfoldable pub pause : String → ℕ → StateFile → StateFile
unfolding read_state
pause tool paused_until file =
    let pauses = read_state file in
    saved (insert tool (merge (lookup tool pauses) paused_until) pauses)

-- The entry that was cleared, and the file afterwards.
unfoldable pub clear : String → StateFile → Option ℕ × StateFile
unfolding read_state
clear tool file =
    let pauses = read_state file in
    elim (lookup tool pauses) [
      | none ↦ (none, file)
      | some previous ↦ (some previous, saved (erase tool pauses))
    ]

-- `loadPausedTools` of the daemon: the names of the active pauses.
unfoldable pub paused_tools : ℕ → StateFile → List String
unfolding load_active_pauses
paused_tools now file = keys (load_active_pauses now file)

-- The tools of one rate-limit result, paused one by one up to the same time.
pub pause_all : List String → ℕ → StateFile → StateFile
pause_all [] paused_until file = file
pause_all (tool ∷ tools) paused_until file =
    pause_all tools paused_until (pause tool paused_until file)
