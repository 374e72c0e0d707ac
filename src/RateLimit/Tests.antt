-- ===== src/RateLimit/Tests.antt =====
-- Runs of the pause store.
use oh_my_github_runner.Prelude.{◌≡◌, refl, false, ◌||◌, [], ◌∷◌, ite, text_discrete, includes, ltb}
use oh_my_github_runner.Prelude.Assoc.{lookup, insert}
use oh_my_github_runner.RateLimit.{StateFile, saved, pause, paused_tools}
use oh_my_github_runner.RateLimit.Pauses.{paused-pause}

abbrev precise : StateFile
precise = saved (("github", 90) ∷ [])

-- The coarser pause of the daemon does not shorten the precise one.
keeps_longer : pause "github" 60 precise ≡ precise
unfolding pause lookup insert text_discrete
keeps_longer = refl

paused-pause_example : includes "github" (paused_tools 70 (pause "github" 60 precise)) ≡ (
    ite (text_discrete "github" "github") (ltb 70 60) false
    || includes "github" (paused_tools 70 precise))
paused-pause_example = paused-pause 70 60 "github" "github" precise
