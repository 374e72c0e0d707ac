-- ===== src/Commands/Tests.antt =====
-- Runs of the command parser.
use oh_my_github_runner.Prelude.{[], ◌∷◌}
use oh_my_github_runner.Commands.{Text, trigger_keyword}

-- "fix"
abbrev fix_it : Text
fix_it = 102 ∷ 105 ∷ 120 ∷ []

-- A quoted command above a reply.
abbrev quoted_command : Text
quoted_command = 62 ∷ 32 ∷ 47 ∷ trigger_keyword
