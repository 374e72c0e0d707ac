-- ===== src/Checkpoint/Tests.antt =====
-- Runs of the checkpoint store. Here a step's file has the name of the step.
use oh_my_github_runner.Prelude.{◌≡◌, refl, some, [], text_discrete, ℕ_discrete, codes}
use oh_my_github_runner.Prelude.Assoc.{lookup, insert}
use oh_my_github_runner.Checkpoint.{CheckpointEntry, Checkpoints, read, read_file, write}

abbrev entry : CheckpointEntry
entry = record {
  step_key = "architect";
  fingerprint = "f1";
  tool = "codex";
  succeeded_at = "2026-05-01T00:00:00Z";
  stdout = codes "a plan";
}

abbrev fresh : Checkpoints
fresh = record { dirs = []; corrupt = [] }

saved_entry :
    (read (λ key. key) "t1" "architect" (write (λ key. key) "t1" entry fresh)).0 ≡ some entry
unfolding read read_file write lookup insert text_discrete ℕ_discrete
saved_entry = refl
