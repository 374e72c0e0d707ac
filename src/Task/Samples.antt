-- ===== src/Task/Samples.antt =====
-- Tasks and inputs for the tests of several modules.
use oh_my_github_runner.Prelude.{ℕ, String, none, some}
use oh_my_github_runner.Task.{
  TaskStatus, TaskRecord, RepoRef, SourceRef, QueueTaskInput, issue, normal,
}

abbrev pub sample_repo : RepoRef
sample_repo = record { owner = "nerd-animals"; name = "runner" }

abbrev pub sample_source : SourceRef
sample_source = record { kind = issue; number = 7 }

abbrev pub sample_task : String → String → TaskStatus → ℕ → TaskRecord
sample_task task_id instruction_id status created_at = record {
  task_id = task_id;
  repo = sample_repo;
  source = sample_source;
  instruction_id = instruction_id;
  additional_instructions = none;
  status = status;
  priority = normal;
  requested_by = "ann";
  created_at = created_at;
  started_at = none;
  finished_at = none;
  error_summary = none;
  superseded_by = none;
  notifications = none;
}

abbrev pub sample_input : String → QueueTaskInput
sample_input instruction_id = record {
  task_id = none;
  repo = sample_repo;
  source = sample_source;
  instruction_id = instruction_id;
  additional_instructions = some "";
  requested_by = "ann";
  priority = none;
  notifications = none;
}
