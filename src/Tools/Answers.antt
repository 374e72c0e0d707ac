-- ===== src/Tools/Answers.antt =====
-- How a structured answer of Codex comes back.
use oh_my_github_runner.Prelude.{
  ◌≡◌, refl, ap, ◌∙◌, true, ◌||◌, Bool, if◌then◌else◌, Option, none, some, List, [], ◌∷◌, ◌++◌,
  arith, ◌==◌, by_test, codes,
}
use oh_my_github_runner.Prelude.Action.{Result, ok}
use oh_my_github_runner.Commands.{Text, is_empty, trim, newline, same_text}
use oh_my_github_runner.Signature.Digest.{same_text_refl}
use oh_my_github_runner.Tools.{
  ToolRunInput, tool_succeeded, RunProcessInput, RunProcessResult, OutputSchema,
}
use oh_my_github_runner.Tools.Limits.{has_ink, is_empty-trim}
use oh_my_github_runner.Tools.Codex.{
  CodexToolRunnerOptions, Files, read_text, write_text, codex_run, codex_result, codex_request,
  prepare_output_schema, write_rules_file, at_path, codex_dir, after_prepared, prepare_schema,
  codex_ended,
}

pub read_written :
    (path contents : Text) (files : Files)
    → read_text path (write_text path contents files) ≡ some contents
unfolding read_text
read_written path contents files = ground (arith, same_text_refl path)

-- How the Codex command reads its arguments, up to `--`: these flags take a value each.
abbrev takes_value : Text → Bool
takes_value flag =
    same_text flag (codes "-m")
    || same_text flag (codes "-c")
    || same_text flag (codes "--sandbox")
    || same_text flag (codes "-C")
    || same_text flag (codes "--output-schema")

unfoldable pub flag_value : Text → List Text → Option Text
flag_value name [] = none
flag_value name (flag ∷ []) = none
flag_value name (flag ∷ value ∷ args) =
    let skipped = flag_value name args in
    let next = flag_value name (value ∷ args) in
    if same_text flag (codes "--")
    then none
    else if same_text flag name
    then some value
    else if takes_value flag
    then skipped
    else next

-- What the command leaves: its last message, at the path of the flag `-o`, and other files.
abbrev pub left_by : Option Text → Text → Files → Files
left_by none contents others = others
left_by (some path) contents others = write_text path contents others

module _ (options : CodexToolRunnerOptions) (join : List Text → Text) (quote : Text → Text)
    (input : ToolRunInput) (schema : OutputSchema) (files : Files)
    (has_schema : input.output_schema ≡ some schema) where
  abbrev pub message_path : Text
  message_path = join (codex_dir options join quote input ∷ codes "last-message.txt" ∷ [])

  -- The files when the process starts.
  abbrev pub prepared : Files
  prepared =
      write_text (join (codex_dir options join quote input ∷ codes "output.schema.json" ∷ []))
        (schema.indented ++ newline ∷ []) (write_rules_file options join quote input files)

  output_path :
      flag_value (codes "-o") (codex_request options join quote input (at_path message_path)).args
      ≡ some message_path
  unfolding flag_value codex_request same_text
  output_path = refl

  -- When the run asks for a schema, and the process, which reads its arguments as the command does,
  -- exits with zero and leaves a last message that is not blank at the path after its flag `-o`, the
  -- run succeeds with that message as its output, whatever the process printed and left in other
  -- files before.
  pub codex_answer :
      (process : RunProcessInput → Files → Result RunProcessResult × Files) (raw : RunProcessResult)
      (contents : Text) (others : Files)
      → process (codex_request options join quote input (at_path message_path)) prepared ≡ (
        ok raw,
        left_by
            (flag_value
              (codes "-o")
              (codex_request options join quote input (at_path message_path)).args)
            contents
            others,
      )
      → raw.exit_code ≡ 0
      → has_ink contents ≡ true
      → (codex_run options join quote process input files).0 ≡ ok (tool_succeeded contents)
  unfolding codex_run prepare_output_schema codex_result
  codex_answer process raw contents others answers zero inked =
      ap
        (λ o.
          (after_prepared options join quote process input (
            prepare_schema options join quote input o
              (write_rules_file options join quote input files))).0)
        has_schema
      ∙ ap (λ r. (codex_ended options join quote (at_path message_path) r).0)
          (answers ∙ ap (λ o. (ok raw, left_by o contents others)) output_path)
      ∙ ap ok (
          by_test (λ r. r ≡ tool_succeeded contents) (raw.exit_code == 0)
            (λ _. rw (read_written message_path contents others) (
              by_test (λ r. r ≡ tool_succeeded contents) (is_empty (trim contents))
                (λ blank. ground (arith, blank, inked, is_empty-trim contents)) (λ _. refl)))
            (λ other. ground (arith, other, zero)))
