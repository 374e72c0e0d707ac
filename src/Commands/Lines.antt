-- ===== src/Commands/Lines.antt =====
-- `parseCommand`: the lines that it reads and those that it leaves out.
use oh_my_github_runner.Prelude.{
  ℕ, ◌≡◌, refl, ap, ◌∙◌, ◌≢◌, Bool, true, false, ◌||◌, some, List, [], ◌∷◌, ◌++◌, arith, All,
}
use oh_my_github_runner.Commands.{
  Text, implement, newline, carriage_return, fence, quote, is_empty, starts_with, trim, split_lines,
  join_lines, cons_head, non_empty_segment, find_command, parse_command, trigger_keyword,
  implement_word, span_token, trim_start, trim_end, is_space, same_text, match_command_line,
  match_token,
}

join-cons_head : (c : ℕ) (lines : List Text) → join_lines (cons_head c lines) ≡ c ∷ join_lines lines
unfolding join_lines
join-cons_head c [] = refl
join-cons_head c (line ∷ []) = refl
join-cons_head c (line ∷ next ∷ lines) = refl

abbrev no_lines : List Text → Bool
no_lines [] = true
no_lines (_ ∷ _) = false

no_lines-cons_head : (c : ℕ) (lines : List Text) → no_lines (cons_head c lines) ≡ false
no_lines-cons_head c [] = refl
no_lines-cons_head c (line ∷ lines) = refl

no_lines-split : (cs : Text) → no_lines (split_lines cs) ≡ false
unfolding split_lines
no_lines-split [] = refl
no_lines-split (c ∷ cs) = ground (arith, no_lines-split cs, no_lines-cons_head c (split_lines cs))

join-empty_line :
    (lines : List Text)
    → no_lines lines ≡ false
    → join_lines ([] ∷ lines) ≡ newline ∷ join_lines lines
unfolding join_lines
join-empty_line [] h = cc
join-empty_line (line ∷ lines) h = refl

-- Lines split and joined again give the text, if it has no carriage return.
pub join-split : (cs : Text) → All (λ c. c ≢ carriage_return) cs → join_lines (split_lines cs) ≡ cs
unfolding join_lines split_lines starts_with
join-split [] h = refl
join-split (c ∷ cs) (no_return, h) = ground (
  arith,
  no_return,
  join-split cs h,
  join-cons_head c (split_lines cs),
  join-empty_line (split_lines cs) (no_lines-split cs),
)

segment : (cs : Text) → join_lines (non_empty_segment cs) ≡ cs
unfolding join_lines
segment [] = refl
segment (c ∷ cs) = refl

-- A comment whose first line is the trigger and the verb, with a text below it that has no carriage
-- return, is the command to implement, with that text, trimmed, as the instructions.
pub parse_implement :
    (cs : Text)
    → All (λ c. c ≢ carriage_return) cs
    → parse_command (47 ∷ trigger_keyword ++ 32 ∷ implement_word ++ newline ∷ cs)
      ≡ some (record { verb = implement; additional_instructions = trim cs })
unfolding parse_command split_lines find_command starts_with trim trim_start trim_end is_space
    match_command_line match_token span_token same_text
parse_implement cs h =
    ap
      (λ t. some (record {
        verb = implement;
        additional_instructions = trim (join_lines (non_empty_segment t));
      }))
      (join-split cs h)
    ∙ ap (λ t. some (record { verb = implement; additional_instructions = trim t })) (segment cs)

skipped_not_fence :
    (t : Text) → (is_empty t || starts_with quote t) ≡ true → starts_with fence t ≡ false
unfolding starts_with
skipped_not_fence [] h = refl
skipped_not_fence (c ∷ cs) h = ground arith

-- Lines at the top that are blank, or that quote another comment, do not count: the command is
-- looked for below them.
pub find_command-skipped :
    (quoted lines : List Text)
    → All (λ l. (is_empty (trim l) || starts_with quote (trim l)) ≡ true) quoted
    → find_command false (quoted ++ lines) ≡ find_command false lines
unfolding find_command starts_with
find_command-skipped [] lines h = refl
find_command-skipped (l ∷ quoted) lines (skipped, h) =
    ground (arith, skipped_not_fence (trim l), find_command-skipped quoted lines)
