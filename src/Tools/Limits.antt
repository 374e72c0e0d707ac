-- ===== src/Tools/Limits.antt =====
-- What the patterns find, and how a usage cap of Claude Code is reported.
use oh_my_github_runner.Prelude.{
  ℕ, ◌≡◌, refl, sym, subst, ap, ◌∙◌, Bool, true, false, not, ◌&&◌, List, [], ◌∷◌, ◌++◌, arith,
  codes, all, append_assoc, by_test, any, if◌then◌else◌, ◌==◌,
}
use oh_my_github_runner.Commands.{
  Text, is_line_end, is_space, trim, trim_start, trim_end, is_empty, newline,
}
use oh_my_github_runner.Tools.{
  ToolRunInput, ToolRunResult, tool_succeeded, tool_limited, RunProcessResult, classify_result,
  has_schema, first_match, haystack_of,
}
use oh_my_github_runner.Tools.Pattern.{
  PatternItem, many, is_word, matches, match_many, found_from, literal, anything,
}
use oh_my_github_runner.Tools.Claude.{claude_result}

-- The items match at the start of the text, whatever stands before it.
abbrev Fits : List PatternItem → Text → Type 0
Fits items cs = (after_word : Bool) → matches items after_word cs ≡ true

Fits-literal :
    (w : Text) (items : List PatternItem) (cs : Text)
    → Fits items cs
    → Fits (literal w ++ items) (w ++ cs)
unfolding matches
Fits-literal [] items cs h after_word = h after_word
Fits-literal (c ∷ w) items cs h after_word = ground (arith, Fits-literal w items cs h (is_word c))

Fits-many :
    (p : ℕ → Bool) (mid : Text) (items : List PatternItem) (cs : Text)
    → all p mid ≡ true
    → Fits items cs
    → Fits (many p ∷ items) (mid ++ cs)
unfolding matches match_many
Fits-many p [] items [] passed h after_word = h after_word
Fits-many p [] items (c ∷ cs) passed h after_word = ground (arith, h after_word)
Fits-many p (m ∷ mid) items cs passed h after_word =
    ground (arith, Fits-many p mid items cs (ground arith) h (is_word m))

found_from-Fits :
    (pre : Text) (items : List PatternItem) (cs : Text) (after_word : Bool)
    → Fits items cs
    → found_from items after_word (pre ++ cs) ≡ true
unfolding found_from
found_from-Fits [] items [] after_word h = h after_word
found_from-Fits [] items (c ∷ cs) after_word h = ground (arith, h after_word)
found_from-Fits (p ∷ pre) items cs after_word h =
    ground (arith, found_from-Fits pre items cs (is_word p) h)

abbrev pub has_ink : Text → Bool
has_ink cs = any (λ c. not (is_space c)) cs

has_ink-trim_start : (cs : Text) → has_ink (trim_start cs) ≡ has_ink cs
unfolding trim_start
has_ink-trim_start [] = refl
has_ink-trim_start (c ∷ cs) = ground (arith, has_ink-trim_start cs)

is_empty-trim_end : (cs : Text) → is_empty (trim_end cs) ≡ not (has_ink cs)
unfolding trim_end
is_empty-trim_end [] = refl
is_empty-trim_end (c ∷ cs) = ground (arith, is_empty-trim_end cs)

pub is_empty-trim : (cs : Text) → is_empty (trim cs) ≡ not (has_ink cs)
unfolding trim
is_empty-trim cs = is_empty-trim_end (trim_start cs) ∙ ap not (has_ink-trim_start cs)

has_ink-append : (pre cs : Text) → has_ink cs ≡ true → has_ink (pre ++ cs) ≡ true
has_ink-append [] cs h = h
has_ink-append (c ∷ pre) cs h = ground (arith, has_ink-append pre cs h)

abbrev pub cap_message : Text → Text → Text
cap_message mid post = codes "You've hit your" ++ (mid ++ (codes "limit" ++ post))

cap_message-Fits :
    (mid post : Text)
    → all (λ c. not (is_line_end c)) mid ≡ true
    → Fits
        (literal (codes "You've hit your") ++ anything ++ literal (codes "limit"))
        (cap_message mid post)
unfolding matches
cap_message-Fits mid post on_one_line =
    Fits-literal (codes "You've hit your") (anything ++ literal (codes "limit"))
      (mid ++ (codes "limit" ++ post))
      (Fits-many (λ c. not (is_line_end c)) mid (literal (codes "limit")) (codes "limit" ++ post)
        on_one_line (Fits-literal (codes "limit") [] post (λ after_word. refl)))

cap_message-has_ink : (pre mid post : Text) → has_ink (pre ++ cap_message mid post) ≡ true
unfolding is_space
cap_message-has_ink pre mid post = has_ink-append pre (cap_message mid post) refl

abbrev pub cap_signal : Text
cap_signal = codes "pattern=You've hit your.*limit"

-- The first pattern finds the message in the output.
cap_message-found :
    (pre mid post stderr : Text)
    → all (λ c. not (is_line_end c)) mid ≡ true
    → found_from
        (literal (codes "You've hit your") ++ anything ++ literal (codes "limit"))
        false
        (pre ++ cap_message mid post ++ newline ∷ stderr)
      ≡ true
cap_message-found pre mid post stderr on_one_line =
    subst
      (λ t.
        found_from (literal (codes "You've hit your") ++ anything ++ literal (codes "limit")) false
          t
        ≡ true)
      (sym (
        append_assoc pre (cap_message mid post) (newline ∷ stderr)
        ∙ ap (λ t. pre ++ (codes "You've hit your" ++ t))
            (append_assoc mid (codes "limit" ++ post) (newline ∷ stderr))))
      (found_from-Fits pre _ (cap_message mid (post ++ newline ∷ stderr)) false
        (cap_message-Fits mid (post ++ newline ∷ stderr) on_one_line))

-- A run of Claude Code whose output has, on one line, a message that begins with the words of the
-- first pattern and goes on to the word `limit`, is reported as rate limited just if its exit code
-- is not zero. With exit code zero it is reported as a success, and the message as its result.
pub usage_cap_lem :
    (input : ToolRunInput) (raw : RunProcessResult) (pre mid post : Text)
    → raw.stdout ≡ pre ++ cap_message mid post
    → all (λ c. not (is_line_end c)) mid ≡ true
    → claude_result input raw
      ≡ (if raw.exit_code == 0 then tool_succeeded raw.stdout else tool_limited "claude" cap_signal)
unfolding claude_result classify_result first_match
usage_cap_lem input raw pre mid post says on_one_line =
    by_test (λ r. r ≡ expected)
      (has_schema input && raw.exit_code == 0 && is_empty (trim raw.stdout))
      (λ blank. ground (arith, blank, inked))
      λ _.
        by_test (λ r. r ≡ expected) (raw.exit_code == 0) (λ zero. rw zero refl)
          (λ other. rw (other, found) refl)
  where
    expected : ToolRunResult
    expected =
        if raw.exit_code == 0 then tool_succeeded raw.stdout else tool_limited "claude" cap_signal

    inked : is_empty (trim raw.stdout) ≡ false
    inked = is_empty-trim raw.stdout ∙ ap not (ap has_ink says ∙ cap_message-has_ink pre mid post)

    found :
        found_from
          (literal (codes "You've hit your") ++ anything ++ literal (codes "limit"))
          false
          (haystack_of raw)
        ≡ true
    found = rw says (cap_message-found pre mid post raw.stderr on_one_line)
