-- ===== src/Commands.antt =====
-- src/domain/rules/command-parser.ts: the command in the text of a comment, a list of UTF-16 code
-- units. Lower case is taken of ASCII letters, since no other letter becomes one of the keywords.
pub mod Lines
mod Tests
use oh_my_github_runner.Prelude.{
  ℕ, ◌+◌, Bool, true, false, ◌&&◌, ◌||◌, not, Option, none, some, List, [], ◌∷◌, ◌++◌, map, any,
  if◌then◌else◌, ◌==◌, leb,
}

abbrev pub Text : Type 0
Text = List ℕ

pub data CommandVerb : Type 0 where
  implement no_verb : CommandVerb

pub record ParsedCommand : Type 0 where
  pub verb : CommandVerb
  pub additional_instructions : Text

abbrev pub newline : ℕ
newline = 10

abbrev pub carriage_return : ℕ
carriage_return = 13

abbrev pub trigger_keyword : Text
trigger_keyword = 111 ∷ 109 ∷ 103 ∷ 114 ∷ []

abbrev pub implement_word : Text
implement_word = 105 ∷ 109 ∷ 112 ∷ 108 ∷ 101 ∷ 109 ∷ 101 ∷ 110 ∷ 116 ∷ []

abbrev pub fence : Text
fence = 96 ∷ 96 ∷ 96 ∷ []

abbrev pub quote : Text
quote = 62 ∷ []

-- The units that end a line for `.` in a pattern.
abbrev pub is_line_end : ℕ → Bool
is_line_end c = c == 10 || c == 13 || c == 8232 || c == 8233

-- White space for `\s` and `trim`.
unfoldable pub is_space : ℕ → Bool
is_space c =
    leb 9 c && leb c 13
    || c == 32
    || c == 160
    || c == 5760
    || leb 8192 c && leb c 8202
    || c == 8232
    || c == 8233
    || c == 8239
    || c == 8287
    || c == 12288
    || c == 65279

abbrev pub lower : ℕ → ℕ
lower c = if leb 65 c && leb c 90 then c + 32 else c

abbrev pub is_empty : Text → Bool
is_empty [] = true
is_empty (_ ∷ _) = false

unfoldable pub same_text : Text → Text → Bool
same_text [] [] = true
same_text [] (_ ∷ _) = false
same_text (_ ∷ _) [] = false
same_text (c ∷ cs) (d ∷ ds) = c == d && same_text cs ds

unfoldable pub starts_with : Text → Text → Bool
starts_with [] cs = true
starts_with (_ ∷ _) [] = false
starts_with (p ∷ ps) (c ∷ cs) = p == c && starts_with ps cs

unfoldable pub trim_start : Text → Text
trim_start [] = []
trim_start (c ∷ cs) = let rest = trim_start cs in if is_space c then rest else c ∷ cs

unfoldable pub trim_end : Text → Text
trim_end [] = []
trim_end (c ∷ cs) = let rest = trim_end cs in if is_empty rest && is_space c then [] else c ∷ rest

unfoldable pub trim : Text → Text
unfolding trim_start trim_end
trim cs = trim_end (trim_start cs)

abbrev pub cons_head : ℕ → List Text → List Text
cons_head c [] = (c ∷ []) ∷ []
cons_head c (line ∷ lines) = (c ∷ line) ∷ lines

-- `split(/\r?\n/)`.
unfoldable pub split_lines : Text → List Text
unfolding starts_with
split_lines [] = [] ∷ []
split_lines (c ∷ cs) =
    let rest = split_lines cs in
    if c == newline
    then [] ∷ rest
    else if c == carriage_return && starts_with (newline ∷ []) cs
    then rest
    else cons_head c rest

unfoldable pub join_lines : List Text → Text
join_lines [] = []
join_lines (line ∷ []) = line
join_lines (line ∷ next ∷ lines) = line ++ newline ∷ join_lines (next ∷ lines)

-- The first line outside fences that is neither empty nor a quote, trimmed, and the lines below it.
unfoldable pub find_command : Bool → List Text → Option (Text × List Text)
unfolding starts_with trim
find_command in_fence [] = none
find_command in_fence (line ∷ lines) =
    let trimmed = trim line in
    let is_fence = starts_with fence trimmed in
    let rest = find_command (if is_fence then not in_fence else in_fence) lines in
    if is_fence || in_fence || is_empty trimmed || starts_with quote trimmed
    then rest
    else some (trimmed, lines)

-- The longest start without white space, and what follows.
unfoldable pub span_token : Text → Text × Text
span_token [] = ([], [])
span_token (c ∷ cs) =
    let (token, rest) = span_token cs in if is_space c then ([], c ∷ cs) else (c ∷ token, rest)

-- `/^(\S+)(?:\s+(.*))?$/`: what the second group leaves out is empty.
unfoldable pub match_token : Text → Option (Text × Text)
unfolding span_token trim_start
match_token cs =
    let (token, rest) = span_token cs in
    if is_empty token || any is_line_end (trim_start rest)
    then none
    else some (token, trim_start rest)

-- `/^\/(\S+)(?:\s+(.*))?$/`.
unfoldable pub match_command_line : Text → Option (Text × Text)
unfolding match_token
match_command_line [] = none
match_command_line (c ∷ cs) = if c == 47 then match_token cs else none

abbrev known_verb : Text → Option (Text × Text) → CommandVerb × Text
known_verb remainder none = (no_verb, remainder)
known_verb remainder (some (token, rest)) =
    if same_text (map lower token) implement_word
    then (implement, trim rest)
    else (no_verb, remainder)

abbrev pub split_verb : Text → CommandVerb × Text
split_verb remainder =
    if is_empty remainder
    then (no_verb, remainder)
    else known_verb remainder (match_token remainder)

abbrev pub non_empty_segment : Text → List Text
non_empty_segment [] = []
non_empty_segment (c ∷ cs) = (c ∷ cs) ∷ []

abbrev pub instructions : Text → List Text → Text
instructions first_line_extra following =
    trim
      (join_lines (non_empty_segment first_line_extra ++ non_empty_segment (join_lines following)))

abbrev pub parsed : List Text → CommandVerb × Text → ParsedCommand
parsed following (verb, extra) = record {
  verb = verb;
  additional_instructions = instructions extra following;
}

abbrev pub command_of : List Text → Option (Text × Text) → Option ParsedCommand
command_of following none = none
command_of following (some (token, rest)) =
    if same_text (map lower token) trigger_keyword
    then some (parsed following (split_verb (trim rest)))
    else none

abbrev pub at_command : Option (Text × List Text) → Option ParsedCommand
at_command none = none
at_command (some (line, following)) = command_of following (match_command_line line)

-- An empty body has one empty line, and no command.
unfoldable pub parse_command : Text → Option ParsedCommand
unfolding find_command split_lines
parse_command body = at_command (find_command false (split_lines body))
