-- ===== src/Tools/Pattern.antt =====
-- The regular expressions of the tool runners: sequences of single units, repeated units and word
-- boundaries, searched for in a text.
use oh_my_github_runner.Prelude.{
  ℕ, Bool, true, false, ◌&&◌, ◌||◌, not, List, [], ◌∷◌, map, ◌==◌, leb,
}
use oh_my_github_runner.Commands.{Text, lower, is_line_end, is_space}

-- A unit that passes a test, any number of them, or `\b`.
pub data PatternItem : Type 0 where
  one many : (ℕ → Bool) → PatternItem
  word_boundary : PatternItem

pub record RegExp : Type 0 where
  pub source : Text
  pub items : List PatternItem

abbrev pub is_word : ℕ → Bool
is_word c = leb 48 c && leb c 57 || leb 65 c && leb c 90 || leb 97 c && leb c 122 || c == 95

abbrev pub is_digit : ℕ → Bool
is_digit c = leb 48 c && leb c 57

abbrev pub starts_word : Text → Bool
starts_word [] = false
starts_word (c ∷ cs) = is_word c

abbrev pub differ : Bool → Bool → Bool
differ true b = not b
differ false b = b

-- `rest` matches after some units that pass the test.
unfoldable pub match_many : (Bool → Text → Bool) → (ℕ → Bool) → Bool → Text → Bool
match_many rest p after_word [] = rest after_word []
match_many rest p after_word (c ∷ cs) =
    rest after_word (c ∷ cs) || (p c && match_many rest p (is_word c) cs)

abbrev pub match_one : (Bool → Text → Bool) → (ℕ → Bool) → Text → Bool
match_one rest p [] = false
match_one rest p (c ∷ cs) = p c && rest (is_word c) cs

-- The items match at the start of the text, which stands behind a word or not.
unfoldable pub matches : List PatternItem → Bool → Text → Bool
matches [] after_word cs = true
matches (one p ∷ items) after_word cs = match_one (matches items) p cs
matches (many p ∷ items) after_word cs = match_many (matches items) p after_word cs
matches (word_boundary ∷ items) after_word cs =
    differ after_word (starts_word cs) && matches items after_word cs

unfoldable pub found_from : List PatternItem → Bool → Text → Bool
found_from items after_word [] = matches items after_word []
found_from items after_word (c ∷ cs) =
    matches items after_word (c ∷ cs) || found_from items (is_word c) cs

-- `RegExp.test`.
abbrev pub test : RegExp → Text → Bool
test pattern cs = found_from pattern.items false cs

abbrev pub literal : Text → List PatternItem
literal cs = map (λ c. one (λ d. d == c)) cs

-- A literal under the flag `i`.
abbrev pub any_case : Text → List PatternItem
any_case cs = map (λ c. one (λ d. lower d == lower c)) cs

-- `.*`, `\s*` and `\s+`, `\d+`.
abbrev pub anything : List PatternItem
anything = many (λ c. not (is_line_end c)) ∷ []

abbrev pub spaces : List PatternItem
spaces = many is_space ∷ []

abbrev pub some_spaces : List PatternItem
some_spaces = one is_space ∷ many is_space ∷ []

abbrev pub some_digits : List PatternItem
some_digits = one is_digit ∷ many is_digit ∷ []
