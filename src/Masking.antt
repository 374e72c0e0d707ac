-- ===== src/Masking.antt =====
-- src/infra/workspaces/secret-mask.ts: what is hidden of the output of Git. The regular expressions
-- are those of Tools.Pattern; here their matches are replaced, so the length of a match counts: the
-- longest that a repeated unit allows, and shorter ones if the rest then fails.
pub mod Replacing
mod Tests
use oh_my_github_runner.Prelude.{
  ℕ, zero, suc, ◌+◌, Bool, true, false, ◌&&◌, ◌||◌, not, Option, none, some, option_map, List, [],
  ◌∷◌, ◌++◌, ◌==◌, leb, if◌then◌else◌, codes,
}
use oh_my_github_runner.Commands.{Text, is_space}
use oh_my_github_runner.Tools.Pattern.{
  PatternItem, one, many, word_boundary, is_word, starts_word, differ, literal, any_case, spaces,
  some_spaces,
}

abbrev pub or_else : Option ℕ → Option ℕ → Option ℕ
or_else (some n) later = some n
or_else none later = later

unfoldable pub longest_many : (Bool → Text → Option ℕ) → (ℕ → Bool) → Bool → Text → Option ℕ
longest_many rest p after_word [] = rest after_word []
longest_many rest p after_word (c ∷ cs) = elim (p c) [
  | true ↦ or_else (option_map suc (longest_many rest p (is_word c) cs)) (rest after_word (c ∷ cs))
  | false ↦ rest after_word (c ∷ cs)
]

abbrev pub longest_one : (Bool → Text → Option ℕ) → (ℕ → Bool) → Text → Option ℕ
longest_one rest p [] = none
longest_one rest p (c ∷ cs) = elim (p c) [
  | true ↦ option_map suc (rest (is_word c) cs)
  | false ↦ none
]

-- The length of the match at the start of the text.
unfoldable pub match_length : List PatternItem → Bool → Text → Option ℕ
match_length [] after_word cs = some 0
match_length (one p ∷ items) after_word cs = longest_one (match_length items) p cs
match_length (many p ∷ items) after_word cs = longest_many (match_length items) p after_word cs
match_length (word_boundary ∷ items) after_word cs =
    if differ after_word (starts_word cs) then match_length items after_word cs else none

abbrev pub replaced : Text → ℕ → (ℕ → Text) → Option ℕ → Text
replaced replacement c continue none = c ∷ continue 0
replaced replacement c continue (some zero) = c ∷ continue 0
replaced replacement c continue (some (suc n)) = replacement ++ continue n

-- `String.replace` for a pattern with the flag `g` that matches no empty text: the next `skip`
-- units belong to a match.
unfoldable pub replace_from : List PatternItem → Text → Bool → ℕ → Text → Text
replace_from items replacement after_word skip [] = []
replace_from items replacement after_word (suc skip) (c ∷ cs) =
    replace_from items replacement (is_word c) skip cs
replace_from items replacement after_word zero (c ∷ cs) =
    replaced replacement c (λ skip. replace_from items replacement (is_word c) skip cs)
      (match_length items after_word (c ∷ cs))

abbrev pub replace_all : List PatternItem → Text → Text → Text
replace_all items replacement cs = replace_from items replacement false 0 cs

abbrev pub is_solid : ℕ → Bool
is_solid c = not (is_space c)

abbrev pub is_alnum : ℕ → Bool
is_alnum c = leb 48 c && leb c 57 || leb 65 c && leb c 90 || leb 97 c && leb c 122

-- A unit that passes the test, at least so many times.
abbrev pub at_least : ℕ → (ℕ → Bool) → List PatternItem
at_least zero p = many p ∷ []
at_least (suc n) p = one p ∷ at_least n p

abbrev pub authorization_pattern : List PatternItem
authorization_pattern =
    any_case (codes "AUTHORIZATION:")
    ++ spaces
    ++ any_case (codes "Basic")
    ++ some_spaces
    ++ at_least 1 is_solid

abbrev pub access_token_pattern : List PatternItem
access_token_pattern =
    literal (codes "x-access-token:")
    ++ at_least 1 (λ c. not (c == 64 || is_space c || c == 39 || c == 34))

abbrev pub token_pattern : Text → List PatternItem
token_pattern prefix = literal prefix ++ at_least 20 is_alnum

abbrev pub later_patterns : List (List PatternItem × Text)
later_patterns =
    (access_token_pattern, codes "x-access-token:***")
    ∷ (token_pattern (codes "ghs_"), codes "ghs_***")
    ∷ (token_pattern (codes "ghu_"), codes "ghu_***")
    ∷ (token_pattern (codes "gho_"), codes "gho_***")
    ∷ []

abbrev pub patterns : List (List PatternItem × Text)
patterns = (authorization_pattern, codes "AUTHORIZATION: Basic ***") ∷ later_patterns

unfoldable pub mask_each : List (List PatternItem × Text) → Text → Text
mask_each [] output = output
mask_each ((pattern, replacement) ∷ rest) output =
    mask_each rest (replace_all pattern replacement output)

unfoldable pub mask_secrets : Text → Text
mask_secrets input = mask_each patterns input
