-- ===== src/Masking/Replacing.antt =====
-- The credentials in a Git command that is printed.
use oh_my_github_runner.Prelude.{
  ℕ, zero, suc, ◌≡◌, refl, sym, ap, ◌∙◌, Bool, true, false, not, Option, none, some, option_map, [],
  ◌∷◌, ◌++◌, any, length, codes, arith,
}
use oh_my_github_runner.Commands.{Text, is_space}
use oh_my_github_runner.Masking.{
  match_length, longest_many, replace_from, replaced, or_else, mask_each, mask_secrets,
  authorization_pattern, later_patterns, is_solid, at_least,
}
use oh_my_github_runner.Tools.Pattern.{spaces, is_word}

-- A text without white space.
abbrev pub IsSolid : Text → Type 0
IsSolid cs = any is_space cs ≡ false

solid_head : (c : ℕ) (cs : Text) → IsSolid (c ∷ cs) → is_space c ≡ false
solid_head c cs e = ground (arith, e)

IsSolid-tail : (c : ℕ) (cs : Text) → IsSolid (c ∷ cs) → IsSolid cs
IsSolid-tail c cs e = ground (arith, e)

solid_step :
    (c n : ℕ) (longer shorter : Option ℕ)
    → is_space c ≡ false
    → longer ≡ some n
    → elim (is_solid c) [ true ↦ or_else (option_map suc longer) shorter | false ↦ shorter ]
      ≡ some (suc n)
solid_step c n longer shorter e f =
    ap (λ b. elim (not b) [ true ↦ or_else (option_map suc longer) shorter | false ↦ shorter ]) e
    ∙ ap (λ o. or_else (option_map suc o) shorter) f

blank_is_space : is_space 32 ≡ true
unfolding is_space
blank_is_space = refl

many_solid :
    (cs more : Text) (after_word : Bool)
    → IsSolid cs
    → longest_many (match_length []) is_solid after_word (cs ++ 32 ∷ more) ≡ some (length cs)
unfolding longest_many match_length
many_solid [] more after_word e =
    ap
      (λ b. elim (not b) [
        | true ↦
            or_else (option_map suc (longest_many (match_length []) is_solid false more)) (some 0)
        | false ↦ some 0
      ])
      blank_is_space
many_solid (c ∷ cs) more after_word e =
    solid_step c (length cs) _ (some 0) (solid_head c cs e)
      (many_solid cs more _ (IsSolid-tail c cs e))

solid_match :
    (c : ℕ) (cs more : Text)
    → IsSolid (c ∷ cs)
    → match_length (spaces ++ at_least 1 is_solid) false (c ∷ cs ++ 32 ∷ more)
      ≡ some (suc (length cs))
unfolding longest_many match_length
solid_match c cs more e =
    ap
      (λ b. elim b [
        | true ↦
            or_else
              (option_map suc (
                longest_many (match_length (at_least 1 is_solid)) is_space (is_word c)
                  (cs ++ 32 ∷ more)))
              (match_length (at_least 1 is_solid) false (c ∷ cs ++ 32 ∷ more))
        | false ↦ match_length (at_least 1 is_solid) false (c ∷ cs ++ 32 ∷ more)
      ])
      (solid_head c cs e)
    ∙ ap
        (λ b. elim (not b) [
          | true ↦
              option_map suc (longest_many (match_length []) is_solid (is_word c) (cs ++ 32 ∷ more))
          | false ↦ none
        ])
        (solid_head c cs e)
    ∙ ap (option_map suc) (many_solid cs more _ (IsSolid-tail c cs e))

-- `replace_from` inside a match.
skip_solid :
    (cs more replacement : Text) (after_word : Bool)
    → replace_from authorization_pattern replacement after_word (length cs) (cs ++ 32 ∷ more)
      ≡ 32 ∷ replace_from authorization_pattern replacement false 0 more
unfolding replace_from match_length
skip_solid [] more replacement after_word = refl
skip_solid (c ∷ cs) more replacement after_word = skip_solid cs more replacement _

abbrev times_suc : ℕ → Option ℕ → Option ℕ
times_suc zero o = o
times_suc (suc n) o = option_map suc (times_suc n o)

-- The start of the message about a failed command with credentials for github.com.
abbrev pub printed_command : Text
printed_command = codes "git failed: -c http.https://github.com/.extraheader=AUTHORIZATION: Basic "

abbrev masked_command : Text
masked_command =
    codes "git failed: -c http.https://github.com/.extraheader=AUTHORIZATION: Basic ***"

abbrev basic_replacement : Text
basic_replacement = codes "AUTHORIZATION: Basic ***"

header-replaced :
    (c : ℕ) (cs more : Text)
    → IsSolid (c ∷ cs)
    → replace_from authorization_pattern basic_replacement false 0
        (printed_command ++ c ∷ cs ++ 32 ∷ more)
      ≡ masked_command ++ 32 ∷ replace_from authorization_pattern basic_replacement false 0 more
unfolding replace_from match_length longest_many is_space
header-replaced c cs more e =
    ap
      (λ o.
        codes "git failed: -c http.https://github.com/.extraheader="
        ++ replaced basic_replacement 65
            (λ skip.
              replace_from authorization_pattern basic_replacement true skip
                (codes "UTHORIZATION: Basic " ++ c ∷ cs ++ 32 ∷ more))
            (times_suc 14 (or_else (times_suc 7 o) none)))
      (solid_match c cs more e)
    ∙ ap (λ t. masked_command ++ t) (skip_solid cs more basic_replacement (is_word c))

-- The message about a failed command does not depend on the credentials.
pub mask-credentials :
    (c d : ℕ) (cs ds more : Text)
    → IsSolid (c ∷ cs)
    → IsSolid (d ∷ ds)
    → mask_secrets (printed_command ++ c ∷ cs ++ 32 ∷ more)
      ≡ mask_secrets (printed_command ++ d ∷ ds ++ 32 ∷ more)
unfolding mask_secrets mask_each
mask-credentials c d cs ds more e f =
    ap (λ t. mask_each later_patterns t)
      (header-replaced c cs more e ∙ sym (header-replaced d ds more f))
