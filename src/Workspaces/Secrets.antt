-- ===== src/Workspaces/Secrets.antt =====
-- The token of an installation in the errors of Git commands.
use oh_my_github_runner.Prelude.{
  ℕ, ◌≡◌, sym, ap, ◌∙◌, false, none, some, get_or, List, [], ◌∷◌, ◌++◌, if◌then◌else◌, ◌==◌, codes,
  append_assoc,
}
use oh_my_github_runner.Prelude.Action.{Result, ok, err, after, git_failed}
use oh_my_github_runner.Commands.{Text}
use oh_my_github_runner.Tools.{RunProcessResult}
use oh_my_github_runner.Tools.Claude.{join_with}
use oh_my_github_runner.Masking.{mask_secrets}
use oh_my_github_runner.Masking.Replacing.{IsSolid, printed_command, mask-credentials}
use oh_my_github_runner.Workspaces.{
  Effect, GitWorkspaceManagerOptions, Host, build_auth_args, run_git, run, git, unless_failed,
  raw_error, without_slashes, or_text,
}

-- A text that is not empty and has no white space.
abbrev pub IsWord : Text → Type 0
IsWord cs = (c : ℕ) × (rest : Text) × (cs ≡ c ∷ rest) × IsSolid (c ∷ rest)

abbrev printed_args : List Text → Text
printed_args args = codes "git failed: " ++ join_with (codes " ") args

abbrev command_text : Text → List Text → Text
command_text credentials args =
    codes "git failed: "
    ++ join_with (codes " ") (
        codes "-c"
        ∷ (codes "http.https://github.com/.extraheader=AUTHORIZATION: Basic " ++ credentials)
        ∷ args)

command_text-printed :
    (c : ℕ) (cs arg : Text) (args : List Text)
    → command_text (c ∷ cs) (arg ∷ args)
      ≡ printed_command ++ (c ∷ cs) ++ 32 ∷ join_with (codes " ") (arg ∷ args)
command_text-printed c cs arg args =
    ap (λ t. printed_command ++ (c ∷ t))
      (append_assoc cs (codes " ") (join_with (codes " ") (arg ∷ args)))

command_text-masked :
    (x y arg : Text) (args : List Text)
    → IsWord x
    → IsWord y
    → mask_secrets (command_text x (arg ∷ args)) ≡ mask_secrets (command_text y (arg ∷ args))
command_text-masked x y arg args (c, cs, e, solid) (d, ds, f, solid') =
    ap (λ t. mask_secrets (command_text t (arg ∷ args))) e
    ∙ ap mask_secrets (command_text-printed c cs arg args)
    ∙ mask-credentials c d cs ds (join_with (codes " ") (arg ∷ args)) solid solid'
    ∙ ap mask_secrets (sym (command_text-printed d ds arg args))
    ∙ ap (λ t. mask_secrets (command_text t (arg ∷ args))) (sym f)

module _ (options : GitWorkspaceManagerOptions) (host : Host)
    (default_url : options.github_web_base_url ≡ none) where
  -- The base64 text of the credentials of a token.
  abbrev pub credentials_of : ℕ → Text → Text
  credentials_of c cs = host.base64 (codes "x-access-token:" ++ c ∷ cs)

  raw_error-printed :
      (c : ℕ) (cs : Text) (args : List Text) (result : RunProcessResult)
      → result.stderr ≡ []
      → result.stdout ≡ []
      → raw_error options host (build_auth_args options host (some (c ∷ cs)) ++ args) result
        ≡ command_text (credentials_of c cs) args
  unfolding build_auth_args without_slashes
  raw_error-printed c cs args result e f =
      ap
        (λ t. or_text t (
          or_text result.stdout
            (printed_args (build_auth_args options host (some (c ∷ cs)) ++ args))))
        e
      ∙ ap (λ t. or_text t (printed_args (build_auth_args options host (some (c ∷ cs)) ++ args))) f
      ∙ ap
          (λ o. printed_args (
            codes "-c"
            ∷ (codes "http."
                ++ without_slashes (get_or o (codes "https://github.com"))
                ++ codes "/.extraheader=AUTHORIZATION: Basic "
                ++ credentials_of c cs)
            ∷ args))
          default_url

  git_fails :
      (args : List Text) (s : List Effect) (result : RunProcessResult)
      → host.process (s ++ run (git options host) args ∷ []) ≡ ok result
      → (result.exit_code == 0) ≡ false
      → (run_git options host args s).0
        ≡ err (git_failed (mask_secrets (raw_error options host args result)))
  unfolding run_git
  git_fails args s result e f =
      ap
        (λ r.
          (after (r, s ++ run (git options host) args ∷ []) (unless_failed options host args)).0)
        e
      ∙ ap (λ (r : Result RunProcessResult × List Effect). r.0)
          (ap
            (λ b. if b then (ok result, s ++ run (git options host) args ∷ []) else (
              err (git_failed (mask_secrets (raw_error options host args result))),
              s ++ run (git options host) args ∷ [],
            ))
            f)

  -- For the default base URL: a Git command that begins with the arguments of a token, as the fetch
  -- and the clone of a mirror do, and that ends with another exit code than 0 and prints nothing
  -- fails with an error that is the same for another token. The base64 texts of the credentials of
  -- both tokens are not empty and have no white space.
  pub git_failure_hides :
      (c d : ℕ) (cs ds arg : Text) (args : List Text) (s : List Effect)
      (result result' : RunProcessResult)
      → IsWord (credentials_of c cs)
      → IsWord (credentials_of d ds)
      → host.process (
          s
          ++ run (git options host) (build_auth_args options host (some (c ∷ cs)) ++ arg ∷ args)
            ∷ [])
        ≡ ok result
      → host.process (
          s
          ++ run (git options host) (build_auth_args options host (some (d ∷ ds)) ++ arg ∷ args)
            ∷ [])
        ≡ ok result'
      → ((result.exit_code == 0) ≡ false) × (result.stderr ≡ []) × (result.stdout ≡ [])
      → ((result'.exit_code == 0) ≡ false) × (result'.stderr ≡ []) × (result'.stdout ≡ [])
      → (run_git options host (build_auth_args options host (some (c ∷ cs)) ++ arg ∷ args) s).0
        ≡ (run_git options host (build_auth_args options host (some (d ∷ ds)) ++ arg ∷ args) s).0
  git_failure_hides c d cs ds arg args s result result' word word' e e' (f, g, h) (f', g', h') =
      git_fails _ s result e f
      ∙ ap (λ t. err (git_failed (mask_secrets t))) (raw_error-printed c cs (arg ∷ args) result g h)
      ∙ ap (λ t. err (git_failed t))
          (command_text-masked (credentials_of c cs) (credentials_of d ds) arg args word word')
      ∙ ap (λ t. err (git_failed (mask_secrets t)))
          (sym (raw_error-printed d ds (arg ∷ args) result' g' h'))
      ∙ sym (git_fails _ s result' e' f')
