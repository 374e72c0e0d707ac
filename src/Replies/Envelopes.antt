-- ===== src/Replies/Envelopes.antt =====
-- What an accepted envelope may ask for.
use oh_my_github_runner.Prelude.{
  ℕ, suc, ◌≤◌, ◌≡◌, refl, true, false, ◌&&◌, Option, none, some, List, [], ◌∷◌, arith, by_test, leb,
  ◌==◌, codes,
}
use oh_my_github_runner.Task.{SourceKind, issue, pull_request}
use oh_my_github_runner.Commands.{Text, trim, is_empty, same_text}
use oh_my_github_runner.Replies.{
  ReplyAdditionalAction, create_issue, close_issue, comment, IssueCommentReplyEnvelope, JsonField,
  text_field, integer_field, other_field, RawAction, RawEntry, not_object, entry, RawOutput,
  not_json, not_record, envelope, FieldName, Parsed, accepted, refused, and_then,
  read_non_empty_string, read_positive_integer, read_target_kind, is_issue, has_kind,
  parse_additional_action, parse_actions, parse_action_list, parse_issue_comment_reply_envelope,
  parse_create, parse_close, parse_comment,
}

-- What holds of an accepted result.
abbrev pub Each : {A : Type 0} → (A → Type 0) → Parsed A → Type 0
Each P (accepted a) = P a
Each P (refused e) = Unit

and_then-Each :
    {A B : Type 0} (P : A → Type 0) (Q : B → Type 0) (r : Parsed A) (f : A → Parsed B)
    → Each P r
    → ((a : A) → P a → Each Q (f a))
    → Each Q (and_then r f)
and_then-Each P Q (accepted a) f h k = k a h
and_then-Each P Q (refused e) f h k = tt

-- The text is what the field holds, trimmed, and is not empty: the field is not blank.
abbrev pub IsTextOf : JsonField → Text → Type 0
IsTextOf field text =
    (value : Text) × (field ≡ text_field value) × (text ≡ trim value) × (is_empty text ≡ false)

-- The number is what the field holds, and positive.
abbrev pub IsNumberOf : JsonField → ℕ → Type 0
IsNumberOf field n = (field ≡ integer_field n) × (1 ≤ n)

abbrev kind_name : SourceKind → Text
kind_name issue = codes "issue"
kind_name pull_request = codes "pull_request"

abbrev pub IsKindOf : JsonField → SourceKind → Type 0
IsKindOf field kind = has_kind (kind_name kind) field ≡ true

read_non_empty_string-Each :
    (value : JsonField) (field : FieldName)
    → Each (IsTextOf value) (read_non_empty_string value field)
unfolding read_non_empty_string
read_non_empty_string-Each (text_field value) field =
    by_test (Each (IsTextOf (text_field value))) (is_empty (trim value)) (λ _. tt)
      (λ e. (value, refl, refl, e))
read_non_empty_string-Each (integer_field n) field = tt
read_non_empty_string-Each other_field field = tt

read_positive_integer-Each :
    (value : JsonField) (field : FieldName)
    → Each (IsNumberOf value) (read_positive_integer value field)
unfolding read_positive_integer
read_positive_integer-Each (integer_field n) field =
    by_test (Each (IsNumberOf (integer_field n))) (leb 1 n) (λ e. (refl, ground (arith, e)))
      (λ _. tt)
read_positive_integer-Each (text_field value) field = tt
read_positive_integer-Each other_field field = tt

read_target_kind-Each :
    (value : JsonField) (field : FieldName) → Each (IsKindOf value) (read_target_kind value field)
unfolding read_target_kind
read_target_kind-Each (text_field value) field =
    by_test (Each (IsKindOf (text_field value))) (same_text value (codes "issue")) (λ e. e)
      (λ _.
        by_test (Each (IsKindOf (text_field value))) (same_text value (codes "pull_request"))
          (λ e. e) (λ _. tt))
read_target_kind-Each (integer_field n) field = tt
read_target_kind-Each other_field field = tt

module _ (source_issue_number : ℕ) where
  -- The action is what the entry asks for, and no comment on the source issue as an issue.
  abbrev pub IsOf : RawEntry → ReplyAdditionalAction → Type 0
  IsOf not_object action = ⊥
  IsOf (entry raw) (create_issue title body) =
      (has_kind (codes "create_issue") raw.kind ≡ true)
      × IsTextOf raw.title title
      × IsTextOf raw.body body
  IsOf (entry raw) (close_issue n) =
      (has_kind (codes "close_issue") raw.kind ≡ true) × IsNumberOf raw.issue_number n
  IsOf (entry raw) (comment target_kind n body) =
      (has_kind (codes "comment") raw.kind ≡ true)
      × IsKindOf raw.target_kind target_kind
      × IsNumberOf raw.target_number n
      × ((is_issue target_kind && n == source_issue_number) ≡ false)
      × IsTextOf raw.body body

  -- One action for each entry, in order.
  abbrev pub AreOf : List RawEntry → List ReplyAdditionalAction → Type 0
  AreOf [] [] = Unit
  AreOf [] (_ ∷ _) = ⊥
  AreOf (_ ∷ _) [] = ⊥
  AreOf (raw ∷ entries) (action ∷ actions) = IsOf raw action × AreOf entries actions

  parse_create-Each :
      (raw : RawAction) (index : ℕ)
      → has_kind (codes "create_issue") raw.kind ≡ true
      → Each (IsOf (entry raw)) (parse_create source_issue_number raw index)
  parse_create-Each raw index k =
      and_then-Each (IsTextOf raw.title) (IsOf (entry raw)) _ _
        (read_non_empty_string-Each raw.title _)
        λ title t.
          and_then-Each (IsTextOf raw.body) (IsOf (entry raw)) _ _
            (read_non_empty_string-Each raw.body _) λ body b. (k, t, b)

  parse_close-Each :
      (raw : RawAction) (index : ℕ)
      → has_kind (codes "close_issue") raw.kind ≡ true
      → Each (IsOf (entry raw)) (parse_close source_issue_number raw index)
  parse_close-Each raw index k =
      and_then-Each (IsNumberOf raw.issue_number) (IsOf (entry raw)) _ _
        (read_positive_integer-Each raw.issue_number _) λ n h. (k, h)

  parse_comment-Each :
      (raw : RawAction) (index : ℕ)
      → has_kind (codes "comment") raw.kind ≡ true
      → Each (IsOf (entry raw)) (parse_comment source_issue_number raw index)
  parse_comment-Each raw index k =
      and_then-Each (IsKindOf raw.target_kind) (IsOf (entry raw)) _ _
        (read_target_kind-Each raw.target_kind _)
        λ target t.
          and_then-Each (IsNumberOf raw.target_number) (IsOf (entry raw)) _ _
            (read_positive_integer-Each raw.target_number _)
            λ n h.
              by_test (Each (IsOf (entry raw))) (is_issue target && n == source_issue_number)
                (λ _. tt)
                λ other.
                  and_then-Each (IsTextOf raw.body) (IsOf (entry raw)) _ _
                    (read_non_empty_string-Each raw.body _) λ body b. (k, t, h, other, b)

  parse_additional_action-Each :
      (raw : RawEntry) (index : ℕ)
      → Each (IsOf raw) (parse_additional_action source_issue_number raw index)
  unfolding parse_additional_action
  parse_additional_action-Each not_object index = tt
  parse_additional_action-Each (entry raw) index =
      by_test (Each (IsOf (entry raw))) (has_kind (codes "create_issue") raw.kind)
        (parse_create-Each raw index)
        λ _.
          by_test (Each (IsOf (entry raw))) (has_kind (codes "close_issue") raw.kind)
            (parse_close-Each raw index)
            λ _.
              by_test (Each (IsOf (entry raw))) (has_kind (codes "comment") raw.kind)
                (parse_comment-Each raw index) (λ _. tt)

  parse_actions-Each :
      (entries : List RawEntry) (index : ℕ)
      → Each (AreOf entries) (parse_actions source_issue_number entries index)
  unfolding parse_actions
  parse_actions-Each [] index = tt
  parse_actions-Each (raw ∷ entries) index =
      and_then-Each (IsOf raw) (AreOf (raw ∷ entries)) _ _ (parse_additional_action-Each raw index)
        λ action h.
          and_then-Each (AreOf entries) (AreOf (raw ∷ entries)) _ _
            (parse_actions-Each entries (suc index)) λ actions hs. (h, hs)

  -- The list of the actions is there.
  abbrev AreListed : Option (List RawEntry) → List ReplyAdditionalAction → Type 0
  AreListed none actions = ⊥
  AreListed (some entries) actions = AreOf entries actions

  parse_action_list-Each :
      (raw : Option (List RawEntry))
      → Each (AreListed raw) (parse_action_list source_issue_number raw)
  parse_action_list-Each none = tt
  parse_action_list-Each (some entries) = parse_actions-Each entries 0

  abbrev pub Sound : RawOutput → IssueCommentReplyEnvelope → Type 0
  Sound not_json e = ⊥
  Sound not_record e = ⊥
  Sound (envelope raw) e =
      IsTextOf raw.raw_reply e.reply_comment
      × IsTextOf raw.raw_reasoning e.reasoning
      × AreListed raw.raw_actions e.additional_actions

  -- An envelope that is accepted is read off the output: its reply and its reasoning are the trimmed
  -- texts of their fields, neither of them blank, and its actions are those of the entries of the
  -- list, one for each and in order. An action has the kind that its entry names, trimmed texts that
  -- are not blank, and positive numbers. A comment with the target kind of an issue has another
  -- number than the source issue; one with the target kind of a pull request may have that number.
  pub parse_issue_comment_reply_envelope-Sound :
      (raw : RawOutput)
      → Each (Sound raw) (parse_issue_comment_reply_envelope source_issue_number raw)
  unfolding parse_issue_comment_reply_envelope
  parse_issue_comment_reply_envelope-Sound not_json = tt
  parse_issue_comment_reply_envelope-Sound not_record = tt
  parse_issue_comment_reply_envelope-Sound (envelope raw) =
      and_then-Each (IsTextOf raw.raw_reply) (Sound (envelope raw)) _ _
        (read_non_empty_string-Each raw.raw_reply _)
        λ reply r.
          and_then-Each (IsTextOf raw.raw_reasoning) (Sound (envelope raw)) _ _
            (read_non_empty_string-Each raw.raw_reasoning _)
            λ reasoning q.
              and_then-Each (AreListed raw.raw_actions) (Sound (envelope raw)) _ _
                (parse_action_list-Each raw.raw_actions) λ actions h. (r, q, h)
