-- ===== src/Replies.antt =====
-- src/strategies/_shared/reply-actions.ts: the envelope that the model answers with, its actions,
-- and the receipts of what was done. A field of the parsed JSON is a text, an integer that is not
-- negative, or anything else, which includes a missing field. Errors and receipts are constructors
-- in place of texts.
pub mod Envelopes
mod Tests
use oh_my_github_runner.Prelude.{
  ℕ, suc, String, Bool, true, false, ◌&&◌, not, Option, none, some, List, [], ◌∷◌, if◌then◌else◌,
  ◌==◌, leb, codes,
}
use oh_my_github_runner.Prelude.Action.{Failure}
use oh_my_github_runner.Task.{SourceKind, issue, pull_request}
use oh_my_github_runner.Commands.{Text, trim, is_empty, same_text}

pub data ReplyAdditionalAction : Type 0 where
  create_issue : (title body : Text) → ReplyAdditionalAction
  close_issue : ℕ → ReplyAdditionalAction
  comment : SourceKind → ℕ → (body : Text) → ReplyAdditionalAction

pub record IssueCommentReplyEnvelope : Type 0 where
  pub reply_comment : Text
  pub additional_actions : List ReplyAdditionalAction
  pub reasoning : Text

pub data JsonField : Type 0 where
  text_field : Text → JsonField
  integer_field : ℕ → JsonField
  other_field : JsonField

pub record RawAction : Type 0 where
  pub kind : JsonField
  pub title : JsonField
  pub body : JsonField
  pub issue_number : JsonField
  pub target_kind : JsonField
  pub target_number : JsonField

pub data RawEntry : Type 0 where
  not_object : RawEntry
  entry : RawAction → RawEntry

-- `raw_actions` is absent when the field is not an array.
pub record RawEnvelope : Type 0 where
  pub raw_reply : JsonField
  pub raw_reasoning : JsonField
  pub raw_actions : Option (List RawEntry)

-- What `JSON.parse` makes of the output.
pub data RawOutput : Type 0 where
  not_json not_record : RawOutput
  envelope : RawEnvelope → RawOutput

pub data FieldName : Type 0 where
  reply_comment_field reasoning_field : FieldName
  title_field body_field issue_number_field target_kind_field target_number_field : ℕ → FieldName

pub data ReplyError : Type 0 where
  json_expected object_expected array_expected : ReplyError
  non_empty_expected positive_expected target_expected : FieldName → ReplyError
  action_object_expected unsupported_kind : ℕ → ReplyError
  source_issue_target : ReplyError

pub data Parsed (A : Type 0) : Type 0 where
  accepted : A → Parsed A
  refused : ReplyError → Parsed A

-- A `throw` ends the parse.
abbrev pub and_then : {A B : Type 0} → Parsed A → (A → Parsed B) → Parsed B
and_then (accepted a) f = f a
and_then (refused e) f = refused e

unfoldable pub read_non_empty_string : JsonField → FieldName → Parsed Text
read_non_empty_string (text_field value) field =
    if is_empty (trim value) then refused (non_empty_expected field) else accepted (trim value)
read_non_empty_string (integer_field n) field = refused (non_empty_expected field)
read_non_empty_string other_field field = refused (non_empty_expected field)

unfoldable pub read_positive_integer : JsonField → FieldName → Parsed ℕ
read_positive_integer (integer_field n) field =
    if leb 1 n then accepted n else refused (positive_expected field)
read_positive_integer (text_field value) field = refused (positive_expected field)
read_positive_integer other_field field = refused (positive_expected field)

unfoldable pub read_target_kind : JsonField → FieldName → Parsed SourceKind
read_target_kind (text_field value) field =
    if same_text value (codes "issue")
    then accepted issue
    else if same_text value (codes "pull_request")
    then accepted pull_request
    else refused (target_expected field)
read_target_kind (integer_field n) field = refused (target_expected field)
read_target_kind other_field field = refused (target_expected field)

abbrev pub is_issue : SourceKind → Bool
is_issue issue = true
is_issue pull_request = false

abbrev pub has_kind : Text → JsonField → Bool
has_kind name (text_field value) = same_text value name
has_kind name (integer_field n) = false
has_kind name other_field = false

module _ (source_issue_number : ℕ) where
  abbrev pub parse_create : RawAction → ℕ → Parsed ReplyAdditionalAction
  parse_create raw index = and_then (read_non_empty_string raw.title (title_field index)) λ title.
      and_then (read_non_empty_string raw.body (body_field index))
        λ body. accepted (create_issue title body)

  abbrev pub parse_close : RawAction → ℕ → Parsed ReplyAdditionalAction
  parse_close raw index =
      and_then (read_positive_integer raw.issue_number (issue_number_field index))
        λ number. accepted (close_issue number)

  abbrev pub parse_comment : RawAction → ℕ → Parsed ReplyAdditionalAction
  parse_comment raw index =
      and_then (read_target_kind raw.target_kind (target_kind_field index)) λ target_kind.
        and_then (read_positive_integer raw.target_number (target_number_field index)) λ number.
          if is_issue target_kind && number == source_issue_number
          then refused source_issue_target
          else and_then (read_non_empty_string raw.body (body_field index))
              λ body. accepted (comment target_kind number body)

  unfoldable pub parse_additional_action : RawEntry → ℕ → Parsed ReplyAdditionalAction
  parse_additional_action not_object index = refused (action_object_expected index)
  parse_additional_action (entry raw) index =
      if has_kind (codes "create_issue") raw.kind
      then parse_create raw index
      else if has_kind (codes "close_issue") raw.kind
      then parse_close raw index
      else if has_kind (codes "comment") raw.kind
      then parse_comment raw index
      else refused (unsupported_kind index)

  -- The `map` over the entries, from an index on.
  unfoldable pub parse_actions : List RawEntry → ℕ → Parsed (List ReplyAdditionalAction)
  parse_actions [] index = accepted []
  parse_actions (raw ∷ entries) index =
      let rest = parse_actions entries (suc index) in
      and_then (parse_additional_action raw index)
        λ action. and_then rest λ actions. accepted (action ∷ actions)

  abbrev pub parse_action_list : Option (List RawEntry) → Parsed (List ReplyAdditionalAction)
  parse_action_list none = refused array_expected
  parse_action_list (some entries) = parse_actions entries 0

  unfoldable pub parse_issue_comment_reply_envelope : RawOutput → Parsed IssueCommentReplyEnvelope
  parse_issue_comment_reply_envelope not_json = refused json_expected
  parse_issue_comment_reply_envelope not_record = refused object_expected
  parse_issue_comment_reply_envelope (envelope raw) =
      and_then (read_non_empty_string raw.raw_reply reply_comment_field) λ reply.
        and_then (read_non_empty_string raw.raw_reasoning reasoning_field) λ reasoning.
          and_then (parse_action_list raw.raw_actions) λ actions.
            accepted (record {
              reply_comment = reply;
              additional_actions = actions;
              reasoning = reasoning;
            })

-- A receipt of a created issue carries its number.
pub data Receipt : Type 0 where
  opened_receipt : Option ℕ → (title : Text) → Receipt
  closed_receipt : ℕ → Receipt
  commented_receipt : SourceKind → ℕ → Receipt
  failed_receipt : ReplyAdditionalAction → Failure → Receipt

unfoldable pub format_succeeded_action_receipt : ReplyAdditionalAction → Option ℕ → Receipt
format_succeeded_action_receipt (create_issue title body) number = opened_receipt number title
format_succeeded_action_receipt (close_issue n) number = closed_receipt n
format_succeeded_action_receipt (comment target_kind n body) number =
    commented_receipt target_kind n

unfoldable pub format_failed_action_receipt : ReplyAdditionalAction → Failure → Receipt
format_failed_action_receipt action e = failed_receipt action e
