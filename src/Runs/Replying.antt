-- ===== src/Runs/Replying.antt =====
-- `issueResponseStrategy`: the calls that it makes to GitHub.
use oh_my_github_runner.Prelude.{
  ℕ, zero, suc, ◌≤◌, String, ◌≡◌, refl, sym, ap, ◌∙◌, subst, not, ◌⊎◌, inl, inr, Option, none, some,
  List, [], ◌∷◌, ◌++◌, map, arith, by_test, append_assoc, ltb,
}
use oh_my_github_runner.Prelude.Action.{Action, Result, ok, err, Failure, after}
use oh_my_github_runner.Task.{TaskRecord}
use oh_my_github_runner.Commands.{Text}
use oh_my_github_runner.Replies.{
  ReplyAdditionalAction, IssueCommentReplyEnvelope, Receipt, Parsed, accepted, refused, is_issue,
  parse_issue_comment_reply_envelope,
}
use oh_my_github_runner.Replies.Envelopes.{parse_issue_comment_reply_envelope-Sound, Each, Sound}
use oh_my_github_runner.Toolkit.{
  Workspace, AiRunResult, ai_succeeded, ai_failed, ai_limited, prepare_observe, dispose,
}
use oh_my_github_runner.Runs.{
  RunOptions, RunState, ReplyCall, reply_call, FinalReply, StrategyResult, strategy_succeeded,
  strategy_failed, strategy_limited, call_of, receipt_of, record_call, on_toolkit, throw_if_aborted,
  dispatch_action, add_receipt, dispatch_actions, attempt_ended, post_source_reply, reply_ended,
  answer_envelope, answer_parsed, answer, scope_ended, using_workspace, run_ai, response_options,
  respond_in_context, respond_in_workspace, get_context, run_issue_response,
  source_reply_max_attempts,
}

append-nil_lem {ℓ} : {A : Type ℓ} (xs : List A) → xs ++ [] ≡ xs
append-nil_lem [] = refl
append-nil_lem (x ∷ xs) = ap (λ r. x ∷ r) (append-nil_lem xs)

abbrev repeat : ℕ → ReplyCall → List ReplyCall
repeat zero call = []
repeat (suc n) call = call ∷ repeat n call

-- A receipt of an action, by some answer of GitHub.
abbrev pub IsReceipt : ReplyAdditionalAction → Receipt → Type 0
IsReceipt action receipt = (answer : Result ℕ) × (receipt ≡ receipt_of action answer)

-- One receipt for each action, in order.
abbrev pub Matched : List ReplyAdditionalAction → List Receipt → Type 0
Matched [] [] = Unit
Matched [] (_ ∷ _) = ⊥
Matched (_ ∷ _) [] = ⊥
Matched (action ∷ actions) (receipt ∷ receipts) =
    IsReceipt action receipt × Matched actions receipts

module _ {C : Type 0} (options : RunOptions C) (task : TaskRecord) where
  abbrev source : ℕ
  source = task.source.number

  -- A run that succeeds has tried to reply.
  abbrev pub Tried : ℕ → Result StrategyResult → Type 0
  Tried attempts (ok strategy_succeeded) = 1 ≤ attempts
  Tried attempts (ok (strategy_failed e)) = Unit
  Tried attempts (ok (strategy_limited tools)) = Unit
  Tried attempts (err e) = Unit

  -- A reply comes after all actions, with one receipt for each.
  abbrev pub Complete :
      ℕ → List ReplyAdditionalAction → List ReplyAdditionalAction → List Receipt → Type 0
  Complete zero actions rest receipts = Unit
  Complete (suc n) actions rest receipts = (rest ≡ []) × Matched actions receipts

  -- What an accepted envelope adds to the calls: its actions, or the first ones of them, each once
  -- and in order, and then some attempts of its reply.
  pub record IsActed (e : IssueCommentReplyEnvelope) (before : List ReplyCall)
      (result : Result StrategyResult) (calls : List ReplyCall) : Type 0 where
    pub done : List ReplyAdditionalAction
    pub rest : List ReplyAdditionalAction
    pub receipts : List Receipt
    pub attempts : ℕ
    pub are_actions : done ++ rest ≡ e.additional_actions
    pub few : attempts ≤ 3
    pub is_complete : Complete attempts e.additional_actions rest receipts
    pub is_tried : Tried attempts result
    pub are_calls :
        calls
        ≡ before
          ++ (map call_of done
              ++ repeat attempts (
                  reply_call source
                    (record { reply_comment = e.reply_comment; receipts = receipts })))

  -- The envelope is read off the output that the model gave for the prompt of the strategy.
  pub record IsAnswer (e : IssueCommentReplyEnvelope) : Type 0 where
    pub context : C
    pub asked_at : RunState C
    pub stdout : Text
    pub is_output :
        (run_ai options task (response_options options task context) asked_at).0
        ≡ ok (ai_succeeded stdout)
    pub is_accepted :
        parse_issue_comment_reply_envelope source (options.parse_json stdout) ≡ accepted e
    pub is_sound : Sound source (options.parse_json stdout) e

  -- Either nothing is sent, and the run does not succeed, or an envelope is acted on.
  abbrev pub IsReplying : List ReplyCall → Result StrategyResult → List ReplyCall → Type 0
  IsReplying before result calls =
      ((calls ≡ before) × Tried 0 result)
      ⊎ ((e : IssueCommentReplyEnvelope) × IsAnswer e × IsActed e before result calls)

  -- As `IsReplying`, of the end of a part of the run.
  abbrev Replies : List ReplyCall → Result StrategyResult × RunState C → Type 0
  Replies before r = IsReplying before r.0 r.1.calls

  after-Replies :
      {A : Type 0} (before : List ReplyCall) (m : Result A × RunState C)
      (f : A → Action (RunState C) StrategyResult)
      → m.1.calls ≡ before
      → ((a : A) (s : RunState C) → m.0 ≡ ok a → s.calls ≡ before → Replies before (f a s))
      → Replies before (after m f)
  after-Replies before (ok a, s) f e k = k a s refl e
  after-Replies before (err x, s) f e k = inl (e, tt)

  throw_if_aborted-calls : (s : RunState C) → (throw_if_aborted options task s).1.calls ≡ s.calls
  throw_if_aborted-calls s =
      by_test (λ (r : Result (Unit {0}) × RunState C). r.1.calls ≡ s.calls) (options.aborted s)
        (λ _. refl) (λ _. refl)

  abbrev Did : List ReplyAdditionalAction → RunState C → Result (List Receipt) × RunState C → Type 0
  Did actions s (ok receipts, s') =
      (s'.calls ≡ s.calls ++ map call_of actions) × Matched actions receipts
  Did actions s (err e, s') =
      (done : List ReplyAdditionalAction) × (rest : List ReplyAdditionalAction) × (done ++ rest
        ≡ actions)
      × (s'.calls ≡ s.calls ++ map call_of done)

  one_more :
      (action : ReplyAdditionalAction) (actions : List ReplyAdditionalAction) (s : RunState C)
      (r : Result (List Receipt) × RunState C)
      → Did actions (dispatch_action options task action s).1 r
      → Did
          (action ∷ actions)
          s
          (add_receipt options task (dispatch_action options task action s).0 r)
  one_more action actions s (ok receipts, s') (e, matched) =
      (e ∙ append_assoc s.calls (call_of action ∷ []) _, ((_, refl), matched))
  one_more action actions s (err x, s') (done, rest, whole, e) = (
    action ∷ done,
    rest,
    ap (λ r. action ∷ r) whole,
    e ∙ append_assoc s.calls (call_of action ∷ []) _,
  )

  dispatch_actions-Did :
      (actions : List ReplyAdditionalAction) (s : RunState C)
      → Did actions s (dispatch_actions options task actions s)
  unfolding dispatch_actions
  dispatch_actions-Did [] s = (sym (append-nil_lem s.calls), tt)
  dispatch_actions-Did (action ∷ actions) s =
      by_test (Did (action ∷ actions) s) (options.aborted s)
        (λ _. ([], action ∷ actions, refl, sym (append-nil_lem s.calls)))
        (λ _. one_more action actions s _ (dispatch_actions-Did actions _))

  -- Some attempts, at least one if the last one succeeds.
  abbrev Reported : ℕ → Result (Option Failure) → Type 0
  Reported n (ok none) = 1 ≤ n
  Reported n (ok (some e)) = Unit
  Reported n (err e) = Unit

  abbrev Posted : ℕ → FinalReply → RunState C → Result (Option Failure) × RunState C → Type 0
  Posted left reply s (r, s') =
      (n : ℕ) × (n ≤ left)
      × Reported n r
      × (s'.calls ≡ s.calls ++ repeat n (reply_call source reply))

  Reported-suc : (n : ℕ) (r : Result (Option Failure)) → Reported n r → Reported (suc n) r
  Reported-suc n (ok none) h = omega (arith, h)
  Reported-suc n (ok (some e)) h = tt
  Reported-suc n (err e) h = tt

  attempt_ended-Posted :
      (left attempt : ℕ) (reply : FinalReply) (s : RunState C)
      (again : Failure → Result (Option Failure) × RunState C) (r : Result ℕ)
      → ((e : Failure) → Posted left reply (record_call (reply_call source reply) s) (again e))
      → Posted
          (suc left)
          reply
          s
          (attempt_ended options task attempt again r (record_call (reply_call source reply) s))
  attempt_ended-Posted left attempt reply s again (ok n) h =
      by_test (λ (s' : RunState C). Posted (suc left) reply s (ok none, s')) (ltb 1 attempt)
        (λ _. (1, omega arith, omega arith, refl)) (λ _. (1, omega arith, omega arith, refl))
  attempt_ended-Posted left attempt reply s again (err e) h =
      let (n, few, reported, calls) = h e in
      (
        suc n,
        omega (arith, few),
        Reported-suc n (again e).0 reported,
        calls ∙ append_assoc s.calls (reply_call source reply ∷ []) _,
      )

  -- An attempt is left, or there is an error to report.
  abbrev Ready : ℕ → Option Failure → Type 0
  Ready left none = 1 ≤ left
  Ready left (some e) = Unit

  none_left : (last : Option Failure) → Ready 0 last → Reported 0 (ok last)
  none_left none h = h
  none_left (some e) h = tt

  post_source_reply-Posted :
      (left attempt : ℕ) (last : Option Failure) (reply : FinalReply) (s : RunState C)
      → Ready left last
      → Posted left reply s (post_source_reply options task left attempt last reply s)
  unfolding post_source_reply
  post_source_reply-Posted zero attempt last reply s ready =
      (0, omega arith, none_left last ready, sym (append-nil_lem s.calls))
  post_source_reply-Posted (suc left) attempt last reply s ready =
      by_test (Posted (suc left) reply s) (options.aborted s)
        (λ _. (0, omega arith, tt, sym (append-nil_lem s.calls)))
        (λ _.
          attempt_ended-Posted left attempt reply s _ _
            λ e. post_source_reply-Posted left (suc attempt) (some e) reply _ tt)

  reply_ended-calls :
      (reply : FinalReply) (m : Result (Option Failure) × RunState C)
      → (after m (reply_ended options task reply)).1.calls ≡ m.1.calls
  reply_ended-calls reply (ok none, s) = refl
  reply_ended-calls reply (ok (some e), s) = refl
  reply_ended-calls reply (err e, s) = refl

  reply_ended-Tried :
      (n : ℕ) (reply : FinalReply) (m : Result (Option Failure) × RunState C)
      → Reported n m.0
      → Tried n (after m (reply_ended options task reply)).0
  reply_ended-Tried n reply (ok none, s) h = h
  reply_ended-Tried n reply (ok (some e), s) h = tt
  reply_ended-Tried n reply (err e, s) h = tt

  reply_with : IssueCommentReplyEnvelope → List Receipt → Action (RunState C) StrategyResult
  reply_with e receipts s =
      after
        (post_source_reply options task source_reply_max_attempts 1 none
          (record { reply_comment = e.reply_comment; receipts = receipts }) s)
        (reply_ended options task (record { reply_comment = e.reply_comment; receipts = receipts }))

  all_done :
      (n : ℕ) (actions : List ReplyAdditionalAction) (receipts : List Receipt)
      → Matched actions receipts
      → Complete n actions [] receipts
  all_done zero actions receipts h = tt
  all_done (suc n) actions receipts h = (refl, h)

  envelope-IsActed :
      (e : IssueCommentReplyEnvelope) (s : RunState C) (r : Result (List Receipt) × RunState C)
      → Did e.additional_actions s r
      → IsActed e s.calls (after r (reply_with e)).0 (after r (reply_with e)).1.calls
  unfolding reply_with
  envelope-IsActed e s (ok receipts, s') (calls, matched) =
      let reply : FinalReply = record { reply_comment = e.reply_comment; receipts = receipts } in
      let (n, few, reported, posted) =
        post_source_reply-Posted source_reply_max_attempts 1 none reply s' (omega arith) in
      record {
        done = e.additional_actions;
        rest = [];
        receipts = receipts;
        attempts = n;
        are_actions = append-nil_lem e.additional_actions;
        few = few;
        is_complete = all_done n e.additional_actions receipts matched;
        is_tried = reply_ended-Tried n reply _ reported;
        are_calls =
            reply_ended-calls reply _
            ∙ posted
            ∙ ap (λ c. c ++ repeat n (reply_call source reply)) calls
            ∙ append_assoc s.calls (map call_of e.additional_actions) _;
      }
  envelope-IsActed e s (err x, s') (done, rest, whole, calls) = record {
    done = done;
    rest = rest;
    receipts = [];
    attempts = 0;
    are_actions = whole;
    few = omega arith;
    is_complete = tt;
    is_tried = tt;
    are_calls = calls ∙ ap (λ r. s.calls ++ r) (sym (append-nil_lem (map call_of done)));
  }

  answer_envelope-IsActed :
      (e : IssueCommentReplyEnvelope) (s : RunState C)
      → IsActed e s.calls
          (answer_envelope options task e s).0
          (answer_envelope options task e s).1.calls
  unfolding reply_with
  answer_envelope-IsActed e s = envelope-IsActed e s _ (dispatch_actions-Did e.additional_actions s)

  module _ (context : C) (s0 : RunState C) where
    -- What the model answers the prompt of the strategy.
    abbrev asked : Result AiRunResult
    asked = (run_ai options task (response_options options task context) s0).0

    answer_parsed-Replies :
        (stdout : Text) (parsed : Parsed IssueCommentReplyEnvelope) (s : RunState C)
        → asked ≡ ok (ai_succeeded stdout)
        → parse_issue_comment_reply_envelope source (options.parse_json stdout) ≡ parsed
        → Each (Sound source (options.parse_json stdout)) parsed
        → Replies s.calls (answer_parsed options task parsed s)
    answer_parsed-Replies stdout (accepted e) s output parsed sound = inr (
      e,
      record {
        context = context;
        asked_at = s0;
        stdout = stdout;
        is_output = output;
        is_accepted = parsed;
        is_sound = sound;
      },
      answer_envelope-IsActed e s,
    )
    answer_parsed-Replies stdout (refused x) s output parsed sound = inl (refl, tt)

    answer-Replies :
        (result : AiRunResult) (s : RunState C)
        → asked ≡ ok result
        → Replies s.calls (answer options task result s)
    answer-Replies (ai_succeeded stdout) s output =
        answer_parsed-Replies stdout _ s output refl
          (parse_issue_comment_reply_envelope-Sound source (options.parse_json stdout))
    answer-Replies (ai_failed failure) s output = inl (refl, tt)
    answer-Replies (ai_limited tool_name) s output = inl (refl, tt)

  module _ (before : List ReplyCall) where
    -- A part of the run that starts with the calls of before.
    abbrev Starts : Action (RunState C) StrategyResult → Type 0
    Starts m = (s : RunState C) → s.calls ≡ before → Replies before (m s)

    respond_in_context-Starts :
        (context : C) (head : Option String) → Starts (respond_in_context options task context head)
    respond_in_context-Starts context (some head) s e = inl (e, tt)
    respond_in_context-Starts context none s e =
        after-Replies before (throw_if_aborted options task s) _ (throw_if_aborted-calls s ∙ e)
          λ _ s1 _ e1.
            after-Replies before (run_ai options task (response_options options task context) s1) _
              e1
              λ result s2 output e2.
                subst (λ b. Replies b (answer options task result s2)) e2
                  (answer-Replies context s1 result s2 output)

    respond-Starts : Starts (respond_in_workspace options task)
    respond-Starts s e =
        after-Replies before (throw_if_aborted options task s) _ (throw_if_aborted-calls s ∙ e)
          λ _ s1 _ e1.
            after-Replies before (get_context options task s1) _ e1
              λ context s2 _ e2. respond_in_context-Starts context _ s2 e2

    untried :
        (x : Failure) (e : IssueCommentReplyEnvelope) (result : Result StrategyResult)
        (calls : List ReplyCall)
        → IsActed e before result calls
        → IsActed e before (err x) calls
    untried x e result calls h = record {
      done = h.done;
      rest = h.rest;
      receipts = h.receipts;
      attempts = h.attempts;
      are_actions = h.are_actions;
      few = h.few;
      is_complete = h.is_complete;
      is_tried = tt;
      are_calls = h.are_calls;
    }

    ended-IsReplying :
        (result : Result StrategyResult) (calls : List ReplyCall)
        (r : Result (Unit {0}) × RunState C)
        → r.1.calls ≡ calls
        → IsReplying before result calls
        → Replies before (scope_ended options task result r)
    ended-IsReplying result calls (ok _, s) same h = subst (IsReplying before result) (sym same) h
    ended-IsReplying result calls (err x, s) same (inl (e, _)) = inl (same ∙ e, tt)
    ended-IsReplying result calls (err x, s) same (inr (e, answer, acted)) =
        subst (IsReplying before (err x)) (sym same)
          (inr (e, answer, untried x e result calls acted))

    using_workspace-Starts :
        (w : Workspace)
        → Starts (using_workspace options task w (respond_in_workspace options task))
    using_workspace-Starts w s e =
        ended-IsReplying (respond_in_workspace options task s).0
          (respond_in_workspace options task s).1.calls
          (on_toolkit (dispose options.toolkit_options task options.declared w)
            (respond_in_workspace options task s).1)
          refl (respond-Starts s e)

  -- The calls of an issue response, however it ends. Either it sends nothing and does not succeed, or
  -- the model answered the strategy's prompt with an envelope that the parser accepts, and the run
  -- adds the calls of that envelope: its actions, each once and in order, and then at most three
  -- attempts to post its reply to the source issue, with one receipt for each action, in order. If
  -- there is an attempt, no action was left out; otherwise the actions may be the first ones of the
  -- envelope. A run that succeeds has tried to reply. The envelope is read off the output as
  -- `parse_issue_comment_reply_envelope-Sound` states.
  pub run_issue_response-IsReplying :
      (s : RunState C)
      → IsReplying s.calls
          (run_issue_response options task s).0
          (run_issue_response options task s).1.calls
  unfolding run_issue_response
  run_issue_response-IsReplying s =
      by_test (Replies s.calls) (not (is_issue task.source.kind)) (λ _. inl (refl, tt))
        λ _.
          after-Replies s.calls (throw_if_aborted options task s) _ (throw_if_aborted-calls s)
            λ _ s1 _ e1.
              after-Replies s.calls
                (on_toolkit (prepare_observe options.toolkit_options task none) s1) _ e1
                λ w s2 _ e2. using_workspace-Starts s.calls w s2 e2
