-- ===== src/Sticky/Bodies.antt =====
-- What the comments on a task have in common, and how long an error in them gets.
use oh_my_github_runner.Prelude.{
  ℕ, zero, suc, ◌+◌, ◌≤◌, String, ◌≡◌, refl, sym, subst, true, List, [], ◌∷◌, ◌++◌, arith, by_test,
  leb, length, take, length-append, codes, append_assoc,
}
use oh_my_github_runner.Task.{TaskRecord}
use oh_my_github_runner.Commands.{Text, starts_with, newline}
use oh_my_github_runner.Webhook.{StickyCommentMeta}
use oh_my_github_runner.Sticky.{
  lines, truncate, sticky_comment_marker, render_queued, render_failure, render_rate_limited,
  render_superseded, headed,
}

length-take-le : (n : ℕ) (cs : Text) → length (take n cs) ≤ n
length-take-le zero cs = omega arith
length-take-le (suc n) [] = omega arith
length-take-le (suc n) (c ∷ cs) = ground (arith, length-take-le n cs)

-- A truncated text has at most one unit more than the limit, for the mark at its end.
pub length-truncate-le :
    (value : Text) (max_len : ℕ) → length (truncate value max_len) ≤ max_len + 1
unfolding truncate
length-truncate-le value max_len =
    by_test (λ (r : Text). length r ≤ max_len + 1) (leb (length value) max_len)
      (λ e. ground (arith, e))
      (λ _.
        ground
          (arith, length-append (take max_len value) (codes "…"), length-take-le max_len value))

starts_with-append : (w cs : Text) → starts_with w (w ++ cs) ≡ true
unfolding starts_with
starts_with-append [] cs = refl
starts_with-append (c ∷ w) cs = ground (arith, starts_with-append w cs)

starts_with-lines :
    (first second : Text) (ts : List Text) → starts_with first (lines (first ∷ second ∷ ts)) ≡ true
starts_with-lines first second ts =
    subst (λ t. starts_with first t ≡ true)
      (sym (append_assoc first (newline ∷ []) (lines (second ∷ ts)))) (starts_with-append first _)

module _ (text_of : String → Text) (digits : ℕ → Text) where
  -- The comment that a body replaces is of the task.
  abbrev pub IsMarked : String → Text → Type 0
  IsMarked task_id body = starts_with (sticky_comment_marker text_of digits task_id) body ≡ true

  headed-IsMarked :
      (task_id : String) (heading : Text) (rest : List Text)
      → IsMarked task_id (headed text_of digits task_id heading rest)
  unfolding headed
  headed-IsMarked task_id heading rest =
      starts_with-lines (sticky_comment_marker text_of digits task_id) _ rest

  -- Every text that the comment of a task may have begins with the marker of that task.
  pub bodies-IsMarked :
      (meta : StickyCommentMeta) (task : TaskRecord) (error_summary : Text) (superseded_by : String)
      → IsMarked meta.task_id (render_queued text_of digits meta)
        × IsMarked task.task_id (render_failure text_of digits task error_summary)
        × IsMarked task.task_id (render_rate_limited text_of digits task)
        × IsMarked task.task_id (render_superseded text_of digits task superseded_by)
  unfolding render_queued render_failure render_rate_limited render_superseded
  bodies-IsMarked meta task error_summary superseded_by = (
    headed-IsMarked meta.task_id _ _,
    headed-IsMarked task.task_id _ _,
    headed-IsMarked task.task_id _ _,
    headed-IsMarked task.task_id _ _,
  )
