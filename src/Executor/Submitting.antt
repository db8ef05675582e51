-- ===== src/Executor/Submitting.antt =====
-- The submissions of adoption_executor.py on a known row, which no other session changes.
use proxmox_cloudstack_sync.Base.{ℕ, String, ◌≡◌, ap, sym, ◌∙◌, subst, Option, none, some}
use proxmox_cloudstack_sync.Json.{Json}
use proxmox_cloudstack_sync.Outcome.{object_deleted}
use proxmox_cloudstack_sync.Store.{Execution, ExecutionState}
use proxmox_cloudstack_sync.Session.{Exec, ◌>>=◌}
use proxmox_cloudstack_sync.Executor.Client.{caught}
use proxmox_cloudstack_sync.Executor.Commit.{refreshed, flushed}
use proxmox_cloudstack_sync.Executor.Submit.{
  Submission, submission_failed, submission_target, submission_answered, submission_settled,
  guarded_call, submit_loaded, submit,
}
use proxmox_cloudstack_sync.Executor.Life.{Step}
use proxmox_cloudstack_sync.Executor.From.{
  Stays, From, From-bind, Stays-bind, Stays-lift, Stays-assert_lease,
}
use proxmox_cloudstack_sync.Executor.Sets.{
  From-Sets, From-refreshed, commit_current-Sets, commit_public-From,
}
use proxmox_cloudstack_sync.Executor.Calls.{Stays-caught, From-caught-refreshed}

-- The state that a submission announces, and the steps from there.
pub record IsSubmission (s : Submission) (from : ExecutionState) (e : Execution) : Type 0 where
  pub announces : Step e.state (s.announce e).state
  pub announced : (now : ℕ) → (flushed e (s.announce e) now e).state ≡ from
  pub unknown : (f : Execution) → Step from (s.unknown f).state
  pub without_job : (f : Execution) → Step from (s.without_job f).state
  pub with_job : (job : String) (f : Execution) → Step from (s.with_job job f).state

module _ (id : String) (write_guard : Exec (Unit {0})) (guarded : Stays id write_guard)
    (lease : String) (s : Submission) (calls : (e : Execution) → Stays id (s.call e)) where
  Stays-guarded_call : (e : Execution) → Stays id (guarded_call write_guard lease s e)
  unfolding guarded_call
  Stays-guarded_call e = Stays-bind id _ _ (Stays-assert_lease id e.id lease) λ _. calls e

  module _ (from : ExecutionState) (e : Execution) (is_submission : IsSubmission s from e) where
    module _ (f : Execution) (named : f.id ≡ id) (at : f.state ≡ from) where
      target-Step :
          (job : Option String) → Step f.state (submission_target write_guard lease s f job).state
      unfolding submission_target
      target-Step none =
          subst (λ x. Step x (s.without_job f).state) (sym at) (is_submission.without_job f)
      target-Step (some job) =
          subst (λ x. Step x (s.with_job job f).state) (sym at) (is_submission.with_job job f)

      failed-From : From id f (submission_failed write_guard lease s f)
      unfolding submission_failed
      failed-From = From-bind id f _ _ (Stays-assert_lease id f.id lease) λ _.
          commit_public-From id f (s.unknown f) named
            (subst (λ x. Step x (s.unknown f).state) (sym at) (is_submission.unknown f)) write_guard
            guarded lease

      settled-From : (r : Option Json) → From id f (submission_settled write_guard lease s f r)
      unfolding submission_settled submission_answered
      settled-From none = failed-From
      settled-From (some response) = From-bind id f _ _ (Stays-assert_lease id f.id lease) λ _.
          From-bind id f _ _ (Stays-lift id _) λ job.
            commit_public-From id f (submission_target write_guard lease s f job) named
              (target-Step job) write_guard guarded lease

      unread-From : From id f (submit_loaded write_guard lease s id none)
      unfolding submit_loaded
      unread-From = From-refreshed id f object_deleted _ failed-From

      read-From : From id f (submit_loaded write_guard lease s id (some f))
      unfolding submit_loaded
      read-From = From-bind id f _ _ (Stays-caught id _ (Stays-guarded_call f)) settled-From

    pub submit-From : e.id ≡ id → From id e (submit write_guard lease s e)
    unfolding submit flushed
    submit-From named =
        From-Sets id e _ _ _
          (commit_current-Sets id e (s.announce e) named is_submission.announces write_guard guarded
            lease)
          λ f _ (now, flush).
            let kept : f.id ≡ id = ap (λ x. x.id) flush ∙ named in
            let at : f.state ≡ from = ap (λ x. x.state) flush ∙ is_submission.announced now in
            From-bind id f _ _ guarded λ _.
              subst
                (λ i.
                  From id f
                    (caught (refreshed object_deleted i) >>= submit_loaded write_guard lease s i))
                (sym named)
                (From-caught-refreshed id f object_deleted _ (unread-From f kept at)
                  (read-From f kept at))
