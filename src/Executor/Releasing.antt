-- ===== src/Executor/Releasing.antt =====
-- `_finalize_cleanup_release` of adoption_executor.py on a known row, which no other session
-- changes.
use proxmox_cloudstack_sync.Base.{
  ℕ, zero, suc, String, ◌≡◌, refl, Bool, true, Option, none, some, ◌==◌, ◌&&◌, Bool-cases, and-true,
  inl, inr, str_eq,
}
use proxmox_cloudstack_sync.Outcome.{no_result_found}
use proxmox_cloudstack_sync.Store.{Db, Claim, Execution, ExecutionState, execution_by_id}
use proxmox_cloudstack_sync.Store.Rows.{count, update}
use proxmox_cloudstack_sync.Session.{Exec, pure}
use proxmox_cloudstack_sync.Executor.Finalize.{
  is_cleaning, releasable, released_row, completable, completed_row, both_rows, release_write,
  release_verdict, try_release, release_checked, release_attempts, finalize_cleanup_release,
}
use proxmox_cloudstack_sync.Executor.Life.{
  roll_back, IsCleaning, submitting, authorized, submitted, Change,
}
use proxmox_cloudstack_sync.Store.ExecutionState.{
  cleanup_submitting, cleanup_submitted, cleanup_authorized,
}
use proxmox_cloudstack_sync.Executor.From.{
  Stays, From, From-bind, From-Stays, From-if, Stays-query, Stays-raise, Stays-pure, Stays-lift,
  Stays-guard, Stays-current_time, Stays-refreshed,
}
use proxmox_cloudstack_sync.Executor.Writes.{
  CommitRow, updated_row, From-transact, From-attempt, From-then,
}

is_cleaning-IsCleaning : (s : ExecutionState) → is_cleaning s ≡ true → IsCleaning s
unfolding is_cleaning
is_cleaning-IsCleaning cleanup_submitting h = submitting
is_cleaning-IsCleaning cleanup_authorized h = authorized
is_cleaning-IsCleaning cleanup_submitted h = submitted
is_cleaning-IsCleaning _ h = cc

completable-cleaning :
    (id claim_id : String) (generation : ℕ) (lease : String) (e : Execution)
    → completable id claim_id generation lease e ≡ true
    → is_cleaning e.state ≡ true
unfolding completable
completable-cleaning id claim_id generation lease e h =
    let (_, a) = and-true (str_eq e.id id) _ h in
    let (_, b) = and-true (str_eq e.claim_id claim_id) _ a in
    let (_, c) = and-true (e.generation == generation) _ b in (and-true (is_cleaning e.state) _ c).0

module _ (id : String) where
  both_rows-CommitRow :
      (claim_test : Claim → Bool) (claim_values : Claim → Claim) (test : Execution → Bool)
      (values : Execution → Execution) (db : Db) (e : Execution)
      → ((x : Execution) → test x ≡ true → Change x (values x))
      → execution_by_id id db ≡ some e
      → CommitRow id e (both_rows claim_test claim_values test values db)
  unfolding both_rows
  both_rows-CommitRow claim_test claim_values test values db e change s =
      elim (Bool-cases (count claim_test db.claims == 1 && count test db.executions == 1)) [
        | inl k ↦ rw k (
            updated_row id test values change db
              (record db {
                claims = update claim_test claim_values db.claims;
                executions = update test values db.executions;
              })
              e refl s)
        | inr k ↦ rw k tt
      ]

  release-CommitRow :
      (x : Execution) (claim_id lease : String) (now : ℕ) (db : Db) (e : Execution)
      → execution_by_id id db ≡ some e
      → CommitRow id e (release_write x claim_id lease now db)
  unfolding release_write completed_row
  release-CommitRow x claim_id lease now db e s =
      both_rows-CommitRow (releasable claim_id x.generation) (released_row now)
        (completable x.id claim_id x.generation lease) (completed_row now) db e
        (λ y k. record {
          id = refl;
          claim = refl;
          generation = refl;
          sha = refl;
          json = refl;
          state = roll_back (
              is_cleaning-IsCleaning y.state
                (completable-cleaning x.id claim_id x.generation lease y k));
        })
        s

  module _ (write_guard : Exec (Unit {0})) (guarded : Stays id write_guard)
      (key lease : String) where
    release_verdict-From :
        (e : Execution) (again : Exec Execution) (done : Option Bool)
        → From id e again
        → From id e (release_verdict write_guard key lease again done)
    unfolding release_verdict
    release_verdict-From e again none k = k
    release_verdict-From e again (some done) k =
        From-if id e _ _ _ (From-Stays id e _ (Stays-refreshed id no_result_found key))
          (From-Stays id e _ (Stays-raise id _))

    try_release-From :
        (e x : Execution) (c : Claim) → From id e (try_release write_guard key lease x c)
    unfolding try_release
    try_release-From e x c = From-attempt id e _ (
        From-then id e _ _
          (From-transact id e (release_write x c.id lease)
            (λ now db. release-CommitRow x c.id lease now db e))
          λ f done. From-Stays id f (pure (some done)) (Stays-pure id (some done)))

    release_attempts-From :
        (left : ℕ) (e : Execution) → From id e (release_attempts write_guard key lease left)
    unfolding release_attempts release_checked
    release_attempts-From zero e = From-Stays id e _ (Stays-raise id _)
    release_attempts-From (suc left) e = From-bind id e _ _ (Stays-query id _) λ row.
        From-bind id e _ _ (Stays-lift id _) λ x. From-bind id e _ _ (Stays-query id _) λ claim.
          From-bind id e _ _ (Stays-lift id _) λ c.
            From-bind id e _ _ (Stays-current_time id) λ now.
              From-if id e _ _ _ (From-Stays id e (pure x) (Stays-pure id x)) (
                From-bind id e _ _ (Stays-guard id _ _) λ _. From-bind id e _ _ guarded λ _.
                  From-then id e _ _ (try_release-From e x c)
                    λ f done. release_verdict-From f _ done (release_attempts-From left f))

    pub finalize_cleanup_release-From :
        (e : Execution) → From id e (finalize_cleanup_release write_guard key lease)
    unfolding finalize_cleanup_release
    finalize_cleanup_release-From = release_attempts-From 3
