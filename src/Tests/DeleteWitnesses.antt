-- ===== src/Tests/DeleteWitnesses.antt =====
-- The theorems on the committed state and its deletions, at two transactions of one thread.
use tulya_checkpoint_store.Prelude.{ℕ, arith, ◌≡◌, refl, ◌⊎◌, [], ◌∷◌, ok}
use tulya_checkpoint_store.Commit.Records.{checkpoint_operation_digest}
use tulya_checkpoint_store.Apply.State.{applied, replay, retired_request, default_state}
use tulya_checkpoint_store.Apply.Validate.{key_of}
use tulya_checkpoint_store.Apply.Commits.{apply_commit}
use tulya_checkpoint_store.Apply.Conditions.{WellFormed}
use tulya_checkpoint_store.Apply.Reachable.{
  Reachable, Reachable-WellFormed, start, commit, deletion,
}
use tulya_checkpoint_store.Apply.Delete.Success.{Answers, prepare_delete-Answers}
use tulya_checkpoint_store.Apply.Delete.Source.{
  validate_checkpoint_identifier, validate_delete_source_state,
}
use tulya_checkpoint_store.Apply.Delete.Ledgers.{prepare_delete_checkpoint_subtree}
use tulya_checkpoint_store.Apply.Delete.Descent.{InSubtree}
use tulya_checkpoint_store.Apply.Delete.Effect.{IsGone, IsLive, delete-Subtree}
use tulya_checkpoint_store.Apply.Delete.Replies.{Follows, delete-Follows}
use tulya_checkpoint_store.Tests.Fixtures.{checksum_sha, ascii_text, value_or, succeeds}
use tulya_checkpoint_store.Tests.Samples.{
  sample_commit, committed_state, child_checkpoint, child_commit, child_request, child_state,
  child_delete, deleted_state,
}
use tulya_checkpoint_store.Tests.CommitRuns.{commit_outcome}
use tulya_checkpoint_store.Tests.DeleteRuns.{child_runs}

child_Reachable : Reachable child_state
child_Reachable =
    commit committed_state child_commit
      (value_or (retired_request, default_state) (apply_commit committed_state child_commit)).0
      child_state
      (commit default_state sample_commit (applied 0) committed_state start commit_outcome)
      (succeeds (retired_request, default_state) (apply_commit committed_state child_commit)
        child_runs.0)

prepared :
    prepare_delete_checkpoint_subtree child_state (b't' ∷ []) (b'c' ∷ b'2' ∷ []) ≡ ok child_delete
prepared = succeeds _ _ child_runs.2

Reachable-WellFormed_example : WellFormed deleted_state
Reachable-WellFormed_example = Reachable-WellFormed deleted_state (
    deletion child_state (b't' ∷ []) (b'c' ∷ b'2' ∷ []) child_delete deleted_state child_Reachable
      prepared refl)

delete-Subtree_example :
    (InSubtree child_state.checkpoints 1 1 × IsGone deleted_state (key_of child_checkpoint))
    ⊎ ((¬ InSubtree child_state.checkpoints 1 1)
        × (m : ℕ) × IsLive deleted_state child_checkpoint m)
delete-Subtree_example =
    delete-Subtree child_state (b't' ∷ []) (b'c' ∷ b'2' ∷ []) 1 1 child_checkpoint
      (Reachable-WellFormed child_state child_Reachable) child_runs.3 prepared child_runs.4

delete-Follows_example :
    Follows child_state 1 deleted_state child_request
      (value_or [] (checkpoint_operation_digest child_checkpoint))
      (replay 1)
delete-Follows_example =
    delete-Follows child_state (b't' ∷ []) (b'c' ∷ b'2' ∷ []) 1 child_request
      (value_or [] (checkpoint_operation_digest child_checkpoint)) (replay 1)
      (Reachable-WellFormed child_state child_Reachable) child_runs.3 prepared child_runs.5

thread_valid : validate_checkpoint_identifier (b't' ∷ []) ≡ ok tt
unfolding validate_checkpoint_identifier
thread_valid = refl

checkpoint_valid : validate_checkpoint_identifier (b'c' ∷ b'2' ∷ []) ≡ ok tt
unfolding validate_checkpoint_identifier
checkpoint_valid = refl

prepare_delete-Answers_example : Answers child_state (b't' ∷ []) (b'c' ∷ b'2' ∷ [])
prepare_delete-Answers_example =
    prepare_delete-Answers child_state (b't' ∷ []) (b'c' ∷ b'2' ∷ [])
      (Reachable-WellFormed child_state child_Reachable)
      (succeeds [] (validate_delete_source_state child_state) child_runs.1) thread_valid
      checkpoint_valid (omega (arith, child_runs.6)) (omega (arith, child_runs.7))
