-- ===== src/Apply/Delete/Positions.antt =====
-- What the validation of a state before a deletion leaves: positions that index the table of the
-- checkpoints, and parents that stand before their children.
use mathlib.Core.Path.{subst}
use tulya_checkpoint_store.Prelude.{
  ℕ, suc, ◌<◌, ◌≡◌, ◌∙◌, ap, sym, arith, List, [], ◌∷◌, ◌++◌, append-nil, append_assoc, Option,
  none, some, false, leb→lt, length, length-append, get_elem?, ok, reject, bind_inv, then_inv,
  reject_inv, ok_or_inv,
}
use tulya_checkpoint_store.Publication.Records.{CheckpointRecord}
use tulya_checkpoint_store.Apply.Maps.{lookup, insert, contains, is_some}
use tulya_checkpoint_store.Apply.State.{CheckpointKey, same_key, CommittedState}
use tulya_checkpoint_store.Apply.Validate.{key_of}
use tulya_checkpoint_store.Apply.Conditions.{
  IsIndex, IsRooted, not_some, insert-IsIndex, append-IsRooted,
}
use tulya_checkpoint_store.Apply.Delete.Source.{
  validate_checkpoint_identifier, validate_parent_identifier, validate_prior_parent, position_of,
  positions_from,
}

-- Two places of one key are one place.
pub same_place :
    (positions : List (CheckpointKey × ℕ)) (checkpoints : List CheckpointRecord)
    → IsIndex positions checkpoints
    → (i j : ℕ) {a b : CheckpointRecord} → get_elem? checkpoints i ≡ some a
    → get_elem? checkpoints j ≡ some b
    → key_of a ≡ key_of b
    → i ≡ j
same_place positions checkpoints index i j {a} {b} p q e =
    let at = index.1 i a p in
    let there = index.1 j b q in
    let moved = ap (λ k. lookup same_key k positions) e in cc (at, there, moved)

position_of_inv :
    (state : CommittedState) (positions : List (CheckpointKey × ℕ)) (index : ℕ)
    (checkpoint : CheckpointRecord) {result : List (CheckpointKey × ℕ)}
    → position_of state positions index checkpoint ≡ ok result
    → (result ≡ insert same_key (key_of checkpoint) index positions)
      × (lookup same_key (key_of checkpoint) positions ≡ none)
      × (contains same_key (key_of checkpoint) state.deleted_checkpoints ≡ false)
      × (validate_prior_parent
            (insert same_key (key_of checkpoint) index positions)
            index
            checkpoint.thread_id
            checkpoint.parent_checkpoint_id
          ≡ ok tt)
unfolding position_of
position_of_inv state positions index checkpoint h =
    let (v1, h1) = then_inv (validate_checkpoint_identifier checkpoint.thread_id) h in
    let (v2, h2) = then_inv (validate_checkpoint_identifier checkpoint.checkpoint_id) h1 in
    let (v3, h3) = then_inv (validate_parent_identifier checkpoint.parent_checkpoint_id) h2 in
    let (v4, h4) =
      then_inv (reject (contains same_key (key_of checkpoint) state.deleted_checkpoints) _) h3 in
    let (v5, h5) =
      then_inv (reject (is_some (lookup same_key (key_of checkpoint) positions)) _) h4 in
    let (v6, h6) =
      then_inv
        (validate_prior_parent (insert same_key (key_of checkpoint) index positions) index
          checkpoint.thread_id checkpoint.parent_checkpoint_id)
        h5 in
    (cc h6, not_some _ (reject_inv _ _ v5), reject_inv _ _ v4, v6)

prior_parent_inv :
    (positions : List (CheckpointKey × ℕ)) (index : ℕ) (thread_id : List ℕ)
    (named : Option (List ℕ)) (parent : List ℕ)
    → named ≡ some parent
    → validate_prior_parent positions index thread_id named ≡ ok tt
    → (j : ℕ) × (lookup same_key (thread_id, parent) positions ≡ some j) × (j < index)
unfolding validate_prior_parent
prior_parent_inv positions index thread_id none parent e h = absurd (cc e)
prior_parent_inv positions index thread_id (some named) parent e h =
    let (j, at, rest) = ok_or_inv (lookup same_key (thread_id, named) positions) _ h in
    let is : named ≡ parent = cc e in
    (
      j,
      ap (λ p. lookup same_key (thread_id, p) positions) (sym is) ∙ at,
      leb→lt index j (reject_inv _ _ rest),
    )

-- One more checkpoint, whose parent is in the table with it.
position_of_step :
    (state : CommittedState) (positions : List (CheckpointKey × ℕ)) (before : List CheckpointRecord)
    (checkpoint : CheckpointRecord) {result : List (CheckpointKey × ℕ)}
    → IsIndex positions before
    → IsRooted before
    → position_of state positions (length before) checkpoint ≡ ok result
    → IsIndex result (before ++ checkpoint ∷ []) × IsRooted (before ++ checkpoint ∷ [])
position_of_step state positions before last {result} index rooted h =
    let (is, fresh, live, prior) = position_of_inv state positions (length before) last h in
    let indexed = insert-IsIndex positions before last index fresh in
    (
      subst (λ p. IsIndex p (before ++ last ∷ [])) (sym is) indexed,
      append-IsRooted before last rooted (λ parent named.
          let (j, there, lt) =
            prior_parent_inv _ (length before) last.thread_id last.parent_checkpoint_id parent named
              prior in
          let (above, found, key) = indexed.0 (last.thread_id, parent) j there in
          (j, above, lt, found, key)),
    )

pub positions_from_lem :
    (state : CommittedState) (positions : List (CheckpointKey × ℕ)) (before : List CheckpointRecord)
    (checkpoints : List CheckpointRecord) {result : List (CheckpointKey × ℕ)}
    → IsIndex positions before
    → IsRooted before
    → positions_from state positions (length before) checkpoints ≡ ok result
    → IsIndex result (before ++ checkpoints) × IsRooted (before ++ checkpoints)
unfolding positions_from
positions_from_lem state positions before [] {result} index rooted h =
    let e = sym (append-nil before) in
    let is : positions ≡ result = cc h in
    (
      subst (λ p. IsIndex p (before ++ [])) is (subst (IsIndex positions) e index),
      subst IsRooted e rooted,
    )
positions_from_lem state positions before (checkpoint ∷ checkpoints) {result} index rooted h =
    let (inserted, step, rest) = bind_inv h in
    let (index', rooted') = position_of_step state positions before checkpoint index rooted step in
    let count : suc (length before) ≡ length (before ++ checkpoint ∷ []) =
      omega (arith, length-append before (checkpoint ∷ [])) in
    let (index'', rooted'') =
      positions_from_lem state inserted (before ++ checkpoint ∷ []) checkpoints index' rooted'
        (ap (λ n. positions_from state inserted n checkpoints) (sym count) ∙ rest) in
    let e = append_assoc before (checkpoint ∷ []) checkpoints in
    (subst (IsIndex result) e index'', subst IsRooted e rooted'')
