-- ===== src/Apply/Delete/Success.antt =====
-- A deletion in a state that passes the validation succeeds for each checkpoint of the index, and
-- reports any other identity.
use mathlib.Core.Path.{subst}
use native.Mathlib.Nat.{zero-add}
use tulya_checkpoint_store.Prelude.{
  ℕ, ◌+◌, ◌-◌, ◌≤◌, ◌≡◌, ◌∙◌, refl, ap, sym, arith, List, [], ◌∷◌, Option, none, some, Bool, true,
  false, ◌⊎◌, inl, inr, ◌==◌, not, if◌then◌else◌, length, get_elem?, Result, ok, err, ◌>>=◌, reject,
  bind_inv, then_inv, try_from_inv, ok_or_inv, map_err, le→leb, le→ltb, u64_max, get_elem?-lt,
  get_elem?_of_lt,
}
use tulya_checkpoint_store.Format.Records.{Sha256}
use tulya_checkpoint_store.Format.Codec.{same_bytes}
use tulya_checkpoint_store.Commit.Records.{checkpoint_operation_digest}
use tulya_checkpoint_store.Apply.Maps.{lookup, contains, is_some}
use tulya_checkpoint_store.Apply.State.{
  commit_error, invalid, RequestRecord, CheckpointKey, same_key, CommittedState,
  validate_request_id,
}
use tulya_checkpoint_store.Apply.Conditions.{IsIndex, IsRooted, WellFormed}
use tulya_checkpoint_store.Apply.Delete.Source.{
  validate_checkpoint_identifier, positions_from, validate_ordinals, validate_deleted,
  validate_active, validate_delete_source_state,
}
use tulya_checkpoint_store.Apply.Delete.Positions.{same_place}
use tulya_checkpoint_store.Apply.Delete.Mask.{find_target}
use tulya_checkpoint_store.Apply.Delete.Ledgers.{
  PreparedSubtreeDelete, count_marked, retained_none, requests_none, prepare_delete_ledgers,
  prepare_delete_checkpoint_subtree,
}
use tulya_checkpoint_store.Apply.Delete.Retention.{retain_from-Distributes}
use tulya_checkpoint_store.Apply.Delete.Outcome.{source_inv, retained_none-Distributes}
use tulya_checkpoint_store.Apply.Delete.MaskTotality.{delete_mask_total}
use tulya_checkpoint_store.Apply.Delete.Totality.{
  ArePlaced, retain_from_total, retire_count_total, remap_from_total,
}

count_marked-le : (mask : List ℕ) → count_marked mask ≤ length mask
unfolding count_marked
count_marked-le [] = omega arith
count_marked-le (slot ∷ mask) = ground (arith, count_marked-le mask)

failed :
    {E A B : Type 0} (t : Bool) (a b : E) (f : A → Result E B)
    → ((if t then err a else err b) >>= f) ≡ err (if t then a else b)
failed true a b f = refl
failed false a b f = refl

module _ ⦃sha : Sha256⦄ where
  validate_active-ArePlaced :
      (state : CommittedState) (entries : List (List ℕ × RequestRecord))
      → validate_active state entries ≡ ok tt
      → ArePlaced (length state.checkpoints) entries
  unfolding validate_active
  validate_active-ArePlaced state [] h = tt
  validate_active-ArePlaced state (entry ∷ entries) h =
      let (v1, h1) = then_inv (validate_request_id entry.0) h in
      let (v2, h2) =
        then_inv (reject (is_some (lookup same_bytes entry.0 state.retired_requests)) _) h1 in
      let (v3, h3) = try_from_inv u64_max entry.1.checkpoint_ordinal _ _ h2 in
      let (checkpoint, at, h4) =
        ok_or_inv (get_elem? state.checkpoints entry.1.checkpoint_ordinal) _ h3 in
      let (digest, d, h5) =
        bind_inv {m = map_err commit_error (checkpoint_operation_digest checkpoint)} h4 in
      let (v6, h6) = then_inv (reject (not (same_bytes digest entry.1.operation_digest)) _) h5 in
      (
        get_elem?-lt state.checkpoints entry.1.checkpoint_ordinal at,
        validate_active-ArePlaced state entries h6,
      )

  source_placed :
      (state : CommittedState) {positions : List (CheckpointKey × ℕ)}
      → validate_delete_source_state state ≡ ok positions
      → ArePlaced (length state.checkpoints) state.request_records
  unfolding validate_delete_source_state
  source_placed state h =
      let (r1, h1) =
        then_inv (reject (not (length state.checkpoint_ordinals == length state.checkpoints)) _)
          h in
      let (found, steps, h2) = bind_inv {m = positions_from state [] 0 state.checkpoints} h1 in
      let (r3, h3) = then_inv (validate_ordinals found state.checkpoint_ordinals) h2 in
      let (r4, h4) = then_inv (validate_deleted state.deleted_checkpoints) h3 in
      let (r5, h5) = then_inv (validate_active state state.request_records) h4 in
      validate_active-ArePlaced state state.request_records r5

  -- The ledgers are prepared for every mask of the length of the table.
  ledgers_total :
      (state : CommittedState) (positions : List (CheckpointKey × ℕ)) (mask : List ℕ)
      → IsIndex positions state.checkpoints
      → ArePlaced (length state.checkpoints) state.request_records
      → length mask ≡ length state.checkpoints
      → length state.deleted_checkpoints + length state.checkpoints ≤ u64_max
      → length state.retired_requests + length state.request_records ≤ u64_max
      → (prepared : PreparedSubtreeDelete) × (prepare_delete_ledgers state mask ≡ ok prepared)
  unfolding prepare_delete_ledgers
  ledgers_total state positions mask index placed size fits fits' =
      let few = count_marked-le mask in
      let (kept, retains) =
        retain_from_total mask 0 state.checkpoints (retained_none state) (omega arith) (omega arith)
          (omega arith) in
      let d =
        retain_from-Distributes positions state.checkpoints index mask state.deleted_checkpoints
          (retained_none state) 0 state.checkpoints (retained_none-Distributes state mask)
          (λ k m e. ap (get_elem? state.checkpoints) (sym (zero-add k) ∙ sym e)) retains in
      let placed' = subst (λ n. ArePlaced n state.request_records) (sym size) placed in
      let (count, counts, le) =
        retire_count_total mask state.request_records 0 (omega arith) placed' (omega arith) in
      let (requests, remaps) =
        remap_from_total mask kept.new_ordinals state.request_records (requests_none state)
          (omega arith)
          (λ i lt zero_there.
            let (checkpoint, at) = get_elem?_of_lt state.checkpoints i (omega arith) in
            let (m, new_m, held) = d.retained i checkpoint (omega arith) at zero_there in
            (m, new_m))
          placed' in
      let b1 = le→ltb (length state.checkpoints) (count_marked mask) (omega arith) in
      let b2 = le→leb (count_marked mask) u64_max (omega arith) in
      let b3 =
        le→leb (length state.deleted_checkpoints + count_marked mask) u64_max (omega arith) in
      let b4 = le→ltb (length state.request_records) count (omega arith) in
      let b5 = le→leb (length state.retired_requests + count) u64_max (omega arith) in
      (
        record {
          checkpoints = kept.checkpoints;
          checkpoint_ordinals = kept.checkpoint_ordinals;
          request_records = requests.request_records;
          retired_requests = requests.retired_requests;
          deleted_checkpoints = kept.deleted_checkpoints;
          clear_sequence_geometry = length state.checkpoints - count_marked mask == 0;
          deleted_checkpoint_count = count_marked mask;
        },
        rw (b1, b2, b3, retains, counts, b4, b5, remaps) refl,
      )

  -- The index of a well-formed state and the positions agree.
  same_lookup :
      (state : CommittedState) (positions : List (CheckpointKey × ℕ)) (key : CheckpointKey)
      → WellFormed state
      → IsIndex positions state.checkpoints
      → lookup same_key key positions ≡ lookup same_key key state.checkpoint_ordinals
  same_lookup state positions key formed index =
      go (lookup same_key key positions) (lookup same_key key state.checkpoint_ordinals) refl refl
    where
      go :
          (a b : Option ℕ)
          → lookup same_key key positions ≡ a
          → lookup same_key key state.checkpoint_ordinals ≡ b
          → a ≡ b
      go none none e f = refl
      go none (some j) e f =
          let (checkpoint, at, is) = formed.0.0.0 key j f in
          let there = index.1 j checkpoint at in
          let moved = ap (λ k. lookup same_key k positions) is in absurd (cc (there, moved, e))
      go (some i) none e f =
          let (checkpoint, at, is) = index.0 key i e in
          let there = formed.0.0.1 i checkpoint at in
          let moved = ap (λ k. lookup same_key k state.checkpoint_ordinals) is in
          absurd (cc (there, moved, f))
      go (some i) (some j) e f =
          let (a, at, is) = index.0 key i e in
          let (b, there, is') = formed.0.0.0 key j f in
          ap some (same_place positions state.checkpoints index i j at there (is ∙ sym is'))

  -- What a deletion answers for an identity.
  abbrev pub Answers : CommittedState → List ℕ → List ℕ → Type 0
  Answers state thread_id checkpoint_id =
      ((target : ℕ) × (lookup same_key (thread_id, checkpoint_id) state.checkpoint_ordinals
          ≡ some target)
        × (prepared : PreparedSubtreeDelete) × (prepare_delete_checkpoint_subtree state thread_id
              checkpoint_id
            ≡ ok prepared))
      ⊎ ((lookup same_key (thread_id, checkpoint_id) state.checkpoint_ordinals ≡ none)
          × (prepare_delete_checkpoint_subtree state thread_id checkpoint_id
              ≡ err (
                  if contains same_key (thread_id, checkpoint_id) state.deleted_checkpoints
                  then invalid "v2 checkpoint identity is already deleted"
                  else invalid "v2 checkpoint identity to delete is absent")))

  -- In a well-formed state that passes the validation, whose ledgers have 64-bit lengths with room for
  -- what a deletion moves, a deletion of an identity within the bounds on identifiers is prepared if
  -- the identity is in the index, and else fails, as deleted already or as absent.
  pub prepare_delete-Answers :
      (state : CommittedState) (thread_id checkpoint_id : List ℕ)
      {positions : List (CheckpointKey × ℕ)}
      → WellFormed state
      → validate_delete_source_state state ≡ ok positions
      → validate_checkpoint_identifier thread_id ≡ ok tt
      → validate_checkpoint_identifier checkpoint_id ≡ ok tt
      → length state.deleted_checkpoints + length state.checkpoints ≤ u64_max
      → length state.retired_requests + length state.request_records ≤ u64_max
      → Answers state thread_id checkpoint_id
  unfolding prepare_delete_checkpoint_subtree find_target
  prepare_delete-Answers state thread_id checkpoint_id {positions} formed valid v1 v2 fits fits' =
      go (lookup same_key (thread_id, checkpoint_id) state.checkpoint_ordinals) refl
    where
      source : IsIndex positions state.checkpoints × IsRooted state.checkpoints
      source = source_inv state valid

      agree :
          lookup same_key (thread_id, checkpoint_id) positions
          ≡ lookup same_key (thread_id, checkpoint_id) state.checkpoint_ordinals
      agree = same_lookup state positions (thread_id, checkpoint_id) formed source.0

      go :
          (found : Option ℕ)
          → lookup same_key (thread_id, checkpoint_id) state.checkpoint_ordinals ≡ found
          → Answers state thread_id checkpoint_id
      go none e = inr (
        e,
        rw (v1, v2, valid, agree, e)
            (failed (contains same_key (thread_id, checkpoint_id) state.deleted_checkpoints) _ _ _),
      )
      go (some target) e =
          let (checkpoint, at, is) = formed.0.0.0 (thread_id, checkpoint_id) target e in
          let inside = get_elem?-lt state.checkpoints target at in
          let (mask, masked, size) =
            delete_mask_total positions state.checkpoints source.0 source.1 thread_id target inside
              (omega arith) in
          let (prepared, prepares) =
            ledgers_total state positions mask source.0 (source_placed state valid) size fits
              fits' in
          inl (target, e, prepared, rw (v1, v2, valid, agree, e, masked) prepares)
