-- ===== src/Apply/Delete/Outcome.antt =====
-- What a deletion that is prepared goes by: the positions, the mask, and the loops behind it.
use mathlib.Core.Path.{subst}
use native.Mathlib.Nat.{zero-add}
use tulya_checkpoint_store.Prelude.{
  ℕ, ◌≡◌, ◌∙◌, refl, ap, sym, arith, List, [], Option, none, some, Bool, true, false, not, ltb,
  ◌==◌, if◌then◌else◌, length, length-replicate, get_elem?, ok, err, reject, bind_inv, then_inv,
  checked_add_inv, try_from_inv, u64_max,
}
use tulya_checkpoint_store.Format.Records.{Sha256}
use tulya_checkpoint_store.Apply.Maps.{lookup, contains}
use tulya_checkpoint_store.Apply.State.{CheckpointKey, same_key, CommittedState}
use tulya_checkpoint_store.Apply.Conditions.{IsIndex, IsRooted}
use tulya_checkpoint_store.Apply.Delete.Source.{
  validate_checkpoint_identifier, positions_from, validate_ordinals, validate_deleted,
  validate_active, validate_retired, validate_delete_source_state,
}
use tulya_checkpoint_store.Apply.Delete.Positions.{positions_from_lem}
use tulya_checkpoint_store.Apply.Delete.Mask.{find_target, delete_mask}
use tulya_checkpoint_store.Apply.Delete.Ordinals.{replicate-Assigns}
use tulya_checkpoint_store.Apply.Delete.Ledgers.{
  PreparedSubtreeDelete, Retained, Requests, count_marked, retain_from, retire_count, remap_from,
  retained_none, requests_none, prepare_delete_ledgers, prepare_delete_checkpoint_subtree,
}
use tulya_checkpoint_store.Apply.Delete.Distribution.{Distributes}
use tulya_checkpoint_store.Apply.Delete.Retention.{retain_from-Distributes}

-- The variables of a preparation that succeeds, and what they are.
pub record Preparation ⦃sha : Sha256⦄ (state : CommittedState) (thread_id : List ℕ)
    (checkpoint_id : List ℕ) (prepared : PreparedSubtreeDelete) : Type 0 where
  pub positions : List (CheckpointKey × ℕ)
  pub target : ℕ
  pub mask : List ℕ
  pub kept : Retained
  pub requests : Requests
  pub index : IsIndex positions state.checkpoints
  pub rooted : IsRooted state.checkpoints
  pub found : lookup same_key (thread_id, checkpoint_id) positions ≡ some target
  pub masked : delete_mask positions thread_id target state.checkpoints ≡ ok mask
  pub distributed :
      Distributes state.checkpoints mask state.deleted_checkpoints kept (length state.checkpoints)
  pub remapped :
      remap_from mask kept.new_ordinals state.request_records (requests_none state) ≡ ok requests
  pub checkpoints : prepared.checkpoints ≡ kept.checkpoints
  pub checkpoint_ordinals : prepared.checkpoint_ordinals ≡ kept.checkpoint_ordinals
  pub request_records : prepared.request_records ≡ requests.request_records
  pub retired_requests : prepared.retired_requests ≡ requests.retired_requests
  pub deleted_checkpoints : prepared.deleted_checkpoints ≡ kept.deleted_checkpoints

find_target_inv :
    (found : Option ℕ) (key : CheckpointKey) (deleted : List CheckpointKey) {target : ℕ}
    → find_target found key deleted ≡ ok target
    → found ≡ some target
unfolding find_target
find_target_inv (some i) key deleted h = ap some (cc h)
find_target_inv none key deleted h = go _ _ (contains same_key key deleted) h
  where
    go :
        {E : Type 0} (a b : E) {target : ℕ} (t : Bool)
        → (if t then err a else err b) ≡ ok target
        → none ≡ some target
    go a b true h = absurd (cc h)
    go a b false h = absurd (cc h)

-- The loops of the ledgers that a preparation went through.
ledgers_inv :
    (state : CommittedState) (mask : List ℕ) {prepared : PreparedSubtreeDelete}
    → prepare_delete_ledgers state mask ≡ ok prepared
    → (kept : Retained) × (requests : Requests) × (retain_from mask 0 state.checkpoints
          (retained_none state)
        ≡ ok kept)
      × (remap_from mask kept.new_ordinals state.request_records (requests_none state)
          ≡ ok requests)
      × (prepared.checkpoints ≡ kept.checkpoints)
      × (prepared.checkpoint_ordinals ≡ kept.checkpoint_ordinals)
      × (prepared.request_records ≡ requests.request_records)
      × (prepared.retired_requests ≡ requests.retired_requests)
      × (prepared.deleted_checkpoints ≡ kept.deleted_checkpoints)
unfolding prepare_delete_ledgers
ledgers_inv state mask {prepared} h =
    let (r1, h1) = then_inv (reject (ltb (length state.checkpoints) (count_marked mask)) _) h in
    let (r2, h2) = try_from_inv u64_max (count_marked mask) _ _ h1 in
    let (r3, h3) =
      checked_add_inv u64_max (length state.deleted_checkpoints) (count_marked mask) _ _ h2 in
    let (kept, retains, h4) =
      bind_inv {m = retain_from mask 0 state.checkpoints (retained_none state)} h3 in
    let (count, r5, h5) = bind_inv {m = retire_count mask state.request_records 0} h4 in
    let (r6, h6) = then_inv (reject (ltb (length state.request_records) count) _) h5 in
    let (r7, h7) = checked_add_inv u64_max (length state.retired_requests) count _ _ h6 in
    let (requests, remaps, h8) =
      bind_inv {m = remap_from mask kept.new_ordinals state.request_records (requests_none state)}
        h7 in
    (kept, requests, retains, remaps, cc h8, cc h8, cc h8, cc h8, cc h8)

pub source_inv :
    ⦃sha : Sha256⦄
    → (state : CommittedState) {positions : List (CheckpointKey × ℕ)}
    → validate_delete_source_state state ≡ ok positions
    → IsIndex positions state.checkpoints × IsRooted state.checkpoints
unfolding validate_delete_source_state
source_inv state {positions} h =
    let (r1, h1) =
      then_inv (reject (not (length state.checkpoint_ordinals == length state.checkpoints)) _) h in
    let (found, steps, h2) = bind_inv {m = positions_from state [] 0 state.checkpoints} h1 in
    let (r3, h3) = then_inv (validate_ordinals found state.checkpoint_ordinals) h2 in
    let (r4, h4) = then_inv (validate_deleted state.deleted_checkpoints) h3 in
    let (r5, h5) = then_inv (validate_active state state.request_records) h4 in
    let (r6, h6) = then_inv (validate_retired state.retired_requests) h5 in
    let is : found ≡ positions = cc h6 in
    let (index, rooted) =
      positions_from_lem state [] [] state.checkpoints
        ((λ key i there. absurd (cc there)), (λ i checkpoint there. absurd (cc there)))
        (λ i checkpoint parent there. absurd (cc there)) steps in
    (subst (λ p. IsIndex p state.checkpoints) is index, rooted)

pub retained_none-Distributes :
    (state : CommittedState) (mask : List ℕ)
    → Distributes state.checkpoints mask state.deleted_checkpoints (retained_none state) 0
retained_none-Distributes state mask = record {
  index = ((λ key i there. absurd (cc there)), (λ i checkpoint there. absurd (cc there)));
  next = refl;
  size = length-replicate (length state.checkpoints) none;
  retained = λ i checkpoint lt. absurd (omega arith);
  origin = λ m checkpoint there. absurd (cc there);
  dropped = λ i checkpoint slot lt. absurd (omega arith);
  others = λ key apart. refl;
  remain = λ key h. h;
  fewer = omega arith;
  assigned = replicate-Assigns (length state.checkpoints) 0 0;
}

pub prepare_delete-Preparation :
    ⦃sha : Sha256⦄
    → (state : CommittedState) (thread_id checkpoint_id : List ℕ) {prepared : PreparedSubtreeDelete}
    → prepare_delete_checkpoint_subtree state thread_id checkpoint_id ≡ ok prepared
    → Preparation state thread_id checkpoint_id prepared
unfolding prepare_delete_checkpoint_subtree
prepare_delete-Preparation state thread_id checkpoint_id {prepared} h =
    let (r1, h1) = then_inv (validate_checkpoint_identifier thread_id) h in
    let (r2, h2) = then_inv (validate_checkpoint_identifier checkpoint_id) h1 in
    let (positions, source, h3) = bind_inv {m = validate_delete_source_state state} h2 in
    let (target, targets, h4) = bind_inv h3 in
    let (mask, masks, ledgers) = bind_inv h4 in
    let (index, rooted) = source_inv state source in
    let (kept, requests, retains, remaps, e1, e2, e3, e4, e5) = ledgers_inv state mask ledgers in
    record {
      positions = positions;
      target = target;
      mask = mask;
      kept = kept;
      requests = requests;
      index = index;
      rooted = rooted;
      found = find_target_inv _ (thread_id, checkpoint_id) state.deleted_checkpoints targets;
      masked = masks;
      distributed =
          subst (Distributes state.checkpoints mask state.deleted_checkpoints kept)
            (zero-add (length state.checkpoints))
            (retain_from-Distributes positions state.checkpoints index mask
              state.deleted_checkpoints (retained_none state) 0 state.checkpoints
              (retained_none-Distributes state mask)
              (λ k m e. ap (get_elem? state.checkpoints) (sym (zero-add k) ∙ sym e)) retains);
      remapped = remaps;
      checkpoints = e1;
      checkpoint_ordinals = e2;
      request_records = e3;
      retired_requests = e4;
      deleted_checkpoints = e5;
    }
