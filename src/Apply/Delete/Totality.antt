-- ===== src/Apply/Delete/Totality.antt =====
-- Behind the validation of the state, the loops of the ledgers meet no error.
use tulya_checkpoint_store.Prelude.{
  ℕ, suc, ◌+◌, ◌≤◌, ◌<◌, ◌≡◌, ◌∙◌, refl, ap, arith, List, [], ◌∷◌, Option, some, Bool-cases, inl,
  inr, le→leb, ◌==◌, ==_iff, length, get_elem?, ok, u64_max, get_elem?_of_lt,
}
use tulya_checkpoint_store.Publication.Records.{CheckpointRecord}
use tulya_checkpoint_store.Apply.State.{RequestRecord}
use tulya_checkpoint_store.Apply.Delete.Ledgers.{
  Retained, Requests, drop_checkpoint, with_checkpoint, keep_checkpoint, retain_from, request_slot,
  retire_count, retire_entry, with_request, remap_entry, remap_from,
}

with_next :
    (n : ℕ) (checkpoint : CheckpointRecord) (kept : Retained) {next : ℕ}
    → next ≤ suc n
    → (with_checkpoint n checkpoint next kept).next_ordinal ≤ suc n
unfolding with_checkpoint
with_next n checkpoint kept le = le

drop_next :
    (n : ℕ) (checkpoint : CheckpointRecord) (kept : Retained)
    → kept.next_ordinal ≤ suc n
    → (drop_checkpoint checkpoint kept).next_ordinal ≤ suc n
unfolding drop_checkpoint
drop_next n checkpoint kept le = le

-- The loop over the checkpoints finds a byte for each.
pub retain_from_total :
    (mask : List ℕ) (n : ℕ) (rest : List CheckpointRecord) (kept : Retained)
    → n + length rest ≤ length mask
    → length mask ≤ u64_max
    → kept.next_ordinal ≤ n
    → (result : Retained) × (retain_from mask n rest kept ≡ ok result)
unfolding retain_from keep_checkpoint
retain_from_total mask n [] kept size bound next = (kept, refl)
retain_from_total mask n (checkpoint ∷ rest) kept size bound next =
    let (slot, seen) = get_elem?_of_lt mask n (omega arith) in
    elim (Bool-cases (slot == 0)) [
      | inl keep ↦
          let (result, h) =
            retain_from_total mask (suc n) rest
              (with_checkpoint n checkpoint (kept.next_ordinal + 1) kept) (omega arith) bound
              (with_next n checkpoint kept (omega arith)) in
          let fits = le→leb (kept.next_ordinal + 1) u64_max (omega arith) in
          (result, rw (seen, keep, fits) h)
      | inr gone ↦
          let (result, h) =
            retain_from_total mask (suc n) rest (drop_checkpoint checkpoint kept) (omega arith)
              bound (drop_next n checkpoint kept (omega arith)) in
          (result, rw (seen, gone) h)
    ]

-- The checkpoint of each request is in a table of the given length.
abbrev pub ArePlaced : ℕ → List (List ℕ × RequestRecord) → Type 0
ArePlaced size [] = Unit
ArePlaced size (entry ∷ entries) = (entry.1.checkpoint_ordinal < size) × ArePlaced size entries

request_slot_total :
    (mask : List ℕ) (found : RequestRecord)
    → length mask ≤ u64_max
    → found.checkpoint_ordinal < length mask
    → (slot : ℕ) × (request_slot mask found ≡ ok slot)
      × (get_elem? mask found.checkpoint_ordinal ≡ some slot)
unfolding request_slot
request_slot_total mask found bound lt =
    let (slot, seen) = get_elem?_of_lt mask found.checkpoint_ordinal lt in
    let fits = le→leb found.checkpoint_ordinal u64_max (omega arith) in
    (slot, rw (fits, seen) refl, seen)

pub retire_count_total :
    (mask : List ℕ) (entries : List (List ℕ × RequestRecord)) (count : ℕ)
    → length mask ≤ u64_max
    → ArePlaced (length mask) entries
    → count + length entries ≤ u64_max
    → (total : ℕ) × (retire_count mask entries count ≡ ok total) × (total ≤ count + length entries)
unfolding retire_count
retire_count_total mask [] count bound placed fits = (count, refl, omega arith)
retire_count_total mask (entry ∷ entries) count bound (placed, rest) fits =
    let (slot, found, seen) = request_slot_total mask entry.1 bound placed in
    elim (Bool-cases (slot == 0)) [
      | inl keep ↦
          let (total, h, le) = retire_count_total mask entries count bound rest (omega arith) in
          (total, rw (found, keep) h, omega arith)
      | inr gone ↦
          let (total, h, le) =
            retire_count_total mask entries (count + 1) bound rest (omega arith) in
          let within = le→leb (count + 1) u64_max (omega arith) in
          (total, rw (found, gone, within) h, omega arith)
    ]

pub remap_from_total :
    (mask : List ℕ) (new_ordinals : List (Option ℕ)) (entries : List (List ℕ × RequestRecord))
    (requests : Requests)
    → length mask ≤ u64_max
    → ((i : ℕ)
        → i < length mask
        → get_elem? mask i ≡ some 0
        → (m : ℕ) × (get_elem? new_ordinals i ≡ some (some m)))
    → ArePlaced (length mask) entries
    → (result : Requests) × (remap_from mask new_ordinals entries requests ≡ ok result)
unfolding remap_from remap_entry
remap_from_total mask new_ordinals [] requests bound assigned placed = (requests, refl)
remap_from_total mask new_ordinals (entry ∷ entries) requests bound assigned (placed, rest) =
    let (slot, found, seen) = request_slot_total mask entry.1 bound placed in
    elim (Bool-cases (slot == 0)) [
      | inl keep ↦
          let (m, at) =
            assigned entry.1.checkpoint_ordinal placed (seen ∙ ap some ((==_iff slot 0).0 keep)) in
          let (result, h) =
            remap_from_total mask new_ordinals entries (with_request entry.0 entry.1 m requests)
              bound assigned rest in
          (result, rw (found, keep, at) h)
      | inr gone ↦
          let (result, h) =
            remap_from_total mask new_ordinals entries (retire_entry entry.0 entry.1 requests) bound
              assigned rest in
          (result, rw (found, gone) h)
    ]
