-- ===== src/Apply/Delete/Distribution.antt =====
-- How the loop of a deletion over the checkpoints distributes them over its ledgers.
use tulya_checkpoint_store.Prelude.{
  ℕ, ◌≤◌, ◌<◌, ◌≡◌, ◌≢◌, refl, List, some, Bool, true, false, Bool-cases, inl, inr, ◌==◌,
  if◌then◌else◌, length, get_elem?,
}
use tulya_checkpoint_store.Publication.Records.{CheckpointRecord}
use tulya_checkpoint_store.Apply.Maps.{contains, same_self, differs}
use tulya_checkpoint_store.Apply.State.{CheckpointKey, same_key}
use tulya_checkpoint_store.Apply.Validate.{key_of}
use tulya_checkpoint_store.Apply.Outcomes.{same_key-Decides}
use tulya_checkpoint_store.Apply.Conditions.{IsIndex}
use tulya_checkpoint_store.Apply.Delete.Ordinals.{Assigns}
use tulya_checkpoint_store.Apply.Delete.Ledgers.{Retained, insert_key}

pub contains-insert_key_self :
    (key : CheckpointKey) (keys : List CheckpointKey)
    → contains same_key key (insert_key key keys) ≡ true
contains-insert_key_self key keys = elim (Bool-cases (contains same_key key keys)) [
  | inl old ↦ rw old old
  | inr new ↦ rw (new, same_self same_key same_key-Decides key) refl
]

pub contains-insert_key_other :
    (key other : CheckpointKey) (keys : List CheckpointKey)
    → key ≢ other
    → contains same_key key (insert_key other keys) ≡ contains same_key key keys
contains-insert_key_other key other keys ne = elim (Bool-cases (contains same_key other keys)) [
  | inl old ↦ rw old refl
  | inr new ↦ rw (new, differs same_key same_key-Decides key other ne) refl
]

-- The checkpoints below an index are distributed as the mask says.
pub record Distributes (checkpoints : List CheckpointRecord) (mask : List ℕ)
    (old : List CheckpointKey) (kept : Retained) (n : ℕ) : Type 0 where
  pub index : IsIndex kept.checkpoint_ordinals kept.checkpoints
  pub next : kept.next_ordinal ≡ length kept.checkpoints
  pub size : length kept.new_ordinals ≡ length checkpoints
  pub retained :
      (i : ℕ) (checkpoint : CheckpointRecord)
      → i < n
      → get_elem? checkpoints i ≡ some checkpoint
      → get_elem? mask i ≡ some 0
      → (m : ℕ) × (get_elem? kept.new_ordinals i ≡ some (some m))
        × (get_elem? kept.checkpoints m ≡ some checkpoint)
  pub origin :
      (m : ℕ) (checkpoint : CheckpointRecord)
      → get_elem? kept.checkpoints m ≡ some checkpoint
      → (i : ℕ) × (i < n)
        × (get_elem? checkpoints i ≡ some checkpoint)
        × (get_elem? mask i ≡ some 0)
  pub dropped :
      (i : ℕ) (checkpoint : CheckpointRecord) (slot : ℕ)
      → i < n
      → get_elem? checkpoints i ≡ some checkpoint
      → get_elem? mask i ≡ some slot
      → (slot == 0) ≡ false
      → contains same_key (key_of checkpoint) kept.deleted_checkpoints ≡ true
  pub others :
      (key : CheckpointKey)
      → ((i : ℕ) (checkpoint : CheckpointRecord) (slot : ℕ)
          → i < n
          → get_elem? checkpoints i ≡ some checkpoint
          → get_elem? mask i ≡ some slot
          → (slot == 0) ≡ false
          → key ≢ key_of checkpoint)
      → contains same_key key kept.deleted_checkpoints ≡ contains same_key key old
  pub remain :
      (key : CheckpointKey)
      → contains same_key key old ≡ true
      → contains same_key key kept.deleted_checkpoints ≡ true
  pub fewer : length kept.checkpoints ≤ n
  pub assigned : Assigns kept.new_ordinals n (length kept.checkpoints)

pub contains-insert_key :
    (key other : CheckpointKey) (keys : List CheckpointKey)
    → contains same_key key keys ≡ true
    → contains same_key key (insert_key other keys) ≡ true
contains-insert_key key other keys h = elim (Bool-cases (contains same_key other keys)) [
  | inl old ↦ rw old h
  | inr new ↦ rw (new, h) (any (same_key key other))
]
  where
    any : (t : Bool) → (if t then true else true) ≡ true
    any true = refl
    any false = refl
