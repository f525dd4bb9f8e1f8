-- ===== src/Apply/Delete/Descent.antt =====
-- The descendants of a checkpoint, and what it is for a mask to mark them.
use tulya_checkpoint_store.Prelude.{
  ℕ, ◌≤◌, ◌<◌, ◌≡◌, ◌∙◌, ap, List, some, ◌⊎◌, length, get_elem?, set, Result, ok, ◌>>=◌, bind_inv,
  ok_or_inv,
}
use tulya_checkpoint_store.Publication.Records.{CheckpointRecord}
use tulya_checkpoint_store.Apply.State.{ApplyError}
use tulya_checkpoint_store.Apply.Validate.{key_of}
use tulya_checkpoint_store.Apply.Delete.Mask.{mark}

-- The target, and every checkpoint whose parent, in its thread, is in the subtree.
pub data InSubtree (checkpoints : List CheckpointRecord) (target : ℕ) : ℕ → Type 0 where
  root : (i : ℕ) → i ≡ target → InSubtree checkpoints target i
  child :
      (i j : ℕ) (checkpoint above : CheckpointRecord) (parent : List ℕ)
      → get_elem? checkpoints i ≡ some checkpoint
      → checkpoint.parent_checkpoint_id ≡ some parent
      → get_elem? checkpoints j ≡ some above
      → key_of above ≡ (checkpoint.thread_id, parent)
      → InSubtree checkpoints target j
      → InSubtree checkpoints target i

-- The byte of the mask says whether the checkpoint is in the subtree.
abbrev pub IsDecided : List CheckpointRecord → ℕ → List ℕ → ℕ → Type 0
IsDecided checkpoints target mask i =
    ((get_elem? mask i ≡ some 1) × InSubtree checkpoints target i)
    ⊎ ((get_elem? mask i ≡ some 0) × ¬ InSubtree checkpoints target i)

-- The mask is decided below an index, and zero from there on.
abbrev pub DecidesBelow : List CheckpointRecord → ℕ → List ℕ → ℕ → Type 0
DecidesBelow checkpoints target mask n =
    ((i : ℕ) → i < length checkpoints → i < n → IsDecided checkpoints target mask i)
    × ((i : ℕ) → i < length checkpoints → n ≤ i → get_elem? mask i ≡ some 0)

-- A chain that succeeds behind a mark goes on from the mask that is written to.
pub mark_inv :
    (mask : List ℕ) (i : ℕ) (error : ApplyError) (f : List ℕ → Result ApplyError (List ℕ))
    {mask' : List ℕ}
    → (mark mask i error >>= f) ≡ ok mask'
    → f (set mask i 1) ≡ ok mask'
mark_inv mask i error f h =
    let (marked, h1, h2) = bind_inv {m = mark mask i error} h in
    let (old, at, h3) = ok_or_inv (get_elem? mask i) error h1 in
    let e : set mask i 1 ≡ marked = cc h3 in ap f e ∙ h2
