-- ===== src/Apply/Conditions.antt =====
-- The conditions on a committed state: the index agrees with the checkpoints, an active request is
-- not retired and names a checkpoint of its operation, no checkpoint is deleted, a parent stands
-- before its children, and the table fits the widths of the source.
use tulya_checkpoint_store.Prelude.{
  ℕ, ◌≤◌, ◌<◌, ◌≡◌, ◌≢◌, ◌∙◌, refl, ap, sym, arith, List, [], ◌∷◌, ◌++◌, Option, none, some, true,
  false, Bool-cases, ◌⊎◌, inl, inr, length, get_elem?, get_elem?-append_left, get_elem?-append_self,
  get_elem?-append_inv, ok, u64_max,
}
use tulya_checkpoint_store.Format.Records.{Sha256}
use tulya_checkpoint_store.Format.Codec.{same_bytes}
use tulya_checkpoint_store.Publication.Records.{CheckpointRecord}
use tulya_checkpoint_store.Commit.Records.{checkpoint_operation_digest}
use tulya_checkpoint_store.Apply.Maps.{
  lookup, insert, contains, IsUnique, is_some, lookup-insert_same, lookup-insert_other,
}
use tulya_checkpoint_store.Apply.State.{RequestRecord, CheckpointKey, same_key, CommittedState}
use tulya_checkpoint_store.Apply.Validate.{key_of}
use tulya_checkpoint_store.Apply.Outcomes.{same_bytes-Decides, same_key-Decides}

-- What the index says of the table, and the table of the index.
abbrev pub IsIndex : List (CheckpointKey × ℕ) → List CheckpointRecord → Type 0
IsIndex ordinals checkpoints =
    ((key : CheckpointKey) (i : ℕ)
      → lookup same_key key ordinals ≡ some i
      → (checkpoint : CheckpointRecord) × (get_elem? checkpoints i ≡ some checkpoint)
        × (key_of checkpoint ≡ key))
    × ((i : ℕ) (checkpoint : CheckpointRecord)
        → get_elem? checkpoints i ≡ some checkpoint
        → lookup same_key (key_of checkpoint) ordinals ≡ some i)

-- An active request is not retired, and names a checkpoint of its operation.
abbrev pub IsActive : ⦃sha : Sha256⦄ → CommittedState → List ℕ → RequestRecord → Type 0
IsActive state request found =
    (lookup same_bytes request state.retired_requests ≡ none)
    × ((checkpoint : CheckpointRecord) × (get_elem? state.checkpoints found.checkpoint_ordinal
          ≡ some checkpoint)
        × (checkpoint_operation_digest checkpoint ≡ ok found.operation_digest))

abbrev pub IsConsistent : ⦃sha : Sha256⦄ → CommittedState → Type 0
IsConsistent state =
    IsIndex state.checkpoint_ordinals state.checkpoints
    × ((request : List ℕ) (found : RequestRecord)
        → lookup same_bytes request state.request_records ≡ some found
        → IsActive state request found)
    × ((i : ℕ) (checkpoint : CheckpointRecord)
        → get_elem? state.checkpoints i ≡ some checkpoint
        → contains same_key (key_of checkpoint) state.deleted_checkpoints ≡ false)

-- A checkpoint with a parent has it in its thread, before itself.
abbrev pub IsRooted : List CheckpointRecord → Type 0
IsRooted checkpoints =
    (i : ℕ) (checkpoint : CheckpointRecord) (parent : List ℕ)
    → get_elem? checkpoints i ≡ some checkpoint
    → checkpoint.parent_checkpoint_id ≡ some parent
    → (j : ℕ) × (above : CheckpointRecord) × (j < i)
      × (get_elem? checkpoints j ≡ some above)
      × (key_of above ≡ (checkpoint.thread_id, parent))

-- The conditions that the commits, the retirements and the deletions keep.
abbrev pub WellFormed : ⦃sha : Sha256⦄ → CommittedState → Type 0
WellFormed state =
    IsConsistent state
    × IsUnique same_bytes state.request_records
    × IsRooted state.checkpoints
    × (length state.checkpoints ≤ u64_max)

pub not_some : {A : Type 0} (a : Option A) → is_some a ≡ false → a ≡ none
not_some none h = refl
not_some (some a) h = absurd (cc h)

-- Equal keys or not, by the test.
pub key_cases : (a b : CheckpointKey) → (a ≡ b) ⊎ (a ≢ b)
key_cases a b = go (Bool-cases (same_key a b))
  where
    go : (same_key a b ≡ true) ⊎ (same_key a b ≡ false) → (a ≡ b) ⊎ (a ≢ b)
    go (inl e) = inl ((same_key-Decides a b).0 e)
    go (inr e) = inr (λ same. let k = (same_key-Decides a b).1 same in absurd (cc (e, k)))

pub bytes_cases : (a b : List ℕ) → (a ≡ b) ⊎ (a ≢ b)
bytes_cases a b = go (Bool-cases (same_bytes a b))
  where
    go : (same_bytes a b ≡ true) ⊎ (same_bytes a b ≡ false) → (a ≡ b) ⊎ (a ≢ b)
    go (inl e) = inl ((same_bytes-Decides a b).0 e)
    go (inr e) = inr (λ same. let k = (same_bytes-Decides a b).1 same in absurd (cc (e, k)))

-- A checkpoint of a new key at the end of the table, with its ordinal in the index.
pub insert-IsIndex :
    (ordinals : List (CheckpointKey × ℕ)) (checkpoints : List CheckpointRecord)
    (last : CheckpointRecord)
    → IsIndex ordinals checkpoints
    → lookup same_key (key_of last) ordinals ≡ none
    → IsIndex
        (insert same_key (key_of last) (length checkpoints) ordinals)
        (checkpoints ++ last ∷ [])
insert-IsIndex ordinals checkpoints last (index, table) fresh = (indexed, tabled)
  where
    indexed :
        (key : CheckpointKey) (i : ℕ)
        → lookup same_key key (insert same_key (key_of last) (length checkpoints) ordinals) ≡ some i
        → (checkpoint : CheckpointRecord) × (get_elem? (checkpoints ++ last ∷ []) i
            ≡ some checkpoint)
          × (key_of checkpoint ≡ key)
    indexed key i h = go (key_cases key (key_of last))
      where
        go :
            (key ≡ key_of last) ⊎ (key ≢ key_of last)
            → (checkpoint : CheckpointRecord) × (get_elem? (checkpoints ++ last ∷ []) i
                ≡ some checkpoint)
              × (key_of checkpoint ≡ key)
        go (inl e) =
            let here =
              lookup-insert_same same_key same_key-Decides (key_of last) (length checkpoints)
                ordinals in
            let moved =
              ap
                (λ k.
                  lookup same_key k (insert same_key (key_of last) (length checkpoints) ordinals))
                (sym e)
              ∙ h in
            let at : length checkpoints ≡ i = cc (here, moved) in
            (
              last,
              ap (get_elem? (checkpoints ++ last ∷ [])) (sym at)
                  ∙ get_elem?-append_self checkpoints last [],
              sym e,
            )
        go (inr ne) =
            let (found, at, is) = index key i (
              sym (
                lookup-insert_other same_key same_key-Decides key (key_of last) (length checkpoints)
                  ordinals ne)
              ∙ h) in
            (found, get_elem?-append_left checkpoints (last ∷ []) i at, is)

    tabled :
        (i : ℕ) (checkpoint : CheckpointRecord)
        → get_elem? (checkpoints ++ last ∷ []) i ≡ some checkpoint
        → lookup same_key
            (key_of checkpoint)
            (insert same_key (key_of last) (length checkpoints) ordinals)
          ≡ some i
    tabled i checkpoint h = go (get_elem?-append_inv checkpoints last i h)
      where
        go :
            (get_elem? checkpoints i ≡ some checkpoint)
              ⊎ ((i ≡ length checkpoints) × (checkpoint ≡ last))
            → lookup same_key
                (key_of checkpoint)
                (insert same_key (key_of last) (length checkpoints) ordinals)
              ≡ some i
        go (inl e) =
            let old = table i checkpoint e in
            lookup-insert_other same_key same_key-Decides (key_of checkpoint) (key_of last)
              (length checkpoints) ordinals
              (λ same.
                let gone = ap (λ k. lookup same_key k ordinals) same ∙ fresh in
                absurd (cc (old, gone)))
            ∙ old
        go (inr (e, f)) =
            ap
              (λ c.
                lookup same_key (key_of c)
                  (insert same_key (key_of last) (length checkpoints) ordinals))
              f
            ∙ lookup-insert_same same_key same_key-Decides (key_of last) (length checkpoints)
                ordinals
            ∙ ap some (sym e)

-- A checkpoint at the end of the table, whose parent, if it has one, stands before it.
pub append-IsRooted :
    (before : List CheckpointRecord) (last : CheckpointRecord)
    → IsRooted before
    → ((parent : List ℕ)
        → last.parent_checkpoint_id ≡ some parent
        → (j : ℕ) × (above : CheckpointRecord) × (j < length before)
          × (get_elem? (before ++ last ∷ []) j ≡ some above)
          × (key_of above ≡ (last.thread_id, parent)))
    → IsRooted (before ++ last ∷ [])
append-IsRooted before last rooted prior i checkpoint parent at named =
    case checkpoint named (get_elem?-append_inv before last i at)
  where
    case :
        (checkpoint : CheckpointRecord)
        → checkpoint.parent_checkpoint_id ≡ some parent
        → (get_elem? before i ≡ some checkpoint) ⊎ ((i ≡ length before) × (checkpoint ≡ last))
        → (j : ℕ) × (above : CheckpointRecord) × (j < i)
          × (get_elem? (before ++ last ∷ []) j ≡ some above)
          × (key_of above ≡ (checkpoint.thread_id, parent))
    case checkpoint named (inl old) =
        let (j, above, lt, there, key) = rooted i checkpoint parent old named in
        (j, above, lt, get_elem?-append_left before (last ∷ []) j there, key)
    case checkpoint named (inr (e, f)) =
        let (j, above, lt, there, key) =
          prior parent (ap (λ c. c.parent_checkpoint_id) (sym f) ∙ named) in
        (j, above, omega arith, there, key ∙ ap (λ c. (c.thread_id, parent)) (sym f))
