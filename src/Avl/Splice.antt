-- ===== src/Avl/Splice.antt =====
-- `splice` and `append` of avl.rs: the checks, the subtree of inserted bytes, the edit, and the
-- rollback. A failed reservation of memory (`try_reserve_exact`) is not modelled.
use tulya_checkpoint_store.Prelude.{
  ℕ, zero, suc, ◌-◌, List, [], ◌∷◌, Option, none, some, ltb, ◌==◌, not, ◌&&◌, ◌||◌, if◌then◌else◌,
  length, is_empty, take, drop, Result, ok, err, ◌>>=◌, ◌>>◌, reject, try_from, checked_add,
  u64_max,
}
use tulya_checkpoint_store.Format.Records.{Sha256, RootRecord, max_leaf_payload_bytes}
use tulya_checkpoint_store.Avl.Arena.{
  AvlError, invalid, overflow, Arena, arena_truncate, node_for_root, validate_node,
}
use tulya_checkpoint_store.Avl.Action
use tulya_checkpoint_store.Avl.Action.{Fault, raised, out_of_fuel, State, Action, pure, fail, lift}
use tulya_checkpoint_store.Avl.Edit.{allocate_leaf, concat, concat_optional, split}

-- `V2SpliceResult`
pub record SpliceResult : Type 0 where
  pub root : RootRecord
  pub allocated_nodes : ℕ
  pub inspected_nodes : ℕ
  pub payload_bytes_allocated : ℕ

-- `V2AppendResult`
pub record AppendResult : Type 0 where
  pub root : RootRecord
  pub allocated_nodes : ℕ
  pub inspected_nodes : ℕ

-- `insert.chunks(MAX_LEAF_PAYLOAD_BYTES)`; each round takes a byte at least.
unfoldable pub chunks_on : ℕ → List ℕ → List (List ℕ)
chunks_on fuel [] = []
chunks_on zero (b ∷ bytes) = []
chunks_on (suc fuel) (b ∷ bytes) =
    take max_leaf_payload_bytes (b ∷ bytes)
    ∷ chunks_on fuel (drop max_leaf_payload_bytes (b ∷ bytes))

unfoldable pub chunks : List ℕ → List (List ℕ)
chunks bytes = chunks_on (length bytes) bytes

-- The bind of actions, beside that of results.
infixl 5 ◌⟫=◌
abbrev pub ◌⟫=◌ : {A B : Type 0} → Action A → (A → Action B) → Action B
m ⟫= f = Action.◌>>=◌ m f

module _ ⦃sha : Sha256⦄ where
  -- `for chunk in …{ level.push(allocate_leaf_on(chunk)?) }`
  unfoldable pub allocate_leaves : List (List ℕ) → Action (List RootRecord)
  allocate_leaves [] = pure []
  allocate_leaves (chunk ∷ rest) =
      allocate_leaf chunk ⟫= λ leaf. allocate_leaves rest ⟫= λ level. pure (leaf ∷ level)

  -- One round of pairing.
  unfoldable pub pair_level : List RootRecord → Action (List RootRecord)
  pair_level [] = pure []
  pair_level (last ∷ []) = pure (last ∷ [])
  pair_level (left ∷ right ∷ rest) =
      concat left right ⟫= λ root. pair_level rest ⟫= λ next. pure (root ∷ next)

  -- `while level.len() > 1`, then `level.pop()`.
  unfoldable pub pair_rounds : ℕ → List RootRecord → Action RootRecord
  pair_rounds fuel [] = lift (err (invalid "v2 sequence insert produced no content"))
  pair_rounds fuel (root ∷ []) = pure root
  pair_rounds zero (left ∷ right ∷ rest) = fail out_of_fuel
  pair_rounds (suc fuel) (left ∷ right ∷ rest) =
      pair_level (left ∷ right ∷ rest) ⟫= pair_rounds fuel

  unfoldable pub build_insert_subtree : List ℕ → Action RootRecord
  build_insert_subtree insert =
      allocate_leaves (chunks insert) ⟫= λ level. pair_rounds (length level) level

  unfoldable pub build_middle : List ℕ → Action (Option RootRecord)
  build_middle insert =
      if is_empty insert
      then pure none
      else (build_insert_subtree insert ⟫= λ root. pure (some root))

  -- What stays to the right of the deleted range.
  unfoldable pub right_of_deleted : Option RootRecord → ℕ → Action (Option RootRecord)
  right_of_deleted none delete_len = pure none
  right_of_deleted (some mid) delete_len =
      if delete_len == 0
      then pure (some mid)
      else (split mid delete_len ⟫= λ (_, right). pure right)

  unfoldable pub splice_root :
      Option RootRecord → Option RootRecord → ℕ → ℕ → Action (Option RootRecord)
  splice_root middle none offset delete_len = pure middle
  splice_root middle (some root) offset delete_len = split root offset ⟫= λ (left, mid_right).
      right_of_deleted mid_right delete_len ⟫= λ right.
      concat_optional left middle ⟫= λ combined. concat_optional combined right

  -- `ok_or` on the root that is left, with the message of the branch that it came from.
  unfoldable pub root_or : Option RootRecord → Option RootRecord → Result AvlError RootRecord
  root_or parent (some root) = ok root
  root_or none none = err (invalid "v2 sequence root creation produced no content")
  root_or (some _) none = err (invalid "v2 sequence splice produced an empty root")

  unfoldable pub splice_inner : Option RootRecord → ℕ → ℕ → List ℕ → Action RootRecord
  splice_inner parent offset delete_len insert = build_middle insert ⟫= λ middle.
      splice_root middle parent offset delete_len ⟫= λ root. lift (root_or parent root)

-- `match parent { None => 0, Some(root) => { node_for_root_on(root)?; root.logical_len() } }`
unfoldable pub source_length : Arena → Option RootRecord → Result AvlError ℕ
source_length arena none = ok 0
source_length arena (some root) = do node ← node_for_root arena root; ok root.logical_len

unfoldable pub check_effect : Option RootRecord → ℕ → ℕ → List ℕ → Result AvlError (Unit {0})
check_effect none offset delete_len insert = do
  reject (not (offset == 0) || not (delete_len == 0))
      (invalid "v2 sequence root creation requires zero offset and delete length")
  reject (is_empty insert) (invalid "v2 sequence root creation requires non-empty insert")
check_effect (some _) offset delete_len insert =
    reject (delete_len == 0 && is_empty insert)
      (invalid "v2 sequence splice without effect is rejected")

module _ ⦃sha : Sha256⦄ where
  unfoldable pub check_parent : Arena → Option RootRecord → Result AvlError (Unit {0})
  check_parent arena none = ok tt
  check_parent arena (some root) = do node ← node_for_root arena root; validate_node arena node

  -- All that `splice_on` checks before it touches the arena.
  unfoldable pub check_splice :
      Arena → Option RootRecord → ℕ → ℕ → List ℕ → Result AvlError (Unit {0})
  check_splice arena parent offset delete_len insert = do
    source_len ← source_length arena parent
    reject (ltb source_len offset) (invalid "v2 sequence splice offset exceeds parent length")
    reject (ltb (source_len - offset) delete_len)
        (invalid "v2 sequence splice delete range exceeds parent length")
    insert_len ← try_from u64_max (length insert) (overflow "v2 sequence insert length exceeds u64")
    result_len ←
        checked_add u64_max (source_len - delete_len) insert_len
          (overflow "v2 sequence splice result length exceeds u64")
    check_effect parent offset delete_len insert
    reject (result_len == 0) (invalid "v2 sequence splice result must be non-empty")
    check_parent arena parent

-- The report of a finished edit, or the rollback to the lengths at entry.
unfoldable pub finish_splice :
    Arena → Result Fault RootRecord × State → Result Fault SpliceResult × Arena
finish_splice entry (ok root, s) = (
  ok (record {
    root = root;
    allocated_nodes = length s.arena.nodes - length entry.nodes;
    inspected_nodes = s.inspected;
    payload_bytes_allocated = length s.arena.payload - length entry.payload;
  }),
  s.arena,
)
finish_splice entry (err e, s) =
    (err e, arena_truncate (length entry.payload) (length entry.nodes) s.arena)

module _ ⦃sha : Sha256⦄ where
  -- `splice_on`
  unfoldable pub splice :
      Arena → Option RootRecord → ℕ → ℕ → List ℕ → Result Fault SpliceResult × Arena
  splice arena parent offset delete_len insert =
      elim (check_splice arena parent offset delete_len insert) [
        | err e ↦ (err (raised e), arena)
        | ok _ ↦
            finish_splice arena (
              splice_inner parent offset delete_len insert
                (record { arena = arena; inspected = 0 }))
      ]

  -- `parent.map_or(0, V2RootRecord::logical_len)`
  abbrev pub end_of : Option RootRecord → ℕ
  end_of none = 0
  end_of (some root) = root.logical_len

  -- `append_on`
  unfoldable pub append : Arena → Option RootRecord → List ℕ → Result Fault AppendResult × Arena
  append arena parent bytes =
      let (r, arena') = splice arena parent (end_of parent) 0 bytes in
      (
        r >>= λ result. ok (record {
          root = result.root;
          allocated_nodes = result.allocated_nodes;
          inspected_nodes = result.inspected_nodes;
        }),
        arena',
      )
