-- ===== src/Avl/SpliceChecks.antt =====
-- The checks of `splice_on` pass on a valid edit, and the edit of a parent that may be absent.
use tulya_checkpoint_store.Prelude.{
  ℕ, ◌+◌, ◌-◌, ◌*◌, ◌≤◌, ◌<◌, ◌≡◌, refl, ap, List, [], ◌∷◌, ◌++◌, Option, none, some, arith, length,
  take, take_all, drop_all, drop, u64_max, ok, length-append, length-take, length-drop, append-nil,
}
use tulya_checkpoint_store.Format.Records.{Sha256, RootRecord, none_node, max_leaf_payload_bytes}
use tulya_checkpoint_store.Avl.Arena.{Arena}
use tulya_checkpoint_store.Avl.Action.{State, lift}
use tulya_checkpoint_store.Avl.Splice.{
  splice_root, check_splice, check_effect, check_parent, source_length, root_or,
}
use tulya_checkpoint_store.Avl.Tree.{Tree, content, height_of, root_of, len_of-eq, Grows}
use tulya_checkpoint_store.Avl.Height.{max_height}
use tulya_checkpoint_store.Avl.Held.{node_for_root_held, validate_held}
use tulya_checkpoint_store.Avl.Runs.{Runs, Runs-pure, Grows-refl, Grows-weaken}
use tulya_checkpoint_store.Avl.Alloc.{Yields}
use tulya_checkpoint_store.Avl.Pieces.{IsHeld}
use tulya_checkpoint_store.Avl.Sides.{content?, height?, root?, IsHeld?, YieldsOption}
use tulya_checkpoint_store.Avl.Insert.{insert_cost, is_empty-of_pos}
use tulya_checkpoint_store.Avl.SpliceRoot.{edit_cost, splice_root-Runs}

-- The edit of a list of bytes.
abbrev pub edit : List ℕ → ℕ → ℕ → List ℕ → List ℕ
edit bytes offset delete_len insert =
    take offset bytes ++ (insert ++ drop (offset + delete_len) bytes)

pub length-edit :
    (bytes : List ℕ) (offset delete_len : ℕ) (insert : List ℕ)
    → offset + delete_len ≤ length bytes
    → length (edit bytes offset delete_len insert) ≡ length bytes - delete_len + length insert
length-edit bytes offset delete_len insert h = omega (
  arith,
  length-append {0} (take offset bytes) (insert ++ drop (offset + delete_len) bytes),
  length-append {0} insert (drop (offset + delete_len) bytes),
  length-take {0} offset bytes,
  length-drop {0} (offset + delete_len) bytes,
)

module _ ⦃sha : Sha256⦄ where
  pub source_length_held :
      (arena : Arena) (parent : Option Tree)
      → IsHeld? arena parent
      → source_length arena (root? parent) ≡ ok (length (content? parent))
  unfolding source_length
  source_length_held arena none held = refl
  source_length_held arena (some t) held =
      rw (node_for_root_held arena t held.balanced held.stored) (ap ok (len_of-eq t))

  check_parent_held :
      (arena : Arena) (parent : Option Tree)
      → IsHeld? arena parent
      → length (content? parent) ≤ u64_max
      → check_parent arena (root? parent) ≡ ok tt
  unfolding check_parent
  check_parent_held arena none held n = refl
  check_parent_held arena (some t) held n =
      rw (node_for_root_held arena t held.balanced held.stored)
        (validate_held arena t held.balanced held.stored (omega (arith, len_of-eq t)))

  check_effect_held :
      (parent : Option Tree) (offset delete_len : ℕ) (insert : List ℕ)
      → offset + delete_len ≤ length (content? parent)
      → 0 < delete_len + length insert
      → check_effect (root? parent) offset delete_len insert ≡ ok tt
  unfolding check_effect
  check_effect_held none offset delete_len insert within effect =
      rw (is_empty-of_pos insert (omega arith)) (ground arith)
  check_effect_held (some t) offset delete_len [] within effect = ground arith
  check_effect_held (some t) offset delete_len (b ∷ insert) within effect = ground arith

  pub check_splice_succeeds :
      (arena : Arena) (parent : Option Tree) (offset delete_len : ℕ) (insert : List ℕ)
      → IsHeld? arena parent
      → offset + delete_len ≤ length (content? parent)
      → length (content? parent) ≤ u64_max
      → 0 < delete_len + length insert
      → 0 < length (content? parent) - delete_len + length insert
      → length (content? parent) - delete_len + length insert ≤ u64_max
      → check_splice arena (root? parent) offset delete_len insert ≡ ok tt
  unfolding check_splice
  check_splice_succeeds arena parent offset delete_len insert held within n effect some_left fits =
      rw
        (
          source_length_held arena parent held,
          check_effect_held parent offset delete_len insert within effect,
          check_parent_held arena parent held n,
        )
        (ground arith)

  -- The nodes that a splice allocates at most.
  abbrev pub splice_cost : List ℕ → ℕ
  splice_cost insert = insert_cost insert + edit_cost

  pub splice_root?-Runs :
      (middle parent : Option Tree) (offset delete_len : ℕ) (s : State)
      → IsHeld? s.arena middle
      → height? middle ≤ max_height
      → IsHeld? s.arena parent
      → offset + delete_len ≤ length (content? parent)
      → length (content? parent) ≤ u64_max
      → length (content? parent) - delete_len + length (content? middle) ≤ u64_max
      → length s.arena.payload + 2 * max_leaf_payload_bytes ≤ u64_max
      → length s.arena.nodes + edit_cost ≤ none_node
      → Runs (splice_root (root? middle) (root? parent) offset delete_len) s (
          YieldsOption s edit_cost
            (2 * max_leaf_payload_bytes)
            (edit (content? parent) offset delete_len (content? middle))
            max_height)
  splice_root?-Runs middle none offset delete_len s hm low hp within n fits small room =
      unfold splice_root in
      Runs-pure _ s (record {
        tree = middle;
        is_root = refl;
        held = hm;
        bytes_eq = cc (
          take_all {A = ℕ} offset [] (omega arith),
          drop_all {A = ℕ} (offset + delete_len) [] (omega arith),
          append-nil (content? middle),
        );
        not_high = low;
        grows = Grows-weaken (omega arith) (omega arith) (Grows-refl s.arena);
      })
  splice_root?-Runs middle (some t) offset delete_len s hm low hp within n fits small room =
      splice_root-Runs middle t offset delete_len s hm hp (omega (arith, len_of-eq t))
        (omega (arith, len_of-eq t)) (omega (arith, len_of-eq t)) small room

  some-Yields :
      {s : State} {n p : ℕ} {bytes : List ℕ} (t : Tree) (u : State)
      → IsHeld u.arena t
      → content t ≡ bytes
      → height_of t ≤ max_height
      → Grows s.arena u.arena n p
      → Yields s n p bytes 0 max_height (root_of t) u
  some-Yields t u held e low g = record {
    tree = t;
    is_root = refl;
    balanced = held.balanced;
    stored = held.stored;
    bytes_eq = e;
    not_low = omega arith;
    not_high = low;
    grows = g;
  }

  -- The root that is left at the end is there.
  pub root_or-Runs :
      {s : State} {n p : ℕ} {bytes : List ℕ} (parent : Option RootRecord) (tree : Option Tree)
      (u : State)
      → IsHeld? u.arena tree
      → content? tree ≡ bytes
      → 0 < length bytes
      → height? tree ≤ max_height
      → Grows s.arena u.arena n p
      → Runs (lift (root_or parent (root? tree))) u (Yields s n p bytes 0 max_height)
  root_or-Runs parent none u held e pos low g = absurd (omega (arith, ap length e))
  root_or-Runs none (some t) u held e pos low g =
      unfold root_or in
      record { value = root_of t; after = u; run = refl; post = some-Yields t u held e low g }
  root_or-Runs (some r) (some t) u held e pos low g =
      unfold root_or in
      record { value = root_of t; after = u; run = refl; post = some-Yields t u held e low g }
