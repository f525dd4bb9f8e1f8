-- ===== src/Avl/AppendLaws.antt =====
-- `append`, which is a splice at the end of its parent.
use tulya_checkpoint_store.Prelude.{
  ℕ, ◌+◌, ◌*◌, ◌≤◌, ◌<◌, ◌≡◌, refl, ap, ◌∙◌, List, ◌++◌, Option, none, some, arith, length, drop,
  take_all, drop_all, append-nil, length-append, u64_max, ok,
}
use tulya_checkpoint_store.Format.Records.{Sha256, none_node, max_leaf_payload_bytes}
use tulya_checkpoint_store.Avl.Arena.{Arena}
use tulya_checkpoint_store.Avl.Splice.{AppendResult, append, end_of}
use tulya_checkpoint_store.Avl.Read.{read_range}
use tulya_checkpoint_store.Avl.Tree.{Tree, len_of-eq}
use tulya_checkpoint_store.Avl.Sides.{content?, root?, IsHeld?}
use tulya_checkpoint_store.Avl.SpliceChecks.{edit, splice_cost}
use tulya_checkpoint_store.Avl.SpliceLaws.{splice-edit}
use tulya_checkpoint_store.Avl.ReadLaws.{read_all}

edit_end : (bytes insert : List ℕ) → edit bytes (length bytes) 0 insert ≡ bytes ++ insert
edit_end bytes insert =
    ap (λ l. l ++ (insert ++ drop (length bytes + 0) bytes))
      (take_all (length bytes) bytes (omega arith))
    ∙ ap (λ r. bytes ++ (insert ++ r)) (drop_all (length bytes + 0) bytes (omega arith))
    ∙ ap (λ r. bytes ++ r) (append-nil insert)

module _ ⦃sha : Sha256⦄ where
  end_of-root? : (parent : Option Tree) → end_of (root? parent) ≡ length (content? parent)
  end_of-root? none = refl
  end_of-root? (some t) = len_of-eq t

  -- Appending some bytes to a held version, or to none, succeeds when there is room, and the new
  -- root reads as the old bytes with the new ones behind them.
  pub read-append :
      (arena : Arena) (parent : Option Tree) (bytes : List ℕ)
      → IsHeld? arena parent
      → 0 < length bytes
      → length (content? parent) + length bytes ≤ u64_max
      → length arena.payload + length bytes + 2 * max_leaf_payload_bytes ≤ u64_max
      → length arena.nodes + splice_cost bytes ≤ none_node
      → (result : AppendResult) × (after : Arena) × (append arena (root? parent) bytes
          ≡ (ok result, after))
        × (read_range after result.root 0 result.root.logical_len ≡ ok (content? parent ++ bytes))
  unfolding append
  read-append arena parent bytes held some_bytes fits small room =
      let (result, after, e, r) =
        splice-edit arena parent (length (content? parent)) 0 bytes held (omega arith) (omega arith)
          (omega arith) (omega arith) (omega arith) small room in
      let same = r.bytes_eq ∙ edit_end (content? parent) bytes in
      (
        record {
          root = result.root;
          allocated_nodes = result.allocated_nodes;
          inspected_nodes = result.inspected_nodes;
        },
        after,
        rw (end_of-root? parent) (rw e refl),
        rw (r.is_root) (
            read_all after r.tree r.held (
              omega (
                arith,
                len_of-eq r.tree,
                ap length same,
                length-append {0} (content? parent) bytes,
              ))
            ∙ ap ok same),
      )
