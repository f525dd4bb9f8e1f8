-- ===== src/Avl/Insert.antt =====
-- `build_insert_subtree_on`: the inserted bytes become one balanced subtree, in rounds of pairing.
use tulya_checkpoint_store.Prelude.{
  ℕ, zero, suc, ◌+◌, ◌*◌, ◌≤◌, ◌<◌, ◌≡◌, refl, sym, ap, ◌∙◌, false, List, [], ◌∷◌, none, some,
  arith, length, is_empty, u64_max, append-nil,
}
use tulya_checkpoint_store.Format.Records.{Sha256, none_node}
use tulya_checkpoint_store.Avl.Action.{State}
use tulya_checkpoint_store.Avl.Splice.{
  chunks_on, chunks, pair_rounds, build_insert_subtree, build_middle,
}
use tulya_checkpoint_store.Avl.Tree.{Tree, content, len_of-eq}
use tulya_checkpoint_store.Avl.Height.{max_height, height_of-le}
use tulya_checkpoint_store.Avl.Runs.{
  Runs, Runs-bind, Runs-pure, Grows-refl, Grows-weaken, Grows-node_count,
}
use tulya_checkpoint_store.Avl.Alloc.{Yields}
use tulya_checkpoint_store.Avl.Pieces.{Yields-IsHeld, Runs-settle}
use tulya_checkpoint_store.Avl.Sides.{YieldsOption}
use tulya_checkpoint_store.Avl.Levels.{
  flatten-chunks, chunks-AllFit, contents, roots_of, length-roots_of, AllHeld, allocate_leaves-Runs,
  pair_level-Runs,
}

pub is_empty-of_pos : {A : Type 0} (xs : List A) → 0 < length xs → is_empty xs ≡ false
is_empty-of_pos [] h = absurd (omega arith)
is_empty-of_pos (x ∷ xs) h = refl

module _ ⦃sha : Sha256⦄ where
  pair_rounds-Runs :
      (fuel : ℕ) (ts : List Tree) (s : State)
      → AllHeld s.arena ts
      → 0 < length ts
      → length ts ≤ fuel
      → length (contents ts) ≤ u64_max
      → length s.arena.nodes + 768 * length ts ≤ none_node
      → Runs
          (pair_rounds fuel (roots_of ts))
          s
          (Yields s (768 * length ts) 0 (contents ts) 0 max_height)
  unfolding pair_rounds
  pair_rounds-Runs fuel [] s held some_left enough n room = absurd (omega arith)
  pair_rounds-Runs fuel (t ∷ []) s held some_left enough n room = Runs-pure _ s (record {
    tree = t;
    is_root = refl;
    balanced = held.0.balanced;
    stored = held.0.stored;
    bytes_eq = sym (append-nil _);
    not_low = omega arith;
    not_high =
        height_of-le t held.0.balanced
          (omega (arith, len_of-eq t, ap length (append-nil (content t))));
    grows = Grows-weaken (omega arith) (omega arith) (Grows-refl s.arena);
  })
  pair_rounds-Runs zero (l ∷ r ∷ rest) s held some_left enough n room = absurd (omega arith)
  pair_rounds-Runs (suc fuel) (l ∷ r ∷ rest) s held some_left enough n room =
      Runs-bind _ _ s (pair_level-Runs (l ∷ r ∷ rest) s held n (omega arith)) (λ level t y.
        rw (y.are_roots) (
          Runs-settle _ y.grows y.bytes_eq (omega arith) (omega arith) (omega (arith, y.size_eq))
            (omega arith)
            (pair_rounds-Runs fuel y.trees t y.held (omega (arith, y.size_eq))
              (omega (arith, y.size_eq)) (omega (arith, ap length y.bytes_eq))
              (omega (arith, y.size_eq, Grows-node_count y.grows)))))

  -- The nodes of the inserted subtree at most: a leaf and a concatenation for each chunk.
  abbrev pub insert_cost : List ℕ → ℕ
  insert_cost insert = 769 * length (chunks insert)

  chunks-pos : (insert : List ℕ) → 0 < length insert → 0 < length (chunks insert)
  chunks-pos [] h = absurd (omega arith)
  chunks-pos (b ∷ bytes) h = unfold chunks chunks_on in omega arith

  pub build_insert_subtree-Runs :
      (insert : List ℕ) (s : State)
      → 0 < length insert
      → length s.arena.payload + length insert ≤ u64_max
      → length s.arena.nodes + insert_cost insert ≤ none_node
      → Runs
          (build_insert_subtree insert)
          s
          (Yields s (insert_cost insert) (length insert) insert 0 max_height)
  unfolding build_insert_subtree
  build_insert_subtree-Runs insert s pos small room =
      let all = ap length (flatten-chunks insert) in
      Runs-bind _ _ s
        (allocate_leaves-Runs (chunks insert) s (chunks-AllFit insert) (omega (arith, all))
          (omega arith))
        (λ level t y.
          rw (y.are_roots, length-roots_of y.trees)
            (Runs-settle _ y.grows (y.bytes_eq ∙ flatten-chunks insert) (omega arith) (omega arith)
              (omega (arith, y.size_eq)) (omega (arith, all))
              (pair_rounds-Runs (length y.trees) y.trees t y.held
                (omega (arith, y.size_eq, chunks-pos insert pos)) (omega arith)
                (omega (arith, all, ap length y.bytes_eq))
                (omega (arith, y.size_eq, Grows-node_count y.grows)))))

  pub build_middle-Runs :
      (insert : List ℕ) (s : State)
      → length s.arena.payload + length insert ≤ u64_max
      → length s.arena.nodes + insert_cost insert ≤ none_node
      → Runs
          (build_middle insert)
          s
          (YieldsOption s (insert_cost insert) (length insert) insert max_height)
  unfolding build_middle
  build_middle-Runs [] s small room = Runs-pure none s (record {
    tree = none;
    is_root = refl;
    held = tt;
    bytes_eq = refl;
    not_high = omega arith;
    grows = Grows-weaken (omega arith) (omega arith) (Grows-refl s.arena);
  })
  build_middle-Runs (b ∷ bytes) s small room =
      Runs-bind _ _ s (build_insert_subtree-Runs (b ∷ bytes) s (omega arith) small room)
        (λ root t y. Runs-pure _ t (record {
          tree = some y.tree;
          is_root = cc (y.is_root);
          held = Yields-IsHeld y;
          bytes_eq = y.bytes_eq;
          not_high = y.not_high;
          grows = y.grows;
        }))
