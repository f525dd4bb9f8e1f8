-- ===== src/Avl/Levels.antt =====
-- A level of subtrees: the leaves of the inserted bytes, and one round of pairing.
use tulya_checkpoint_store.Prelude.{
  ℕ, zero, suc, ◌+◌, ◌*◌, ◌/◌, ◌≤◌, ◌<◌, ◌≡◌, refl, ap, ◌∙◌, List, [], ◌∷◌, ◌++◌, arith, length,
  take, drop, u64_max, append_assoc, length-append, length-take, length-drop, take-append-drop,
}
use tulya_checkpoint_store.Format.Records.{Sha256, RootRecord, none_node, max_leaf_payload_bytes}
use tulya_checkpoint_store.Avl.Arena.{Arena}
use tulya_checkpoint_store.Avl.Action.{State}
use tulya_checkpoint_store.Avl.Splice.{chunks_on, chunks, allocate_leaves, pair_level}
use tulya_checkpoint_store.Avl.Tree.{Tree, root_of, content, len_of-eq, Grows}
use tulya_checkpoint_store.Avl.Height.{height_of-le}
use tulya_checkpoint_store.Avl.Runs.{
  Runs, Runs-bind, Runs-pure, Grows-refl, Grows-trans, Grows-weaken, Grows-node_count,
  Grows-byte_count,
}
use tulya_checkpoint_store.Avl.Alloc.{allocate_leaf-Runs}
use tulya_checkpoint_store.Avl.Pieces.{IsHeld, Yields-IsHeld, IsHeld-Grows}
use tulya_checkpoint_store.Avl.Concat.{concat-Runs}

abbrev pub flatten : List (List ℕ) → List ℕ
flatten [] = []
flatten (chunk ∷ rest) = chunk ++ flatten rest

-- Chunks that fit a leaf.
abbrev pub AllFit : List (List ℕ) → Type 0
AllFit [] = Unit
AllFit (chunk ∷ rest) = (0 < length chunk) × (length chunk ≤ max_leaf_payload_bytes) × AllFit rest

flatten-chunks_on :
    (fuel : ℕ) (bytes : List ℕ) → length bytes ≤ fuel → flatten (chunks_on fuel bytes) ≡ bytes
unfolding chunks_on
flatten-chunks_on zero [] h = refl
flatten-chunks_on zero (b ∷ bytes) h = absurd (omega arith)
flatten-chunks_on (suc fuel) [] h = refl
flatten-chunks_on (suc fuel) (b ∷ bytes) h =
    ap (λ l. take max_leaf_payload_bytes (b ∷ bytes) ++ l)
      (flatten-chunks_on fuel (drop max_leaf_payload_bytes (b ∷ bytes))
        (omega (arith, length-drop {0} max_leaf_payload_bytes (b ∷ bytes))))
    ∙ take-append-drop max_leaf_payload_bytes (b ∷ bytes)

chunks_on-AllFit : (fuel : ℕ) (bytes : List ℕ) → AllFit (chunks_on fuel bytes)
unfolding chunks_on
chunks_on-AllFit zero [] = tt
chunks_on-AllFit zero (b ∷ bytes) = tt
chunks_on-AllFit (suc fuel) [] = tt
chunks_on-AllFit (suc fuel) (b ∷ bytes) = (
  omega (arith, length-take {0} max_leaf_payload_bytes (b ∷ bytes)),
  omega (arith, length-take {0} max_leaf_payload_bytes (b ∷ bytes)),
  chunks_on-AllFit fuel (drop max_leaf_payload_bytes (b ∷ bytes)),
)

pub flatten-chunks : (bytes : List ℕ) → flatten (chunks bytes) ≡ bytes
unfolding chunks
flatten-chunks bytes = flatten-chunks_on (length bytes) bytes (omega arith)

pub chunks-AllFit : (bytes : List ℕ) → AllFit (chunks bytes)
unfolding chunks
chunks-AllFit bytes = chunks_on-AllFit (length bytes) bytes

abbrev pub contents : List Tree → List ℕ
contents [] = []
contents (t ∷ rest) = content t ++ contents rest

module _ ⦃sha : Sha256⦄ where
  abbrev pub roots_of : List Tree → List RootRecord
  roots_of [] = []
  roots_of (t ∷ rest) = root_of t ∷ roots_of rest

  pub length-roots_of : (ts : List Tree) → length (roots_of ts) ≡ length ts
  length-roots_of [] = refl
  length-roots_of (t ∷ rest) = ap suc (length-roots_of rest)

  abbrev pub AllHeld : Arena → List Tree → Type 0
  AllHeld arena [] = Unit
  AllHeld arena (t ∷ rest) = IsHeld arena t × AllHeld arena rest

  pub AllHeld-Grows :
      {a b : Arena} {n p : ℕ} → Grows a b n p → (ts : List Tree) → AllHeld a ts → AllHeld b ts
  AllHeld-Grows g [] h = tt
  AllHeld-Grows g (t ∷ rest) h = (IsHeld-Grows g t h.0, AllHeld-Grows g rest h.1)

  -- The roots of so many held trees, with these bytes in order.
  pub record YieldsLevel (s : State) (node_count byte_count : ℕ) (bytes : List ℕ) (size : ℕ)
      (level : List RootRecord) (after : State) : Type 0 where
    pub trees : List Tree
    pub are_roots : level ≡ roots_of trees
    pub held : AllHeld after.arena trees
    pub bytes_eq : contents trees ≡ bytes
    pub size_eq : length trees ≡ size
    pub grows : Grows s.arena after.arena node_count byte_count

  pub allocate_leaves-Runs :
      (level : List (List ℕ)) (s : State)
      → AllFit level
      → length s.arena.payload + length (flatten level) ≤ u64_max
      → length s.arena.nodes + length level ≤ none_node
      → Runs
          (allocate_leaves level)
          s
          (YieldsLevel s (length level) (length (flatten level)) (flatten level) (length level))
  unfolding allocate_leaves
  allocate_leaves-Runs [] s fit small room = Runs-pure [] s (record {
    trees = [];
    are_roots = refl;
    held = tt;
    bytes_eq = refl;
    size_eq = refl;
    grows = Grows-refl s.arena;
  })
  allocate_leaves-Runs (chunk ∷ rest) s fit small room =
      let total = length-append {0} chunk (flatten rest) in
      Runs-bind _ _ s (allocate_leaf-Runs chunk s fit.0 fit.1 (omega (arith, total)) (omega arith))
        (λ leaf t y.
          Runs-bind _ _ t
            (allocate_leaves-Runs rest t fit.2 (omega (arith, total, Grows-byte_count y.grows))
              (omega (arith, Grows-node_count y.grows)))
            (λ level u z. Runs-pure _ u (record {
              trees = y.tree ∷ z.trees;
              are_roots = cc (y.is_root, z.are_roots);
              held = (IsHeld-Grows z.grows y.tree (Yields-IsHeld y), z.held);
              bytes_eq =
                  ap (λ l. l ++ contents z.trees) y.bytes_eq ∙ ap (λ l. chunk ++ l) z.bytes_eq;
              size_eq = omega (arith, z.size_eq);
              grows =
                  Grows-weaken (omega arith) (omega (arith, total)) (Grows-trans y.grows z.grows);
            })))

  -- One round halves the level, rounding up, at the cost of a concatenation for each pair.
  pub pair_level-Runs :
      (ts : List Tree) (s : State)
      → AllHeld s.arena ts
      → length (contents ts) ≤ u64_max
      → length s.arena.nodes + 768 * (length ts / 2) ≤ none_node
      → Runs
          (pair_level (roots_of ts))
          s
          (YieldsLevel s (768 * (length ts / 2)) 0 (contents ts) ((length ts + 1) / 2))
  unfolding pair_level
  pair_level-Runs [] s held n room = Runs-pure [] s (record {
    trees = [];
    are_roots = refl;
    held = tt;
    bytes_eq = refl;
    size_eq = omega arith;
    grows = Grows-weaken (omega arith) (omega arith) (Grows-refl s.arena);
  })
  pair_level-Runs (last ∷ []) s held n room = Runs-pure _ s (record {
    trees = last ∷ [];
    are_roots = refl;
    held = held;
    bytes_eq = refl;
    size_eq = omega arith;
    grows = Grows-weaken (omega arith) (omega arith) (Grows-refl s.arena);
  })
  pair_level-Runs (l ∷ r ∷ rest) s held n room =
      let outer = length-append {0} (content l) (content r ++ contents rest) in
      let inner = length-append {0} (content r) (contents rest) in
      let low_l = height_of-le l held.0.balanced (omega (arith, outer, len_of-eq l)) in
      let low_r = height_of-le r held.1.0.balanced (omega (arith, outer, inner, len_of-eq r)) in
      Runs-bind _ _ s
        (concat-Runs l r s held.0 held.1.0 (omega (arith, outer, inner, len_of-eq l, len_of-eq r))
          (omega arith))
        (λ root t y.
          Runs-bind _ _ t
            (pair_level-Runs rest t (AllHeld-Grows y.grows rest held.1.1)
              (omega (arith, outer, inner)) (omega (arith, Grows-node_count y.grows)))
            (λ next u z. Runs-pure _ u (record {
              trees = y.tree ∷ z.trees;
              are_roots = cc (y.is_root, z.are_roots);
              held = (IsHeld-Grows z.grows y.tree (Yields-IsHeld y), z.held);
              bytes_eq =
                  ap (λ b. b ++ contents z.trees) y.bytes_eq
                  ∙ ap (λ b. (content l ++ content r) ++ b) z.bytes_eq
                  ∙ append_assoc (content l) (content r) (contents rest);
              size_eq = omega (arith, z.size_eq);
              grows = Grows-weaken (omega arith) (omega arith) (Grows-trans y.grows z.grows);
            })))
