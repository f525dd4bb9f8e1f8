-- ===== src/Avl/Runs.antt =====
-- Total correctness of actions: `Runs m s Q` says that `m` succeeds from `s`, with a result and a
-- state of which `Q` holds. Rules for the parts of a `do` block, and for what a growing arena keeps.
use tulya_checkpoint_store.Prelude.{
  ℕ, ◌+◌, ◌≤◌, ◌≡◌, refl, ap, sym, ◌∙◌, [], ◌++◌, arith, length, slice-append, length-append,
  append-nil, append_assoc, get_elem?-append_left, Result, ok,
}
use tulya_checkpoint_store.Format.Records.{Sha256}
use tulya_checkpoint_store.Avl.Arena.{AvlError, Arena}
use tulya_checkpoint_store.Avl.Action.{State, Action, pure, lift, reading, writing, inspect, ◌>>=◌}
use tulya_checkpoint_store.Avl.Tree.{Tree, leaf, branch, Stored, Grows}

module _ ⦃sha : Sha256⦄ where
  pub Stored-Grows : {a b : Arena} {n p : ℕ} → Grows a b n p → (t : Tree) → Stored a t → Stored b t
  Stored-Grows {a} g (leaf i offset bytes) h = (
    rw g.nodes (get_elem?-append_left a.nodes g.new_nodes i h.0),
    rw g.payload (slice-append a.payload g.new_payload offset (offset + length bytes) h.1),
  )
  Stored-Grows {a} g (branch i l r) h = (
    rw g.nodes (get_elem?-append_left a.nodes g.new_nodes i h.0),
    Stored-Grows g l h.1,
    Stored-Grows g r h.2,
  )

pub Grows-refl : (a : Arena) → Grows a a 0 0
Grows-refl a = record {
  new_nodes = [];
  new_payload = [];
  nodes = sym (append-nil _);
  payload = sym (append-nil _);
  few_nodes = omega arith;
  few_bytes = omega arith;
}

pub Grows-trans :
    {a b c : Arena} {n m p q : ℕ} → Grows a b n p → Grows b c m q → Grows a c (n + m) (p + q)
Grows-trans {a} g k = record {
  new_nodes = g.new_nodes ++ k.new_nodes;
  new_payload = g.new_payload ++ k.new_payload;
  nodes = k.nodes ∙ rw (g.nodes) (append_assoc a.nodes g.new_nodes k.new_nodes);
  payload = k.payload ∙ rw (g.payload) (append_assoc a.payload g.new_payload k.new_payload);
  few_nodes = omega (arith, g.few_nodes, k.few_nodes, length-append {0} g.new_nodes k.new_nodes);
  few_bytes =
      omega (arith, g.few_bytes, k.few_bytes, length-append {0} g.new_payload k.new_payload);
}

pub Grows-weaken : {a b : Arena} {n m p q : ℕ} → n ≤ m → p ≤ q → Grows a b n p → Grows a b m q
Grows-weaken h k g = record {
  new_nodes = g.new_nodes;
  new_payload = g.new_payload;
  nodes = g.nodes;
  payload = g.payload;
  few_nodes = omega (arith, g.few_nodes);
  few_bytes = omega (arith, g.few_bytes);
}

pub Grows-node_count : {a b : Arena} {n p : ℕ} → Grows a b n p → length b.nodes ≤ length a.nodes + n
Grows-node_count {a} {b} g =
    omega (arith, g.few_nodes, ap length g.nodes, length-append {0} a.nodes g.new_nodes)

pub Grows-byte_count :
    {a b : Arena} {n p : ℕ} → Grows a b n p → length b.payload ≤ length a.payload + p
Grows-byte_count {a} {b} g =
    omega (arith, g.few_bytes, ap length g.payload, length-append {0} a.payload g.new_payload)

pub record Runs {A : Type 0} (m : Action A) (s : State) (Q : A → State → Type 0) : Type 0 where
  pub value : A
  pub after : State
  pub run : m s ≡ (ok value, after)
  pub post : Q value after

module _ {A B : Type 0} where
  pub Runs-bind :
      {P : A → State → Type 0} {Q : B → State → Type 0} (m : Action A) (f : A → Action B)
      (s : State)
      → Runs m s P
      → ((a : A) (s' : State) → P a s' → Runs (f a) s' Q)
      → Runs (m >>= f) s Q
  unfolding ◌>>=◌
  Runs-bind m f s r k =
      let rest = k r.value r.after r.post in
      record { value = rest.value; after = rest.after; run = rw (r.run) rest.run; post = rest.post }

  -- A read that is known to succeed, then the rest.
  pub Runs-reading :
      {Q : B → State → Type 0} (g : Arena → Result AvlError A) (f : A → Action B) (s : State)
      {a : A}
      → g s.arena ≡ ok a
      → Runs (f a) s Q
      → Runs (reading g >>= f) s Q
  unfolding ◌>>=◌
  Runs-reading g f s h r = record {
    value = r.value;
    after = r.after;
    run = rw h r.run;
    post = r.post;
  }

  pub Runs-lift :
      {Q : B → State → Type 0} (g : Result AvlError A) (f : A → Action B) (s : State) {a : A}
      → g ≡ ok a
      → Runs (f a) s Q
      → Runs (lift g >>= f) s Q
  unfolding ◌>>=◌
  Runs-lift g f s h r = record { value = r.value; after = r.after; run = rw h r.run; post = r.post }

module _ {A : Type 0} where
  pub Runs-pure : {Q : A → State → Type 0} (a : A) (s : State) → Q a s → Runs (pure a) s Q
  Runs-pure a s q = record { value = a; after = s; run = refl; post = q }

  pub Runs-inspect :
      {Q : A → State → Type 0} (n : ℕ) (f : Unit {0} → Action A) (s : State)
      → Runs (f tt) (inspect n s).1 Q
      → Runs (inspect n >>= f) s Q
  unfolding ◌>>=◌
  Runs-inspect n f s r = record { value = r.value; after = r.after; run = r.run; post = r.post }

  pub Runs-writing :
      {Q : A → State → Type 0} (g : Arena → Arena) (f : Unit {0} → Action A) (s : State)
      → Runs (f tt) (writing g s).1 Q
      → Runs (writing g >>= f) s Q
  unfolding ◌>>=◌
  Runs-writing g f s r = record { value = r.value; after = r.after; run = r.run; post = r.post }

  pub Runs-imp :
      {P Q : A → State → Type 0} (m : Action A) (s : State)
      → Runs m s P
      → ((a : A) (s' : State) → P a s' → Q a s')
      → Runs m s Q
  Runs-imp m s r k = record {
    value = r.value;
    after = r.after;
    run = r.run;
    post = k r.value r.after r.post;
  }
