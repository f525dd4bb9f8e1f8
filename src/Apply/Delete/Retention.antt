-- ===== src/Apply/Delete/Retention.antt =====
-- The loop of `prepare_delete_ledgers` over the checkpoints keeps those that the mask leaves, with
-- their ordinals, and adds the identities of the others to the deleted ones.
use mathlib.Core.Path.{subst}
use tulya_checkpoint_store.Prelude.{
  ℕ, suc, ◌+◌, ◌<◌, ◌≡◌, ◌∙◌, refl, ap, sym, arith, List, [], ◌∷◌, ◌++◌, Option, none, some, true,
  false, Bool-cases, ◌⊎◌, inl, inr, lt-or-eq, ◌==◌, ==_iff, if◌then◌else◌, length, length-append,
  get_elem?, set, ok, bind_inv, checked_add_inv, ok_or_inv, u64_max, get_elem?-lt,
  get_elem?-append_left, get_elem?-append_self, get_elem?-append_inv, get_elem?-set_self,
  get_elem?-set_other, length-set,
}
use tulya_checkpoint_store.Publication.Records.{CheckpointRecord}
use tulya_checkpoint_store.Apply.Maps.{lookup, insert, contains}
use tulya_checkpoint_store.Apply.State.{CheckpointKey, same_key}
use tulya_checkpoint_store.Apply.Validate.{key_of}
use tulya_checkpoint_store.Apply.Conditions.{IsIndex, insert-IsIndex}
use tulya_checkpoint_store.Apply.Delete.Positions.{same_place}
use tulya_checkpoint_store.Apply.Delete.Ordinals.{Assigns, Assigns-le, set-Assigns}
use tulya_checkpoint_store.Apply.Delete.Ledgers.{
  Retained, insert_key, drop_checkpoint, with_checkpoint, keep_checkpoint, retain_from,
}
use tulya_checkpoint_store.Apply.Delete.Distribution.{
  contains-insert_key_self, contains-insert_key_other, contains-insert_key, Distributes,
}

module _ (positions : List (CheckpointKey × ℕ)) (checkpoints : List CheckpointRecord)
    (index : IsIndex positions checkpoints) (mask : List ℕ) (old : List CheckpointKey) where
  drop_checkpoint-Distributes :
      (kept : Retained) (n : ℕ) (checkpoint : CheckpointRecord) (slot : ℕ)
      → Distributes checkpoints mask old kept n
      → get_elem? checkpoints n ≡ some checkpoint
      → get_elem? mask n ≡ some slot
      → (slot == 0) ≡ false
      → Distributes checkpoints mask old (drop_checkpoint checkpoint kept) (suc n)
  unfolding drop_checkpoint
  drop_checkpoint-Distributes kept n last slot d at seen marked = record {
    index = d.index;
    next = d.next;
    size = d.size;
    retained = λ i checkpoint lt there zero_there. elim (lt-or-eq i n lt) [
      | inl earlier ↦ d.retained i checkpoint earlier there zero_there
      | inr e ↦
          let moved = ap (get_elem? mask) e in
          let is : slot ≡ 0 = cc (moved, seen, zero_there) in
          absurd (cc (marked, ap (λ s. s == 0) is))
    ];
    origin = λ m checkpoint there.
        let (i, lt, place, zero_there) = d.origin m checkpoint there in
        (i, omega arith, place, zero_there);
    dropped = λ i checkpoint s lt there seen' marked'. elim (lt-or-eq i n lt) [
      | inl earlier ↦
          contains-insert_key (key_of checkpoint) (key_of last) kept.deleted_checkpoints
            (d.dropped i checkpoint s earlier there seen' marked')
      | inr e ↦
          let moved = ap (get_elem? checkpoints) e in
          let is : checkpoint ≡ last = cc (moved, at, there) in
          subst
            (λ c.
              contains same_key (key_of c) (insert_key (key_of last) kept.deleted_checkpoints)
              ≡ true)
            (sym is) (contains-insert_key_self (key_of last) kept.deleted_checkpoints)
    ];
    others = λ key apart.
        contains-insert_key_other key (key_of last) kept.deleted_checkpoints
          (apart n last slot (omega arith) at seen marked)
        ∙ d.others key (λ i checkpoint s lt. apart i checkpoint s (omega arith));
    fewer = let e = d.fewer in omega arith;
    assigned = Assigns-le kept.new_ordinals (length kept.checkpoints) d.assigned (omega arith);
    remain =
        λ key h. contains-insert_key key (key_of last) kept.deleted_checkpoints (d.remain key h);
  }

  -- The key of a retained checkpoint is not yet in the new index.
  fresh_key :
      (kept : Retained) (n : ℕ) (checkpoint : CheckpointRecord)
      → Distributes checkpoints mask old kept n
      → get_elem? checkpoints n ≡ some checkpoint
      → lookup same_key (key_of checkpoint) kept.checkpoint_ordinals ≡ none
  fresh_key kept n last d at = go (lookup same_key (key_of last) kept.checkpoint_ordinals) refl
    where
      go :
          (found : Option ℕ)
          → lookup same_key (key_of last) kept.checkpoint_ordinals ≡ found
          → found ≡ none
      go none e = refl
      go (some m) e =
          let (checkpoint, there, key) = d.index.0 (key_of last) m e in
          let (i, lt, place, zero_there) = d.origin m checkpoint there in
          let same = same_place positions checkpoints index i n place at key in absurd (omega arith)

  with_checkpoint-Distributes :
      (kept : Retained) (n : ℕ) (checkpoint : CheckpointRecord)
      → Distributes checkpoints mask old kept n
      → get_elem? checkpoints n ≡ some checkpoint
      → get_elem? mask n ≡ some 0
      → Distributes checkpoints mask old
          (with_checkpoint n checkpoint (kept.next_ordinal + 1) kept)
          (suc n)
  unfolding with_checkpoint
  with_checkpoint-Distributes kept n last d at zero_here = record {
    index =
        subst
          (λ m.
            IsIndex (insert same_key (key_of last) m kept.checkpoint_ordinals)
              (kept.checkpoints ++ last ∷ []))
          (sym d.next)
          (insert-IsIndex kept.checkpoint_ordinals kept.checkpoints last d.index
            (fresh_key kept n last d at));
    next = let e = d.next in omega (arith, length-append kept.checkpoints (last ∷ []));
    size = length-set kept.new_ordinals n (some kept.next_ordinal) ∙ d.size;
    retained = λ i checkpoint lt there zero_there. elim (lt-or-eq i n lt) [
      | inl earlier ↦
          let (m, place, held) = d.retained i checkpoint earlier there zero_there in
          (
            m,
            get_elem?-set_other kept.new_ordinals n i (some kept.next_ordinal)
                  (λ e. absurd (omega arith))
                ∙ place,
            get_elem?-append_left kept.checkpoints (last ∷ []) m held,
          )
      | inr e ↦
          let moved = ap (get_elem? checkpoints) e in
          let is : last ≡ checkpoint = cc (moved, at, there) in
          (
            kept.next_ordinal,
            ap (get_elem? (set kept.new_ordinals n (some kept.next_ordinal))) e ∙ here,
            ap (get_elem? (kept.checkpoints ++ last ∷ [])) d.next
                ∙ get_elem?-append_self kept.checkpoints last []
                ∙ ap some is,
          )
    ];
    origin = λ m checkpoint there.
        came m checkpoint (get_elem?-append_inv kept.checkpoints last m there);
    dropped = λ i checkpoint s lt there seen marked. elim (lt-or-eq i n lt) [
      | inl earlier ↦ d.dropped i checkpoint s earlier there seen marked
      | inr e ↦
          let moved = ap (get_elem? mask) e in
          let is : s ≡ 0 = cc (moved, seen, zero_here) in absurd (cc (marked, ap (λ s. s == 0) is))
    ];
    others = λ key apart. d.others key (λ i checkpoint s lt. apart i checkpoint s (omega arith));
    remain = d.remain;
    fewer = let e = d.fewer in omega (arith, length-append kept.checkpoints (last ∷ []));
    assigned =
        let e = d.size in
        let lt = get_elem?-lt checkpoints n at in
        subst
          (λ m.
            Assigns (set kept.new_ordinals n (some m)) (suc n)
              (length (kept.checkpoints ++ last ∷ [])))
          (sym d.next)
          (set-Assigns kept.new_ordinals n (length kept.checkpoints) d.assigned (omega arith)
            (omega (arith, length-append kept.checkpoints (last ∷ []))));
  }
    where
      here :
          get_elem? (set kept.new_ordinals n (some kept.next_ordinal)) n
          ≡ some (some kept.next_ordinal)
      here =
          let e = d.size in
          let lt = get_elem?-lt checkpoints n at in
          get_elem?-set_self kept.new_ordinals n (some kept.next_ordinal) (omega arith)

      came :
          (m : ℕ) (checkpoint : CheckpointRecord)
          → (get_elem? kept.checkpoints m ≡ some checkpoint)
            ⊎ ((m ≡ length kept.checkpoints) × (checkpoint ≡ last))
          → (i : ℕ) × (i < suc n)
            × (get_elem? checkpoints i ≡ some checkpoint)
            × (get_elem? mask i ≡ some 0)
      came m checkpoint (inl held) =
          let (i, lt, place, zero_there) = d.origin m checkpoint held in
          (i, omega arith, place, zero_there)
      came m checkpoint (inr (e, f)) = (n, omega arith, at ∙ ap some (sym f), zero_here)

  retain_step :
      (kept : Retained) (n : ℕ) (checkpoint : CheckpointRecord) (slot : ℕ) {next : Retained}
      → Distributes checkpoints mask old kept n
      → get_elem? checkpoints n ≡ some checkpoint
      → get_elem? mask n ≡ some slot
      → (if slot == 0
          then keep_checkpoint n checkpoint kept
          else ok (drop_checkpoint checkpoint kept))
        ≡ ok next
      → Distributes checkpoints mask old next (suc n)
  unfolding keep_checkpoint
  retain_step kept n checkpoint slot {next} d at seen h = elim (Bool-cases (slot == 0)) [
    | inl kept_here ↦
        let (bound, h1) = checked_add_inv u64_max kept.next_ordinal 1 _ _ (rw kept_here at h) in
        let is : with_checkpoint n checkpoint (kept.next_ordinal + 1) kept ≡ next = cc h1 in
        let zero_here = seen ∙ ap some ((==_iff slot 0).0 kept_here) in
        subst (λ k. Distributes checkpoints mask old k (suc n)) is
          (with_checkpoint-Distributes kept n checkpoint d at zero_here)
    | inr marked ↦
        let is : drop_checkpoint checkpoint kept ≡ next = cc (rw marked at h) in
        subst (λ k. Distributes checkpoints mask old k (suc n)) is
          (drop_checkpoint-Distributes kept n checkpoint slot d at seen marked)
  ]

  later :
      {checkpoint : CheckpointRecord} (n : ℕ) (rest : List CheckpointRecord)
      → ((k m : ℕ) → m ≡ n + k → get_elem? (checkpoint ∷ rest) k ≡ get_elem? checkpoints m)
      → (k m : ℕ) → m ≡ suc n + k
      → get_elem? rest k ≡ get_elem? checkpoints m
  later n rest places k m e = places (suc k) m (omega arith)

  pub retain_from-Distributes :
      (kept : Retained) (n : ℕ) (rest : List CheckpointRecord) {result : Retained}
      → Distributes checkpoints mask old kept n
      → ((k m : ℕ) → m ≡ n + k → get_elem? rest k ≡ get_elem? checkpoints m)
      → retain_from mask n rest kept ≡ ok result
      → Distributes checkpoints mask old result (n + length rest)
  unfolding retain_from
  retain_from-Distributes kept n [] {result} d places h =
      let is : kept ≡ result = cc h in
      let e : n ≡ n + 0 = omega arith in
      subst (λ k. Distributes checkpoints mask old k (n + 0)) is
        (subst (Distributes checkpoints mask old kept) e d)
  retain_from-Distributes kept n (checkpoint ∷ rest) {result} d places h =
      let here : n ≡ n + 0 = omega arith in
      let e : suc n + length rest ≡ n + suc (length rest) = omega arith in
      let at = sym (places 0 n here) in
      let (slot, seen, h1) = ok_or_inv (get_elem? mask n) _ h in
      let (next, h2, h3) = bind_inv h1 in
      subst (Distributes checkpoints mask old result) e (
        retain_from-Distributes next (suc n) rest (retain_step kept n checkpoint slot d at seen h2)
          (later n rest places) h3)
