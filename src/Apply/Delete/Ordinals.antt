-- ===== src/Apply/Delete/Ordinals.antt =====
-- The new ordinals that a deletion assigns: they rise with the old ones.
use tulya_checkpoint_store.Prelude.{
  ℕ, suc, ◌≤◌, ◌<◌, ◌≡◌, ◌∙◌, ap, sym, arith, List, Option, none, some, ◌⊎◌, inl, inr, ==_cases,
  length, get_elem?, set, replicate, get_elem?-lt, get_elem?-set_self, get_elem?-set_other,
  get_elem?-replicate, length-replicate,
}

-- Only places below an index have an ordinal; it is below a count, and greater at a greater place.
abbrev pub Assigns : List (Option ℕ) → ℕ → ℕ → Type 0
Assigns new_ordinals n count =
    ((i m : ℕ) → get_elem? new_ordinals i ≡ some (some m) → (i < n) × (m < count))
    × ((i j m k : ℕ)
        → i < j
        → get_elem? new_ordinals i ≡ some (some m)
        → get_elem? new_ordinals j ≡ some (some k)
        → m < k)

pub Assigns-le :
    (new_ordinals : List (Option ℕ)) {n n' : ℕ} (count : ℕ)
    → Assigns new_ordinals n count
    → n ≤ n'
    → Assigns new_ordinals n' count
Assigns-le new_ordinals count (within, ordered) le =
    (λ i m there. let (lt, less) = within i m there in (omega arith, less), ordered)

pub replicate-Assigns : (size n count : ℕ) → Assigns (replicate size none) n count
replicate-Assigns size n count =
    (λ i m there. absurd (never i m there), λ i j m k lt there here. absurd (never i m there))
  where
    never : (i m : ℕ) → get_elem? (replicate size none) i ≡ some (some m) → ⊥
    never i m there =
        let lt = get_elem?-lt (replicate size none) i there in
        let old =
          get_elem?-replicate {A = Option ℕ} size i none
            (omega (arith, length-replicate {0} {A = Option ℕ} size none)) in
        cc (old, there)

-- Where an element comes from in a list that is written to.
get_elem?-set_inv :
    {A : Type 0} (xs : List A) (n i : ℕ) (v : A) {a : A}
    → n < length xs
    → get_elem? (set xs n v) i ≡ some a
    → ((i ≡ n) × (a ≡ v)) ⊎ (get_elem? xs i ≡ some a)
get_elem?-set_inv xs n i v within there = elim (==_cases i n) [
  | inl e ↦
      let moved = ap (get_elem? (set xs n v)) e in
      let here = get_elem?-set_self xs n v within in inl (e, cc (moved, here, there))
  | inr ne ↦ inr (sym (get_elem?-set_other xs n i v ne) ∙ there)
]

-- The next place gets the next ordinal.
pub set-Assigns :
    (new_ordinals : List (Option ℕ)) (n count : ℕ) {count' : ℕ}
    → Assigns new_ordinals n count
    → n < length new_ordinals
    → count' ≡ suc count
    → Assigns (set new_ordinals n (some count)) (suc n) count'
set-Assigns new_ordinals n count {count'} (within, ordered) inside e = (
  λ i m there. bound i m (get_elem?-set_inv new_ordinals n i (some count) inside there),
  λ i j m k lt first second.
      rise i j m k lt (get_elem?-set_inv new_ordinals n i (some count) inside first)
        (get_elem?-set_inv new_ordinals n j (some count) inside second),
)
  where
    bound :
        (i m : ℕ)
        → ((i ≡ n) × (some m ≡ some count)) ⊎ (get_elem? new_ordinals i ≡ some (some m))
        → (i < suc n) × (m < count')
    bound i m (inl (f, g)) = let is : m ≡ count = cc g in (omega arith, omega arith)
    bound i m (inr old) = let (lt, less) = within i m old in (omega arith, omega arith)

    rise :
        (i j m k : ℕ)
        → i < j
        → ((i ≡ n) × (some m ≡ some count)) ⊎ (get_elem? new_ordinals i ≡ some (some m))
        → ((j ≡ n) × (some k ≡ some count)) ⊎ (get_elem? new_ordinals j ≡ some (some k))
        → m < k
    rise i j m k lt (inl (f, g)) (inl (f', g')) = absurd (omega arith)
    rise i j m k lt (inl (f, g)) (inr old) =
        let (lt', less) = within j k old in absurd (omega arith)
    rise i j m k lt (inr old) (inl (f, g)) =
        let (lt', less) = within i m old in let is : k ≡ count = cc g in omega arith
    rise i j m k lt (inr old) (inr old') = ordered i j m k lt old old'
