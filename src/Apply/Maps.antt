-- ===== src/Apply/Maps.antt =====
-- `HashMap` and `HashSet` as association lists, for a test that decides the equality of keys.
use tulya_checkpoint_store.Prelude.{
  ◌≡◌, ◌↔◌, ◌≢◌, ◌∙◌, refl, ap, sym, List, [], ◌∷◌, Option, none, some, Bool, true, false,
  if◌then◌else◌,
}

module _ {K V : Type 0} (same : K → K → Bool) where
  -- `map.get(key)`
  abbrev pub lookup : K → List (K × V) → Option V
  lookup key [] = none
  lookup key (entry ∷ entries) =
      let rest = lookup key entries in if same key entry.0 then some entry.1 else rest

  -- `map.insert(key, value)`
  abbrev pub insert : K → V → List (K × V) → List (K × V)
  insert key value [] = (key, value) ∷ []
  insert key value (entry ∷ entries) =
      let rest = insert key value entries in
      if same key entry.0 then (key, value) ∷ entries else entry ∷ rest

  -- `map.remove(key)`
  abbrev pub remove : K → List (K × V) → List (K × V)
  remove key [] = []
  remove key (entry ∷ entries) =
      let rest = remove key entries in if same key entry.0 then rest else entry ∷ rest

-- `map.contains_key(key)` and `option.is_some()`
abbrev pub is_some {ℓ} : {A : Type ℓ} → Option A → Bool
is_some none = false
is_some (some a) = true

-- `set.contains(value)`
abbrev pub contains : {K : Type 0} → (K → K → Bool) → K → List K → Bool
contains same key [] = false
contains same key (entry ∷ entries) =
    let rest = contains same key entries in if same key entry then true else rest

-- The test answers for equality.
abbrev pub Decides : {K : Type 0} → (K → K → Bool) → Type 0
Decides {K} same = (a b : K) → (same a b ≡ true) ↔ (a ≡ b)

module _ {K : Type 0} (same : K → K → Bool) (decides : Decides same) where
  pub same_self : (key : K) → same key key ≡ true
  same_self key = (decides key key).1 refl

  pub differs : (a b : K) → a ≢ b → same a b ≡ false
  differs a b ne = go (same a b) refl
    where
      go : (t : Bool) → same a b ≡ t → t ≡ false
      go true e = absurd (ne ((decides a b).0 e))
      go false e = refl

module _ {K V : Type 0} (same : K → K → Bool) (decides : Decides same) where
  pub lookup-insert_same :
      (key : K) (value : V) (entries : List (K × V))
      → lookup same key (insert same key value entries) ≡ some value
  lookup-insert_same key value [] = rw (same_self same decides key) refl
  lookup-insert_same key value (entry ∷ entries) =
      go (same key entry.0) refl (lookup-insert_same key value entries)
    where
      go :
          (t : Bool)
          → same key entry.0 ≡ t
          → lookup same key (insert same key value entries) ≡ some value
          → lookup same key
              (if t then (key, value) ∷ entries else entry ∷ insert same key value entries)
            ≡ some value
      go true e ih = rw (same_self same decides key) refl
      go false e ih = rw e ih

  pub lookup-insert_other :
      (key other : K) (value : V) (entries : List (K × V))
      → key ≢ other
      → lookup same key (insert same other value entries) ≡ lookup same key entries
  lookup-insert_other key other value [] ne = rw (differs same decides key other ne) refl
  lookup-insert_other key other value (entry ∷ entries) ne =
      go (same other entry.0) refl (lookup-insert_other key other value entries ne)
    where
      go :
          (t : Bool)
          → same other entry.0 ≡ t
          → lookup same key (insert same other value entries) ≡ lookup same key entries
          → lookup same key
              (if t then (other, value) ∷ entries else entry ∷ insert same other value entries)
            ≡ lookup same key (entry ∷ entries)
      go true e ih =
          let is : other ≡ entry.0 = (decides other entry.0).0 e in
          rw
            (
              differs same decides key other ne,
              differs same decides key entry.0 (λ k. ne (k ∙ sym is)),
            )
            refl
      go false e ih = ap (λ rest. if same key entry.0 then some entry.1 else rest) ih

  pub lookup-remove_same :
      (key : K) (entries : List (K × V)) → lookup same key (remove same key entries) ≡ none
  lookup-remove_same key [] = refl
  lookup-remove_same key (entry ∷ entries) =
      go (same key entry.0) refl (lookup-remove_same key entries)
    where
      go :
          (t : Bool)
          → same key entry.0 ≡ t
          → lookup same key (remove same key entries) ≡ none
          → lookup same key (if t then remove same key entries else entry ∷ remove same key entries)
            ≡ none
      go true e ih = ih
      go false e ih = rw e ih

  pub lookup-remove_other :
      (key other : K) (entries : List (K × V))
      → key ≢ other
      → lookup same key (remove same other entries) ≡ lookup same key entries
  lookup-remove_other key other [] ne = refl
  lookup-remove_other key other (entry ∷ entries) ne =
      go (same other entry.0) refl (lookup-remove_other key other entries ne)
    where
      go :
          (t : Bool)
          → same other entry.0 ≡ t
          → lookup same key (remove same other entries) ≡ lookup same key entries
          → lookup same key
              (if t then remove same other entries else entry ∷ remove same other entries)
            ≡ lookup same key (entry ∷ entries)
      go true e ih =
          let is : other ≡ entry.0 = (decides other entry.0).0 e in
          ih
          ∙ sym (
              ap (λ t. if t then some entry.1 else lookup same key entries)
                (differs same decides key entry.0 (λ k. ne (k ∙ sym is))))
      go false e ih = ap (λ rest. if same key entry.0 then some entry.1 else rest) ih

-- Each key stands in the list once.
module _ {K V : Type 0} (same : K → K → Bool) where
  abbrev pub IsUnique : List (K × V) → Type 0
  IsUnique [] = Unit
  IsUnique (entry ∷ entries) = (lookup same entry.0 entries ≡ none) × IsUnique entries

module _ {K V : Type 0} (same : K → K → Bool) (decides : Decides same) where
  pub lookup_head :
      (key : K) (entry : K × V) (entries : List (K × V))
      → key ≡ entry.0
      → lookup same key (entry ∷ entries) ≡ some entry.1
  lookup_head key entry entries e =
      let here : same key entry.0 ≡ true = (decides key entry.0).1 e in rw here refl

  pub lookup_tail :
      (key : K) (entry : K × V) (entries : List (K × V))
      → key ≢ entry.0
      → lookup same key (entry ∷ entries) ≡ lookup same key entries
  lookup_tail key entry entries ne =
      let there : same key entry.0 ≡ false = differs same decides key entry.0 ne in rw there refl

  pub insert-IsUnique :
      (key : K) (value : V) (entries : List (K × V))
      → IsUnique same entries
      → IsUnique same (insert same key value entries)
  insert-IsUnique key value [] u = (refl, tt)
  insert-IsUnique key value (entry ∷ entries) (fresh, u) =
      go (same key entry.0) refl (insert-IsUnique key value entries u)
    where
      go :
          (t : Bool)
          → same key entry.0 ≡ t
          → IsUnique same (insert same key value entries)
          → IsUnique same
              (if t then (key, value) ∷ entries else entry ∷ insert same key value entries)
      go true e ih =
          let is : key ≡ entry.0 = (decides key entry.0).0 e in
          (ap (λ k. lookup same k entries) is ∙ fresh, u)
      go false e ih = (
        lookup-insert_other same decides entry.0 key value entries
              (λ is. let back = (decides key entry.0).1 (sym is) in absurd (cc (back, e)))
            ∙ fresh,
        ih,
      )

  pub remove-IsUnique :
      (key : K) (entries : List (K × V))
      → IsUnique same entries
      → IsUnique same (remove same key entries)
  remove-IsUnique key [] u = u
  remove-IsUnique key (entry ∷ entries) (fresh, u) =
      go (same key entry.0) refl (remove-IsUnique key entries u)
    where
      go :
          (t : Bool)
          → same key entry.0 ≡ t
          → IsUnique same (remove same key entries)
          → IsUnique same (if t then remove same key entries else entry ∷ remove same key entries)
      go true e ih = ih
      go false e ih = (
        lookup-remove_other same decides entry.0 key entries
              (λ is. let back = (decides key entry.0).1 (sym is) in absurd (cc (back, e)))
            ∙ fresh,
        ih,
      )
