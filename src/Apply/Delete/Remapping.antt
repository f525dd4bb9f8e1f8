-- ===== src/Apply/Delete/Remapping.antt =====
-- The loop of `prepare_delete_ledgers` over the active requests: a request of a deleted checkpoint is
-- retired with its digest, and one of a retained checkpoint gets the new ordinal.
use mathlib.Core.Path.{subst}
use tulya_checkpoint_store.Prelude.{
  ℕ, ◌≡◌, ◌≢◌, ◌∙◌, refl, ap, sym, List, [], ◌∷◌, Option, none, some, true, false, Bool-cases, ◌⊎◌,
  inl, inr, ◌==◌, if◌then◌else◌, get_elem?, ok, bind_inv, try_from_inv, ok_or, ok_or_inv, u64_max,
}
use tulya_checkpoint_store.Format.Codec.{same_bytes}
use tulya_checkpoint_store.Apply.Maps.{
  lookup, IsUnique, lookup-insert_same, lookup-insert_other, lookup_head, lookup_tail,
  insert-IsUnique,
}
use tulya_checkpoint_store.Apply.State.{RequestRecord}
use tulya_checkpoint_store.Apply.Outcomes.{same_bytes-Decides}
use tulya_checkpoint_store.Apply.Conditions.{bytes_cases}
use tulya_checkpoint_store.Apply.Delete.Ledgers.{
  Requests, flatten, request_slot, retire_entry, with_request, remap_entry, remap_from,
}

flatten_inv : (o : Option (Option ℕ)) {m : ℕ} → flatten o ≡ some m → o ≡ some (some m)
flatten_inv none h = absurd (cc h)
flatten_inv (some o) h = ap some h

request_slot_inv :
    (mask : List ℕ) (found : RequestRecord) {slot : ℕ}
    → request_slot mask found ≡ ok slot
    → get_elem? mask found.checkpoint_ordinal ≡ some slot
unfolding request_slot
request_slot_inv mask found h =
    let (bound, h1) = try_from_inv u64_max found.checkpoint_ordinal _ _ h in
    seen (get_elem? mask found.checkpoint_ordinal) _ h1
  where
    seen : {E : Type 0} (o : Option ℕ) (e : E) {slot : ℕ} → ok_or o e ≡ ok slot → o ≡ some slot
    seen none e h = absurd (cc h)
    seen (some s) e h = cc h

-- What becomes of an active request.
abbrev pub IsRemapped :
    List ℕ → List (Option ℕ) → List ℕ → RequestRecord → Requests → Requests → Type 0
IsRemapped mask new_ordinals request found before after =
    (slot : ℕ) × (get_elem? mask found.checkpoint_ordinal ≡ some slot)
    × ((((slot == 0) ≡ true)
          × (m : ℕ) × (get_elem? new_ordinals found.checkpoint_ordinal ≡ some (some m))
          × (lookup same_bytes request after.request_records
              ≡ some (record { operation_digest = found.operation_digest; checkpoint_ordinal = m }))
          × (lookup same_bytes request after.retired_requests
              ≡ lookup same_bytes request before.retired_requests))
        ⊎ (((slot == 0) ≡ false)
            × (lookup same_bytes request after.request_records
                ≡ lookup same_bytes request before.request_records)
            × (lookup same_bytes request after.retired_requests ≡ some found.operation_digest)))

-- What the ledgers keep of a request that is not moved.
abbrev pub IsUntouched : List ℕ → Requests → Requests → Type 0
IsUntouched request before after =
    (lookup same_bytes request after.request_records
      ≡ lookup same_bytes request before.request_records)
    × (lookup same_bytes request after.retired_requests
        ≡ lookup same_bytes request before.retired_requests)

-- One request is moved, and no other.
abbrev Moves : List ℕ → List (Option ℕ) → List ℕ → RequestRecord → Requests → Requests → Type 0
Moves mask new_ordinals request found before after =
    IsRemapped mask new_ordinals request found before after
    × ((other : List ℕ) → other ≢ request → IsUntouched other before after)
    × (IsUnique same_bytes before.request_records → IsUnique same_bytes after.request_records)
    × (IsUnique same_bytes before.retired_requests → IsUnique same_bytes after.retired_requests)

module _ (mask : List ℕ) (new_ordinals : List (Option ℕ)) where
  with_request-Moves :
      (request : List ℕ) (found : RequestRecord) (slot m : ℕ) (before : Requests)
      → get_elem? mask found.checkpoint_ordinal ≡ some slot
      → (slot == 0) ≡ true
      → get_elem? new_ordinals found.checkpoint_ordinal ≡ some (some m)
      → Moves mask new_ordinals request found before (with_request request found m before)
  unfolding with_request
  with_request-Moves request found slot m before seen kept at = (
    (
      slot,
      seen,
      inl (
        kept,
        m,
        at,
        lookup-insert_same same_bytes same_bytes-Decides request _ before.request_records,
        refl,
      ),
    ),
    λ other ne. (
      lookup-insert_other same_bytes same_bytes-Decides other request _ before.request_records ne,
      refl,
    ),
    insert-IsUnique same_bytes same_bytes-Decides request _ before.request_records,
    λ u. u,
  )

  retire_entry-Moves :
      (request : List ℕ) (found : RequestRecord) (slot : ℕ) (before : Requests)
      → get_elem? mask found.checkpoint_ordinal ≡ some slot
      → (slot == 0) ≡ false
      → Moves mask new_ordinals request found before (retire_entry request found before)
  unfolding retire_entry
  retire_entry-Moves request found slot before seen marked = (
    (
      slot,
      seen,
      inr (
        marked,
        refl,
        lookup-insert_same same_bytes same_bytes-Decides request found.operation_digest
            before.retired_requests,
      ),
    ),
    λ other ne. (
      refl,
      lookup-insert_other same_bytes same_bytes-Decides other request found.operation_digest
          before.retired_requests ne,
    ),
    λ u. u,
    insert-IsUnique same_bytes same_bytes-Decides request found.operation_digest
        before.retired_requests,
  )

  remap_step :
      (request : List ℕ) (found : RequestRecord) (slot : ℕ) (before : Requests) {after : Requests}
      → get_elem? mask found.checkpoint_ordinal ≡ some slot
      → (if slot == 0
          then remap_entry new_ordinals request found before
          else ok (retire_entry request found before))
        ≡ ok after
      → Moves mask new_ordinals request found before after
  unfolding remap_entry
  remap_step request found slot before {after} seen h = elim (Bool-cases (slot == 0)) [
    | inl kept ↦
        let (m, at, h1) =
          ok_or_inv (flatten (get_elem? new_ordinals found.checkpoint_ordinal)) _ (rw kept at h) in
        let is : with_request request found m before ≡ after = cc h1 in
        subst (Moves mask new_ordinals request found before) is
          (with_request-Moves request found slot m before seen kept (flatten_inv _ at))
    | inr marked ↦
        let is : retire_entry request found before ≡ after = cc (rw marked at h) in
        subst (Moves mask new_ordinals request found before) is
          (retire_entry-Moves request found slot before seen marked)
  ]

  IsRemapped-then :
      (request : List ℕ) (found : RequestRecord) (before next after : Requests)
      → IsRemapped mask new_ordinals request found before next
      → IsUntouched request next after
      → IsRemapped mask new_ordinals request found before after
  IsRemapped-then request found before next after (slot, seen, inl (kept, m, at, active, free))
        (e, f) =
      (slot, seen, inl (kept, m, at, e ∙ active, f ∙ free))
  IsRemapped-then request found before next after (slot, seen, inr (marked, active, retired))
        (e, f) =
      (slot, seen, inr (marked, e ∙ active, f ∙ retired))

  then-IsRemapped :
      (request : List ℕ) (found : RequestRecord) (before next after : Requests)
      → IsUntouched request before next
      → IsRemapped mask new_ordinals request found next after
      → IsRemapped mask new_ordinals request found before after
  then-IsRemapped request found before next after (e, f)
        (slot, seen, inl (kept, m, at, active, free)) =
      (slot, seen, inl (kept, m, at, active, free ∙ f))
  then-IsRemapped request found before next after (e, f)
        (slot, seen, inr (marked, active, retired)) =
      (slot, seen, inr (marked, active ∙ e, retired))

  -- Each active request is moved once; the ledgers keep what they hold of the others.
  pub remap_from_lem :
      (entries : List (List ℕ × RequestRecord)) (before : Requests) {after : Requests}
      → IsUnique same_bytes entries
      → remap_from mask new_ordinals entries before ≡ ok after
      → ((request : List ℕ) (found : RequestRecord)
          → lookup same_bytes request entries ≡ some found
          → IsRemapped mask new_ordinals request found before after)
        × ((request : List ℕ)
            → lookup same_bytes request entries ≡ none
            → IsUntouched request before after)
        × (IsUnique same_bytes before.request_records → IsUnique same_bytes after.request_records)
        × (IsUnique same_bytes before.retired_requests → IsUnique same_bytes after.retired_requests)
  unfolding remap_from
  remap_from_lem [] before {after} u h =
      let is : before ≡ after = cc h in
      (
        λ request found there. absurd (cc there),
        λ request absent. subst (IsUntouched request before) is (refl, refl),
        λ v. subst (λ a. IsUnique same_bytes a.request_records) is v,
        λ v. subst (λ a. IsUnique same_bytes a.retired_requests) is v,
      )
  remap_from_lem (entry ∷ entries) before {after} (fresh, u) h =
      let (slot, s, h1) = bind_inv {m = request_slot mask entry.1} h in
      let (next, h2, h3) = bind_inv h1 in
      let (moved, others, keep1, keep2) =
        remap_step entry.0 entry.1 slot before (request_slot_inv mask entry.1 s) h2 in
      let (rest, untouched, keep3, keep4) = remap_from_lem entries next u h3 in
      (
        λ request found there. elim (bytes_cases request entry.0) [
          | inl e ↦
              let here = lookup_head same_bytes same_bytes-Decides request entry entries e in
              let is : entry.1 ≡ found = cc (here, there) in
              let absent = ap (λ r. lookup same_bytes r entries) e ∙ fresh in
              IsRemapped-then request found before next after
                (subst (λ r. IsRemapped mask new_ordinals r found before next) (sym e)
                  (subst (λ f. IsRemapped mask new_ordinals entry.0 f before next) is moved))
                (untouched request absent)
          | inr ne ↦ then-IsRemapped request found before next after (others request ne) (
              rest request found
                (sym (lookup_tail same_bytes same_bytes-Decides request entry entries ne) ∙ there))
        ],
        λ request absent. elim (bytes_cases request entry.0) [
          | inl e ↦
              let here = lookup_head same_bytes same_bytes-Decides request entry entries e in
              absurd (cc (here, absent))
          | inr ne ↦
              let (p, q) = others request ne in
              let (p', q') = untouched request (
                sym (lookup_tail same_bytes same_bytes-Decides request entry entries ne)
                ∙ absent) in
              (p' ∙ p, q' ∙ q)
        ],
        λ v. keep3 (keep1 v),
        λ v. keep4 (keep2 v),
      )
