-- ===== src/Apply/Replays.antt =====
-- The geometry after a commit, and what happens to a request that comes again.
use tulya_checkpoint_store.Prelude.{
  ℕ, ◌≡◌, ◌≢◌, ◌∙◌, refl, ap, sym, arith, List, [], ◌∷◌, ◌++◌, Option, none, some, length,
  length-append, ok, reject, bind_inv, then_inv,
}
use tulya_checkpoint_store.Format.Records.{Sha256}
use tulya_checkpoint_store.Format.Codec.{same_bytes}
use tulya_checkpoint_store.Publication.Records.{Utf8}
use tulya_checkpoint_store.Wal.Sections.{same_bytes_refl, validate_transaction-Validated}
use tulya_checkpoint_store.Commit.Records.{DecodedCommit}
use tulya_checkpoint_store.Commit.Codec.{decode_commit}
use tulya_checkpoint_store.Commit.Bounded.{next_geometry_inv}
use tulya_checkpoint_store.Commit.Contents.{decode_commit-Contents}
use tulya_checkpoint_store.Apply.Maps.{
  lookup, insert, remove, is_some, lookup-insert_same, lookup-insert_other, lookup-remove_same,
  lookup-remove_other,
}
use tulya_checkpoint_store.Apply.State.{
  new, replay, retired, applied, replayed, RequestRecord, CommittedState, validate_request_id,
  geometry,
}
use tulya_checkpoint_store.Apply.Requests.{
  classify_found, classify_request, active_digest, retire_request,
}
use tulya_checkpoint_store.Apply.Commits.{
  request_status, record_request, commit_state, apply_status, apply_commit,
}
use tulya_checkpoint_store.Apply.Outcomes.{
  same_bytes-Decides, geometry_inv, geometry_of, apply_commit-Applied,
}

module _ ⦃sha : Sha256⦄ ⦃text : Utf8⦄ where
  geometry-commit_state :
      (state : CommittedState) (bytes : List ℕ) (decoded : DecodedCommit) (ordinal : ℕ)
      → decode_commit bytes ≡ ok decoded
      → geometry state ≡ ok decoded.encoded_base
      → geometry (commit_state state decoded ordinal) ≡ ok decoded.wal.next_geometry
  unfolding commit_state
  geometry-commit_state state bytes decoded ordinal decodes based =
      let transaction = decoded.wal.transaction in
      let (valid, digest) = decode_commit-Contents bytes decodes in
      let (advances, nodes, versions, point) =
        validate_transaction-Validated decoded.encoded_base transaction decoded.wal.next_geometry
          valid in
      let (p, n, v, c, fits) =
        next_geometry_inv decoded.encoded_base (length transaction.payload)
          (length transaction.nodes) (length transaction.versions) advances in
      let (sp, sn, sv, sc) = fits in
      let (bp, bn, bv, bc) = geometry_inv state based in
      geometry_of _ decoded.wal.next_geometry
        (omega (arith, p, bp, length-append {0} state.payload transaction.payload))
        (omega (arith, n, bn, length-append {0} state.nodes transaction.nodes))
        (omega (arith, v, bv, length-append {0} state.versions transaction.versions))
        (omega (arith, c, bc, length-append {0} state.checkpoints (transaction.checkpoint ∷ []))) sp
        sn sv sc

  -- A commit that is applied was encoded against the geometry of the state, is numbered by the count
  -- of the checkpoints, and leaves a state that extends the tables by its transaction and whose
  -- geometry is the one that its validation computed.
  pub apply_commit_advances :
      (state : CommittedState) (bytes : List ℕ) {ordinal : ℕ} {state' : CommittedState}
      → apply_commit state bytes ≡ ok (applied ordinal, state')
      → (decoded : DecodedCommit) × (decode_commit bytes ≡ ok decoded)
        × (geometry state ≡ ok decoded.encoded_base)
        × (geometry state' ≡ ok decoded.wal.next_geometry)
        × (ordinal ≡ length state.checkpoints)
        × (state'.payload ≡ state.payload ++ decoded.wal.transaction.payload)
        × (state'.nodes ≡ state.nodes ++ decoded.wal.transaction.nodes)
        × (state'.versions ≡ state.versions ++ decoded.wal.transaction.versions)
        × (state'.checkpoints ≡ state.checkpoints ++ (decoded.wal.transaction.checkpoint ∷ []))
  unfolding commit_state
  apply_commit_advances state bytes {ordinal} h =
      let (decoded, decodes, fresh, based, valid, count, is) = apply_commit-Applied state bytes h in
      (
        decoded,
        decodes,
        based,
        ap geometry is ∙ geometry-commit_state state bytes decoded ordinal decodes based,
        count,
        ap (λ s. s.payload) is,
        ap (λ s. s.nodes) is,
        ap (λ s. s.versions) is,
        ap (λ s. s.checkpoints) is,
      )

  found_new :
      (a : Option RequestRecord) (b : Option (List ℕ)) (digest : List ℕ)
      → classify_found a b digest ≡ ok new
      → (a ≡ none) × (b ≡ none)
  unfolding classify_found
  found_new none none digest k = (refl, refl)
  found_new none (some b) digest k = ground arith
  found_new (some a) b digest k = ground arith

  -- What is known of a request that is classified as new.
  pub classified_new :
      (state : CommittedState) (request digest : List ℕ)
      → classify_request state request digest ≡ ok new
      → (validate_request_id request ≡ ok tt)
        × (lookup same_bytes request state.request_records ≡ none)
        × (lookup same_bytes request state.retired_requests ≡ none)
  unfolding classify_request
  classified_new state request digest h =
      let (valid, h1) = then_inv (validate_request_id request) h in
      let (e, f) = found_new _ _ digest h1 in (valid, e, f)

  -- A request that was recorded with a digest is classified as its replay.
  replay_of :
      (state : CommittedState) (request digest : List ℕ) (ordinal : ℕ)
      → validate_request_id request ≡ ok tt
      → lookup same_bytes request state.request_records
        ≡ some (record { operation_digest = digest; checkpoint_ordinal = ordinal })
      → classify_request state request digest ≡ ok (replay ordinal)
  unfolding classify_request classify_found
  replay_of state request digest ordinal valid found =
      rw (valid, found, same_bytes_refl digest) refl

  recorded :
      (state : CommittedState) (decoded : DecodedCommit) (ordinal : ℕ) (request : List ℕ)
      → decoded.request_id ≡ some request
      → lookup same_bytes request (commit_state state decoded ordinal).request_records
        ≡ some
            (record { operation_digest = decoded.operation_digest; checkpoint_ordinal = ordinal })
  unfolding commit_state record_request
  recorded state decoded ordinal request named =
      rw (named) (lookup-insert_same same_bytes same_bytes-Decides request _ state.request_records)

  -- A commit with a request that is applied is answered as a replay of its ordinal when it comes
  -- again, and the state is kept.
  pub apply_commit_twice :
      (state : CommittedState) (bytes : List ℕ) {ordinal : ℕ} {state' : CommittedState}
      → (decoded : DecodedCommit) (request : List ℕ) → decode_commit bytes ≡ ok decoded
      → decoded.request_id ≡ some request
      → apply_commit state bytes ≡ ok (applied ordinal, state')
      → apply_commit state' bytes ≡ ok (replayed ordinal, state')
  unfolding apply_commit apply_status request_status
  apply_commit_twice state bytes {ordinal} {state'} decoded request decodes named h =
      let (decoded', decodes', fresh, based, valid, count, is) =
        apply_commit-Applied state bytes h in
      let same : decoded' ≡ decoded = cc (decodes, decodes') in
      let new_request : classify_request state request decoded.operation_digest ≡ ok new =
        ap (λ r. request_status state r decoded.operation_digest) (sym named)
        ∙ ap (λ d. request_status state d.request_id d.operation_digest) (sym same)
        ∙ fresh in
      let (ok_id, absent, live) =
        classified_new state request decoded.operation_digest new_request in
      let known : classify_request state' request decoded.operation_digest ≡ ok (replay ordinal) =
        ap (λ s. classify_request s request decoded.operation_digest)
          (is ∙ ap (λ d. commit_state state d ordinal) same)
        ∙ replay_of (commit_state state decoded ordinal) request decoded.operation_digest ordinal
            ok_id (recorded state decoded ordinal request named) in
      rw (decodes, named, known) refl

active_inv :
    (entry : Option RequestRecord) {digest : List ℕ}
    → active_digest entry ≡ ok digest
    → (found : RequestRecord) × (entry ≡ some found) × (digest ≡ found.operation_digest)
unfolding active_digest
active_inv none h = absurd (cc h)
active_inv (some found) h = (found, refl, cc h)

replay_found :
    (found : RequestRecord) (b : Option (List ℕ))
    → classify_found (some found) b found.operation_digest ≡ ok (replay found.checkpoint_ordinal)
unfolding classify_found
replay_found found b = rw (same_bytes_refl found.operation_digest) refl

retired_found :
    (digest other : List ℕ) → digest ≡ other → classify_found none (some digest) other ≡ ok retired
unfolding classify_found
retired_found digest other e = rw (e, same_bytes_refl other) refl

-- The state behind a request that is retired.
abbrev pub retire : CommittedState → List ℕ → List ℕ → CommittedState
retire state request digest = record {
  payload = state.payload;
  nodes = state.nodes;
  versions = state.versions;
  checkpoints = state.checkpoints;
  checkpoint_ordinals = state.checkpoint_ordinals;
  request_records = remove same_bytes request state.request_records;
  retired_requests = insert same_bytes request digest state.retired_requests;
  deleted_checkpoints = state.deleted_checkpoints;
}

-- A request that is retired was classified as a replay of its checkpoint under the digest that it was
-- recorded with; behind that it is classified as retired under that digest, and any other request
-- is classified as before.
pub classify_request-retire_request :
    (state : CommittedState) (request : List ℕ) {state' : CommittedState}
    → retire_request state request ≡ ok state'
    → (found : RequestRecord) × (classify_request state request found.operation_digest
        ≡ ok (replay found.checkpoint_ordinal))
      × (classify_request state' request found.operation_digest ≡ ok retired)
      × ((other digest : List ℕ)
          → other ≢ request
          → classify_request state' other digest ≡ classify_request state other digest)
unfolding retire_request classify_request
classify_request-retire_request state request {state'} h =
    let (valid, h1) = then_inv (validate_request_id request) h in
    let (free, h2) =
      then_inv (reject (is_some (lookup same_bytes request state.retired_requests)) _) h1 in
    let (digest, h3, h4) =
      bind_inv {m = active_digest (lookup same_bytes request state.request_records)} h2 in
    let (found, active, named) = active_inv _ h3 in
    let is : state' ≡ retire state request digest = cc h4 in
    (
      found,
      rw (valid, active) (replay_found found _),
      rw
          (
            is,
            valid,
            lookup-remove_same same_bytes same_bytes-Decides request state.request_records,
            lookup-insert_same same_bytes same_bytes-Decides request digest state.retired_requests,
          )
          (retired_found digest found.operation_digest named),
      λ other d ne.
          rw
            (
              is,
              lookup-remove_other same_bytes same_bytes-Decides other request state.request_records
                  ne,
              lookup-insert_other same_bytes same_bytes-Decides other request digest
                  state.retired_requests ne,
            )
            refl,
    )
