-- ===== src/Apply/Outcomes.antt =====
-- What applying a commit does to the state, and what applying it again does.
use mathlib.Core.Bool.{decide_iff}
use tulya_checkpoint_store.Prelude.{
  ℕ, ◌≤◌, ◌≡◌, ◌≢◌, ◌∙◌, refl, ap, sym, arith, List, Bool, true, false, ◌&&◌, length, true_of_not,
  le→leb, ok, map_err, bind_inv, then_inv, try_from_inv, ok_of_then, reject_inv, u64_max,
}
use tulya_checkpoint_store.Format.Records.{Sha256}
use tulya_checkpoint_store.Format.Codec.{same_bytes}
use tulya_checkpoint_store.Format.ByteLists.{same_bytes-eq}
use tulya_checkpoint_store.Publication.Records.{Utf8}
use tulya_checkpoint_store.Wal.Records.{WalGeometry, WalGeometry-discrete}
use tulya_checkpoint_store.Wal.Bodies.{map_err_inv}
use tulya_checkpoint_store.Wal.Sections.{same_bytes_refl}
use tulya_checkpoint_store.Commit.Records.{DecodedCommit}
use tulya_checkpoint_store.Commit.Codec.{decode_commit}
use tulya_checkpoint_store.Apply.Maps.{Decides}
use tulya_checkpoint_store.Apply.State.{
  commit_error, RequestStatus, new, replay, retired, ApplyOutcome, applied, CheckpointKey, same_key,
  CommittedState, geometry,
}
use tulya_checkpoint_store.Apply.Validate.{validate_against_committed_state}
use tulya_checkpoint_store.Apply.Commits.{
  request_status, commit_state, apply_new, apply_status, apply_commit,
}

pub same_bytes-Decides : Decides same_bytes
same_bytes-Decides a b = (same_bytes-eq a b, λ e. ap (same_bytes a) (sym e) ∙ same_bytes_refl a)

pub same_key-Decides : Decides same_key
same_key-Decides a b = (
  λ h.
      let (e1, e2) = both (same_bytes a.0 b.0) (same_bytes a.1 b.1) h in
      pair ((same_bytes-Decides a.0 b.0).0 e1) ((same_bytes-Decides a.1 b.1).0 e2),
  λ e.
      rw
        (
          (same_bytes-Decides a.0 b.0).1 (ap (λ k. k.0) e),
          (same_bytes-Decides a.1 b.1).1 (ap (λ k. k.1) e),
        )
        refl,
)
  where
    both : (p q : Bool) → (p && q) ≡ true → (p ≡ true) × (q ≡ true)
    both true q h = (refl, h)
    both false q h = absurd (cc h)

    pair : {k l : CheckpointKey} → k.0 ≡ l.0 → k.1 ≡ l.1 → k ≡ l
    pair e f = cc (e, f)

-- The geometry counts what the state holds, in 64 bits.
pub geometry_inv :
    (state : CommittedState) {current : WalGeometry}
    → geometry state ≡ ok current
    → (current.payload_len ≡ length state.payload)
      × (current.node_count ≡ length state.nodes)
      × (current.version_count ≡ length state.versions)
      × (current.checkpoint_count ≡ length state.checkpoints)
unfolding geometry
geometry_inv state {current} h =
    let (s1, r1) = try_from_inv u64_max (length state.payload) _ _ h in
    let (s2, r2) = try_from_inv u64_max (length state.nodes) _ _ r1 in
    let (s3, r3) = try_from_inv u64_max (length state.versions) _ _ r2 in
    let (s4, r4) = try_from_inv u64_max (length state.checkpoints) _ _ r3 in
    let same : current ≡ record {
      payload_len = length state.payload;
      node_count = length state.nodes;
      version_count = length state.versions;
      checkpoint_count = length state.checkpoints;
    } =
      cc r4 in
    (
      ap (λ g. g.payload_len) same,
      ap (λ g. g.node_count) same,
      ap (λ g. g.version_count) same,
      ap (λ g. g.checkpoint_count) same,
    )

count_of :
    (state : CommittedState) {current : WalGeometry}
    → geometry state ≡ ok current
    → current.checkpoint_count ≡ length state.checkpoints
count_of state h = let (p, n, v, c) = geometry_inv state h in c

-- A geometry of 64-bit fields that the state agrees with is its geometry.
pub geometry_of :
    (state : CommittedState) (next : WalGeometry)
    → next.payload_len ≡ length state.payload
    → next.node_count ≡ length state.nodes
    → next.version_count ≡ length state.versions
    → next.checkpoint_count ≡ length state.checkpoints
    → next.payload_len ≤ u64_max
    → next.node_count ≤ u64_max
    → next.version_count ≤ u64_max
    → next.checkpoint_count ≤ u64_max
    → geometry state ≡ ok next
unfolding geometry
geometry_of state next p n v c sp sn sv sc =
    rw
      (
        le→leb (length state.payload) u64_max (omega (arith, p, sp)),
        le→leb (length state.nodes) u64_max (omega (arith, n, sn)),
        le→leb (length state.versions) u64_max (omega (arith, v, sv)),
        le→leb (length state.checkpoints) u64_max (omega (arith, c, sc)),
        sym p,
        sym n,
        sym v,
        sym c,
      )
      refl

module _ ⦃sha : Sha256⦄ ⦃text : Utf8⦄ where
  -- The steps of a commit that is answered.
  pub apply_commit_inv :
      (state : CommittedState) (bytes : List ℕ) {outcome : ApplyOutcome} {state' : CommittedState}
      → apply_commit state bytes ≡ ok (outcome, state')
      → (decoded : DecodedCommit) × (status : RequestStatus) × (decode_commit bytes ≡ ok decoded)
        × (request_status state decoded.request_id decoded.operation_digest ≡ ok status)
        × (apply_status state decoded status ≡ ok (outcome, state'))
  unfolding apply_commit
  apply_commit_inv state bytes h =
      let (decoded, h1, r1) = bind_inv {m = map_err commit_error (decode_commit bytes)} h in
      let (status, h2, r2) =
        bind_inv {m = request_status state decoded.request_id decoded.operation_digest} r1 in
      (decoded, status, map_err_inv commit_error _ h1, h2, r2)

  -- A commit that is applied is decoded, has a new request or none, agrees with the geometry, passes
  -- the checks, and gives the state with it in it.
  abbrev pub Applied : CommittedState → List ℕ → ℕ → CommittedState → Type 0
  Applied state bytes ordinal state' =
      (decoded : DecodedCommit) × (decode_commit bytes ≡ ok decoded)
      × (request_status state decoded.request_id decoded.operation_digest ≡ ok new)
      × (geometry state ≡ ok decoded.encoded_base)
      × (validate_against_committed_state state decoded ≡ ok tt)
      × (ordinal ≡ length state.checkpoints)
      × (state' ≡ commit_state state decoded ordinal)

  apply_new_inv :
      (state : CommittedState) (decoded : DecodedCommit) {outcome : ApplyOutcome}
      {state' : CommittedState}
      → apply_new state decoded ≡ ok (outcome, state')
      → (geometry state ≡ ok decoded.encoded_base)
        × (validate_against_committed_state state decoded ≡ ok tt)
        × (outcome ≡ applied (length state.checkpoints))
        × (state' ≡ commit_state state decoded (length state.checkpoints))
  unfolding apply_new
  apply_new_inv state decoded h =
      let (current, h1, r1) = bind_inv {m = geometry state} h in
      let (h2, r2) = then_inv _ r1 in
      let same : decoded.encoded_base ≡ current =
        (decide_iff (WalGeometry-discrete decoded.encoded_base current)).0
          (true_of_not (reject_inv _ _ h2)) in
      let (h3, r3) = then_inv (validate_against_committed_state state decoded) r2 in
      let count : current.checkpoint_count ≡ length state.checkpoints = count_of state h1 in
      let out = ok_of_then (validate_against_committed_state state decoded) r2 in
      (
        h1 ∙ ap ok (sym same),
        h3,
        ap (λ o. o.0) out ∙ ap applied count,
        ap (λ o. o.1) out ∙ ap (commit_state state decoded) count,
      )

  status_applied :
      (state : CommittedState) (bytes : List ℕ) (decoded : DecodedCommit) (status : RequestStatus)
      (ordinal : ℕ) (state' : CommittedState)
      → decode_commit bytes ≡ ok decoded
      → request_status state decoded.request_id decoded.operation_digest ≡ ok status
      → apply_status state decoded status ≡ ok (applied ordinal, state')
      → Applied state bytes ordinal state'
  unfolding apply_status
  status_applied state bytes decoded (replay n) ordinal state' decodes classified rest =
      absurd (cc rest)
  status_applied state bytes decoded retired ordinal state' decodes classified rest =
      absurd (cc rest)
  status_applied state bytes decoded new ordinal state' decodes classified rest =
      let (based, valid, out, is) = apply_new_inv state decoded rest in
      let count : ordinal ≡ length state.checkpoints = cc out in
      (
        decoded,
        decodes,
        classified,
        based,
        valid,
        count,
        is ∙ ap (commit_state state decoded) (sym count),
      )

  status_kept :
      (state : CommittedState) (decoded : DecodedCommit) (status : RequestStatus)
      (outcome : ApplyOutcome) (state' : CommittedState)
      → apply_status state decoded status ≡ ok (outcome, state')
      → ((n : ℕ) → outcome ≢ applied n)
      → state' ≡ state
  unfolding apply_status
  status_kept state decoded (replay n) outcome state' h other = cc h
  status_kept state decoded retired outcome state' h other = cc h
  status_kept state decoded new outcome state' h other =
      let (based, valid, out, is) = apply_new_inv state decoded h in
      absurd (other (length state.checkpoints) out)

  pub apply_commit-Applied :
      (state : CommittedState) (bytes : List ℕ) {ordinal : ℕ} {state' : CommittedState}
      → apply_commit state bytes ≡ ok (applied ordinal, state')
      → Applied state bytes ordinal state'
  apply_commit-Applied state bytes {ordinal} {state'} h =
      let (decoded, status, decodes, classified, rest) = apply_commit_inv state bytes h in
      status_applied state bytes decoded status ordinal state' decodes classified rest

  -- Where the request is not new, the state is kept.
  pub apply_commit-Kept :
      (state : CommittedState) (bytes : List ℕ) {outcome : ApplyOutcome} {state' : CommittedState}
      → apply_commit state bytes ≡ ok (outcome, state')
      → ((n : ℕ) → outcome ≢ applied n)
      → state' ≡ state
  apply_commit-Kept state bytes {outcome} {state'} h other =
      let (decoded, status, decodes, classified, rest) = apply_commit_inv state bytes h in
      go decoded status rest
    where
      go :
          (decoded : DecodedCommit) (status : RequestStatus)
          → apply_status state decoded status ≡ ok (outcome, state')
          → state' ≡ state
      go decoded status rest = status_kept state decoded status outcome state' rest other
