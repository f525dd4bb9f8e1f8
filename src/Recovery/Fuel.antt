-- ===== src/Recovery/Fuel.antt =====
-- The fuel of the recovery is enough.
use tulya_checkpoint_store.Prelude.{
  ℕ, zero, suc, ◌+◌, ◌-◌, ◌<◌, ◌≡◌, ◌≢◌, refl, arith, List, Bool, true, false, ltb, ltb→lt, length,
  take, drop, if◌then◌else◌, Result, ok, err, ◌>>=◌, bind_inv, then_inv, checked_add_inv,
  ok_of_then, reject, map_err, u64_max,
}
use tulya_checkpoint_store.Format.Records.{Sha256}
use tulya_checkpoint_store.Format.Codec.{same_bytes}
use tulya_checkpoint_store.Format.Reads.{get_or_err}
use tulya_checkpoint_store.Publication.Records.{Utf8}
use tulya_checkpoint_store.Wal.Bodies.{map_err_inv}
use tulya_checkpoint_store.HotWal.Frame.{HotFrameProbe, complete, torn, probe_hot_frame}
use tulya_checkpoint_store.HotWal.FrameLaws.{probe_hot_frame-complete}
use tulya_checkpoint_store.Apply.State.{CommittedState}
use tulya_checkpoint_store.Apply.Commits.{apply_commit}
use tulya_checkpoint_store.Recovery.Scan.{
  RecoveryError, raised, apply_error, frame_error, out_of_fuel, RecoveredHotWal, recovered,
  end_of_bytes, Turn, stopped, advanced, structural_magic, starts_with_zero_reserve, applied_state,
  take_frame, probe_turn, reserve_turn, recovery_turn, recovery_loop, recover_hot_wal,
}

module _ ⦃sha : Sha256⦄ ⦃text : Utf8⦄ where
  -- A turn that advances does so by a whole frame, inside the bytes.
  take_frame_advances :
      (remaining : List ℕ) (cursor count c f : ℕ) (state : CommittedState) {cursor' count' : ℕ}
      {state' : CommittedState}
      → take_frame remaining cursor count state (complete c f) ≡ ok (advanced cursor' count' state')
      → cursor' ≡ cursor + f
  unfolding take_frame
  take_frame_advances remaining cursor count c f state h =
      let (commit, u1, h1) = bind_inv {m = get_or_err remaining 0 c _} h in
      let (outcome, u2, h2) = bind_inv {m = map_err apply_error (apply_commit state commit)} h1 in
      let (next, u3, h3) = bind_inv {m = applied_state outcome} h2 in
      let (u4, h4) = checked_add_inv u64_max cursor f _ _ h3 in
      let (u5, h5) = checked_add_inv u64_max count 1 _ _ h4 in turn_cursor h5
    where
      turn_cursor :
          {a b k l : ℕ} {s t : CommittedState}
          → ◌≡◌ {A = Result RecoveryError Turn} (ok (advanced a k s)) (ok (advanced b l t))
          → b ≡ a
      turn_cursor e = cc e

  stops :
      (remaining : List ℕ) (cursor count : ℕ) (state : CommittedState) {cursor' count' : ℕ}
      {state' : CommittedState}
      → take_frame remaining cursor count state torn ≡ ok (advanced cursor' count' state')
      → cursor < cursor'
  unfolding take_frame
  stops remaining cursor count state h = absurd (cc h)

  probe_turn_advances :
      (remaining : List ℕ) (cursor count : ℕ) (state : CommittedState) {cursor' count' : ℕ}
      {state' : CommittedState}
      → probe_turn remaining cursor count state ≡ ok (advanced cursor' count' state')
      → cursor < cursor'
  unfolding probe_turn
  probe_turn_advances remaining cursor count state {cursor'} {count'} {state'} h =
      let (u1, h1) = then_inv (reject (same_bytes (take 4 remaining) structural_magic) _) h in
      let (probe, h2, h3) = bind_inv {m = map_err frame_error (probe_hot_frame remaining)} h1 in
      go probe (map_err_inv frame_error _ h2) h3
    where
      go :
          (probe : HotFrameProbe)
          → probe_hot_frame remaining ≡ ok probe
          → take_frame remaining cursor count state probe ≡ ok (advanced cursor' count' state')
          → cursor < cursor'
      go torn e k = stops remaining cursor count state k
      go (complete c f) e k =
          let (magic, field, long, frame) = probe_hot_frame-complete remaining c f e in
          omega (arith, take_frame_advances remaining cursor count c f state k, frame.is_len, long)

  recovery_turn_advances :
      (remaining : List ℕ) (cursor count : ℕ) (state : CommittedState) {cursor' count' : ℕ}
      {state' : CommittedState}
      → recovery_turn remaining cursor count state ≡ ok (advanced cursor' count' state')
      → cursor < cursor'
  unfolding recovery_turn reserve_turn
  recovery_turn_advances remaining cursor count state {cursor'} {count'} {state'} h =
      go (starts_with_zero_reserve remaining) h
    where
      go :
          (b : Bool)
          → (if b then reserve_turn remaining else probe_turn remaining cursor count state)
            ≡ ok (advanced cursor' count' state')
          → cursor < cursor'
      go true k = absurd (let same = ok_of_then _ k in cc same)
      go false k = probe_turn_advances remaining cursor count state k

  loop_fuel :
      (fuel : ℕ) (bytes : List ℕ) (cursor count : ℕ) (state : CommittedState)
      → length bytes - cursor < fuel
      → recovery_loop fuel bytes cursor count state ≢ err out_of_fuel
  unfolding recovery_loop
  loop_fuel zero bytes cursor count state h = absurd (omega arith)
  loop_fuel (suc fuel) bytes cursor count state h =
      go (λ cursor' count' state' lt. loop_fuel fuel bytes cursor' count' state' lt)
        (ltb cursor (length bytes)) refl
    where
      Shorter : Type 0
      Shorter =
          (cursor' count' : ℕ) (state' : CommittedState)
          → length bytes - cursor' < fuel
          → recovery_loop fuel bytes cursor' count' state' ≢ err out_of_fuel

      next :
          (shorter : Shorter) (r : Result RecoveryError Turn)
          → recovery_turn (drop cursor bytes) cursor count state ≡ r
          → cursor < length bytes
          → (◌>>=◌ {B = RecoveredHotWal} (map_err raised r) λ turn. elim turn [
            | stopped stop ↦ ok (recovered state cursor count stop)
            | advanced cursor' count' state' ↦ recovery_loop fuel bytes cursor' count' state'
          ])
            ≢ err out_of_fuel
      next shorter (err e) is lt k = absurd (cc k)
      next shorter (ok (stopped stop)) is lt k = absurd (cc k)
      next shorter (ok (advanced cursor' count' state')) is lt k =
          shorter cursor' count' state'
            (omega (arith, recovery_turn_advances (drop cursor bytes) cursor count state is)) k

      go :
          (shorter : Shorter) (b : Bool)
          → ltb cursor (length bytes) ≡ b
          → elim b [
            | false ↦ ok (recovered state cursor count end_of_bytes)
            | true ↦
                ◌>>=◌ {B = RecoveredHotWal}
                  (map_err raised (recovery_turn (drop cursor bytes) cursor count state))
                  λ turn. elim turn [
                    | stopped stop ↦ ok (recovered state cursor count stop)
                    | advanced cursor' count' state' ↦
                        recovery_loop fuel bytes cursor' count' state'
                  ]
          ]
            ≢ err out_of_fuel
      go shorter false e k = absurd (cc k)
      go shorter true e k = next shorter _ refl (ltb→lt cursor (length bytes) e) k

  -- The recovery of any bytes from any state ends by its own steps: its fuel is enough.
  pub recover_hot_wal_ends :
      (bytes : List ℕ) (state : CommittedState) → recover_hot_wal bytes state ≢ err out_of_fuel
  unfolding recover_hot_wal
  recover_hot_wal_ends bytes state = loop_fuel (suc (length bytes)) bytes 0 0 state (omega arith)
