-- ===== src/HotWal/AuthorityLaws.antt =====
-- The recovery that is chosen agrees with the manifest and with the first bytes of the log.
use tulya_checkpoint_store.Prelude.{
  if◌then◌else◌, ◌≡◌, ◌⊎◌, inl, inr, refl, Bool, true, false, List, [], ◌∷◌, take, ltb, length, ok,
  err, ℕ,
}
use tulya_checkpoint_store.Format.Codec.{same_bytes}
use tulya_checkpoint_store.Format.ByteLists.{same_bytes-eq}
use tulya_checkpoint_store.HotWal.Authority.{
  PublicStoreFormat, v1, v2, HotWalAuthority, empty_wal, v1_transaction, v2_commit,
  RecoveryDispatch, v1_transaction_wal, v2_commit_wal, invalid_authority, wal_v2_structural_magic,
  wal_v1_magic, wal_v2_commit_magic, all_zero, classify_magic, probe_hot_wal_prefix,
  recovery_dispatch,
}

-- The public format, and the magic, of the records that a recovery reads.
abbrev pub format_of : RecoveryDispatch → PublicStoreFormat
format_of v1_transaction_wal = v1
format_of v2_commit_wal = v2

abbrev pub magic_of : RecoveryDispatch → List ℕ
magic_of v1_transaction_wal = wal_v1_magic
magic_of v2_commit_wal = wal_v2_commit_magic

-- What a log begins with, by the authority that it was found to have.
abbrev Begins : HotWalAuthority → List ℕ → Type 0
Begins empty_wal bytes = all_zero (take 4 bytes) ≡ true
Begins v1_transaction bytes = take 4 bytes ≡ wal_v1_magic
Begins v2_commit bytes = take 4 bytes ≡ wal_v2_commit_magic

-- What the tests of the magic say of the authority that they pick.
classify_magic_inv :
    (magic : List ℕ) (wal : HotWalAuthority)
    → classify_magic magic ≡ ok wal
    → ((wal ≡ v1_transaction) × (same_bytes magic wal_v1_magic ≡ true))
      ⊎ ((wal ≡ v2_commit) × (same_bytes magic wal_v2_commit_magic ≡ true))
unfolding classify_magic
classify_magic_inv magic wal h =
    go (same_bytes magic wal_v1_magic) (same_bytes magic wal_v2_commit_magic)
      (same_bytes magic wal_v2_structural_magic) h
  where
    go :
        (a b c : Bool)
        → (if a
            then ok v1_transaction
            else if b
            then ok v2_commit
            else if c
            then err (invalid_authority "bare T2W2 structural transaction cannot be authoritative")
            else err (invalid_authority "checkpoint-store WAL magic is unsupported"))
          ≡ ok wal
        → ((wal ≡ v1_transaction) × (a ≡ true)) ⊎ ((wal ≡ v2_commit) × (b ≡ true))
    go true b c e = inl (cc e, refl)
    go false true c e = inr (cc e, refl)
    go false false true e = absurd (cc e)
    go false false false e = absurd (cc e)

classify_magic-Begins :
    (bytes : List ℕ) (wal : HotWalAuthority)
    → classify_magic (take 4 bytes) ≡ ok wal
    → Begins wal bytes
classify_magic-Begins bytes wal h = elim (classify_magic_inv (take 4 bytes) wal h) [
  | inl (is_wal, same) ↦ rw is_wal (same_bytes-eq (take 4 bytes) wal_v1_magic same)
  | inr (is_wal, same) ↦ rw is_wal (same_bytes-eq (take 4 bytes) wal_v2_commit_magic same)
]

probe-Begins :
    (bytes : List ℕ) (wal : HotWalAuthority)
    → probe_hot_wal_prefix bytes ≡ ok wal
    → Begins wal bytes
unfolding probe_hot_wal_prefix
probe-Begins [] wal h = let e : wal ≡ empty_wal = cc h in rw e refl
probe-Begins (b ∷ bytes) wal h =
    go (all_zero (take 4 (b ∷ bytes))) (ltb (length (b ∷ bytes)) 4) refl h
  where
    go :
        (zeros short : Bool)
        → all_zero (take 4 (b ∷ bytes)) ≡ zeros
        → (if zeros
            then ok empty_wal
            else if short
            then err (invalid_authority "checkpoint-store WAL prefix is truncated")
            else classify_magic (take 4 (b ∷ bytes)))
          ≡ ok wal
        → Begins wal (b ∷ bytes)
    go true short is_zero e = let same : wal ≡ empty_wal = cc e in rw same is_zero
    go false true is_zero e = absurd (cc e)
    go false false is_zero e = classify_magic-Begins (b ∷ bytes) wal e

dispatch-agrees :
    (manifest : PublicStoreFormat) (wal : HotWalAuthority) (bytes : List ℕ)
    (chosen : RecoveryDispatch)
    → Begins wal bytes
    → recovery_dispatch manifest wal ≡ ok chosen
    → (manifest ≡ format_of chosen)
      × ((all_zero (take 4 bytes) ≡ true) ⊎ (take 4 bytes ≡ magic_of chosen))
unfolding recovery_dispatch
dispatch-agrees v1 empty_wal bytes v1_transaction_wal begins h = (refl, inl begins)
dispatch-agrees v1 empty_wal bytes v2_commit_wal begins h = absurd (cc h)
dispatch-agrees v1 v1_transaction bytes v1_transaction_wal begins h = (refl, inr begins)
dispatch-agrees v1 v1_transaction bytes v2_commit_wal begins h = absurd (cc h)
dispatch-agrees v1 v2_commit bytes chosen begins h = absurd (cc h)
dispatch-agrees v2 empty_wal bytes v1_transaction_wal begins h = absurd (cc h)
dispatch-agrees v2 empty_wal bytes v2_commit_wal begins h = (refl, inl begins)
dispatch-agrees v2 v1_transaction bytes chosen begins h = absurd (cc h)
dispatch-agrees v2 v2_commit bytes v1_transaction_wal begins h = absurd (cc h)
dispatch-agrees v2 v2_commit bytes v2_commit_wal begins h = (refl, inr begins)

-- When the probe of a log and the dispatch both succeed, the manifest has the format that the chosen
-- recovery reads, and the first four bytes of the log, or all of a shorter one, are zero or its magic.
pub recovery_dispatch-probe_hot_wal_prefix :
    (manifest : PublicStoreFormat) (bytes : List ℕ) (wal : HotWalAuthority)
    (chosen : RecoveryDispatch)
    → probe_hot_wal_prefix bytes ≡ ok wal
    → recovery_dispatch manifest wal ≡ ok chosen
    → (manifest ≡ format_of chosen)
      × ((all_zero (take 4 bytes) ≡ true) ⊎ (take 4 bytes ≡ magic_of chosen))
recovery_dispatch-probe_hot_wal_prefix manifest bytes wal chosen probed dispatched =
    dispatch-agrees manifest wal bytes chosen (probe-Begins bytes wal probed) dispatched
