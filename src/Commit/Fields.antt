-- ===== src/Commit/Fields.antt =====
-- What a commit that decodes holds in the fields that its frame is framed by.
use tulya_checkpoint_store.Prelude.{
  ℕ, ◌+◌, ◌≤◌, ◌≡◌, ◌∙◌, ap, sym, List, Option, none, some, length, take, slice, ==_iff,
  true_of_not, ltb→le, Result, ok, err, bind_inv, then_inv, checked_add_inv, reject_inv, u64_max,
  map_err,
}
use tulya_checkpoint_store.Format.Bytes.{from_le_bytes}
use tulya_checkpoint_store.Format.ByteLists.{same_bytes-eq}
use tulya_checkpoint_store.Format.Records.{Sha256}
use tulya_checkpoint_store.Format.Reads.{get_or_err, read_le}
use tulya_checkpoint_store.Publication.Records.{Utf8}
use tulya_checkpoint_store.Wal.Codec.{decode_transaction}
use tulya_checkpoint_store.Commit.Records.{
  CommitError, wal_error, DecodedCommit, commit_magic, read_u32,
}
use tulya_checkpoint_store.Commit.Codec.{
  decode_inner_wal_base, check_operation_digest, decode_commit_sections, decode_commit_digests,
  decode_commit,
}

pub get_or_err_inv :
    {E : Type 0} (bytes : List ℕ) (start end : ℕ) (e : E) {found : List ℕ}
    → get_or_err bytes start end e ≡ ok found
    → slice bytes start end ≡ some found
unfolding get_or_err
get_or_err_inv bytes start end e h = go (slice bytes start end) h
  where
    go :
        (s : Option (List ℕ)) {found : List ℕ}
        → elim s [ none ↦ err e | some f ↦ ok f ] ≡ ok found
        → s ≡ some found
    go none k = absurd (cc k)
    go (some f) k = ap some (cc k)

pub read_le_inv :
    {E : Type 0} (n : ℕ) (bytes : List ℕ) (offset : ℕ) (too_far missing : E) {v : ℕ}
    → read_le n bytes offset too_far missing ≡ ok v
    → (part : List ℕ) × (slice bytes offset (offset + n) ≡ some part) × (from_le_bytes part ≡ v)
unfolding read_le
read_le_inv n bytes offset too_far missing h =
    let (small, h1) = checked_add_inv u64_max offset n _ _ h in
    let (part, h2, h3) = bind_inv {m = get_or_err bytes offset (offset + n) missing} h1 in
    (part, get_or_err_inv bytes offset (offset + n) missing h2, cc h3)

module _ ⦃sha : Sha256⦄ ⦃text : Utf8⦄ where
  sections_keep :
      (bytes : List ℕ) (wal_len request_len : ℕ) (operation stored : List ℕ)
      {decoded : DecodedCommit}
      → decode_commit_sections bytes wal_len request_len operation stored ≡ ok decoded
      → decoded.commit_digest ≡ stored
  unfolding decode_commit_sections
  sections_keep bytes wal_len request_len operation stored h =
      let (s1, h1) = checked_add_inv u64_max 88 wal_len _ _ h in
      let (s2, h2) = checked_add_inv u64_max (88 + wal_len) request_len _ _ h1 in
      let (u3, h3) = then_inv _ h2 in
      let (wal, u4, h4) = bind_inv {m = get_or_err bytes 88 (88 + wal_len) _} h3 in
      let (request, u5, h5) =
        bind_inv {m = get_or_err bytes (88 + wal_len) (88 + wal_len + request_len) _} h4 in
      let (u6, h6) = then_inv _ h5 in
      let (u7, h7) = then_inv _ h6 in
      let (base, u8, h8) = bind_inv {m = decode_inner_wal_base wal} h7 in
      let (inner, u9, h9) = bind_inv {m = map_err wal_error (decode_transaction wal base)} h8 in
      let (digest, u10, h10) =
        bind_inv {m = check_operation_digest request_len operation inner.transaction.checkpoint}
          h9 in
      kept _ h10
    where
      kept :
          (a : DecodedCommit) {b : DecodedCommit}
          → ◌≡◌ {A = Result CommitError DecodedCommit} (ok a) (ok b)
          → b.commit_digest ≡ a.commit_digest
      kept a {b} k = let same : b ≡ a = cc k in ap (λ d. d.commit_digest) same

  digests_keep :
      (bytes : List ℕ) (wal_len request_len : ℕ) {decoded : DecodedCommit}
      → decode_commit_digests bytes wal_len request_len ≡ ok decoded
      → slice bytes 56 88 ≡ some decoded.commit_digest
  unfolding decode_commit_digests
  digests_keep bytes wal_len request_len h =
      let (operation, u1, h1) = bind_inv {m = get_or_err bytes 24 56 _} h in
      let (stored, u2, h2) = bind_inv {m = get_or_err bytes 56 88 _} h1 in
      let (u3, h3) = then_inv _ h2 in
      get_or_err_inv bytes 56 88 _ u2
      ∙ ap some (sym (sections_keep bytes wal_len request_len operation stored h3))

  -- The header of a commit that decodes, and the decoding of the rest.
  pub decode_commit-Headed :
      (bytes : List ℕ) {decoded : DecodedCommit}
      → decode_commit bytes ≡ ok decoded
      → (88 ≤ length bytes)
        × (take 4 bytes ≡ commit_magic)
        × ((part : List ℕ) × (slice bytes 4 8 ≡ some part) × (from_le_bytes part ≡ length bytes))
        × ((wal_len : ℕ) × (request_len : ℕ) × (decode_commit_digests bytes wal_len request_len
              ≡ ok decoded))
  unfolding decode_commit read_u32
  decode_commit-Headed bytes h =
      let (u1, h1) = then_inv _ h in
      let (u2, h2) = then_inv _ h1 in
      let (total, u3, h3) = bind_inv {m = read_le 4 bytes 4 _ _} h2 in
      let (u4, h4) = then_inv _ h3 in
      let (schema, u5, h5) = bind_inv {m = read_le 4 bytes 8 _ _} h4 in
      let (u6, h6) = then_inv _ h5 in
      let (flags, u7, h7) = bind_inv {m = read_le 4 bytes 12 _ _} h6 in
      let (u8, h8) = then_inv _ h7 in
      let (wal_len, u9, h9) = bind_inv {m = read_le 4 bytes 16 _ _} h8 in
      let (request_len, u10, h10) = bind_inv {m = read_le 4 bytes 20 _ _} h9 in
      let (u11, h11) = then_inv _ h10 in
      let (part, sliced, is) = read_le_inv 4 bytes 4 _ _ u3 in
      (
        ltb→le (length bytes) 88 (reject_inv _ _ u1),
        same_bytes-eq (take 4 bytes) commit_magic (true_of_not (reject_inv _ _ u2)),
        (part, sliced, is ∙ (==_iff total (length bytes)).0 (true_of_not (reject_inv _ _ u4))),
        (wal_len, request_len, h11),
      )

  -- The magic, the length and the digest of a commit that decodes.
  pub decode_commit-Framed :
      (bytes : List ℕ) {decoded : DecodedCommit}
      → decode_commit bytes ≡ ok decoded
      → (88 ≤ length bytes)
        × (take 4 bytes ≡ commit_magic)
        × ((part : List ℕ) × (slice bytes 4 8 ≡ some part) × (from_le_bytes part ≡ length bytes))
        × (slice bytes 56 88 ≡ some decoded.commit_digest)
  decode_commit-Framed bytes h =
      let (long, magic, field, sections) = decode_commit-Headed bytes h in
      let (wal_len, request_len, k) = sections in
      (long, magic, field, digests_keep bytes wal_len request_len k)
