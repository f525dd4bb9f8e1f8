-- ===== src/Publication/VersionLaws.antt =====
-- A version that is encoded decodes to itself.
use tulya_checkpoint_store.Prelude.{
  ◌≤◌, ◌<◌, ◌≡◌, refl, ℕ, String, ◌+◌, List, ◌++◌, Option, none, some, arith, length, length-append,
  append-nil, ok, u32_max, true, ◌==◌, ==_iff, ==_refl, take, drop, bind_inv, ◌≢◌,
}
use tulya_checkpoint_store.Format.Bytes.{to_le_bytes, from_le_bytes}
use tulya_checkpoint_store.Format.Fields.{u32_back}
use tulya_checkpoint_store.Format.Reads.{read_le_head, get_or_err_found, slice_tail}
use tulya_checkpoint_store.Format.Codec.{encode_root}
use tulya_checkpoint_store.Format.RootRoundTrip.{
  IsStorable, length-encode_root, decode_root-encode_root,
}
use tulya_checkpoint_store.Publication.Records.{VersionRecord, none_version, invalid}
use tulya_checkpoint_store.Publication.Checks.{
  validate_parent_version, decode_optional_version, encode_optional_version, require_record_len,
  read_u32,
}
use tulya_checkpoint_store.Publication.Version.{
  version_magic, version_bytes, encode_version, decode_version,
}

-- The first 16 bytes of a version.
version_head : ℕ → ℕ → List ℕ
version_head version_id parent =
    version_magic ++ (to_le_bytes 4 version_id ++ (to_le_bytes 4 parent ++ to_le_bytes 4 0))

length-version_head : (version_id parent : ℕ) → length (version_head version_id parent) ≡ 16
unfolding version_head to_le_bytes
length-version_head version_id parent = refl

first_version_magic :
    (version_id parent : ℕ) (tail : List ℕ)
    → take 4 (version_head version_id parent ++ tail) ≡ version_magic
unfolding version_head
first_version_magic version_id parent tail = refl

take_version_id :
    (version_id parent : ℕ)
    → take 4 (drop 4 (version_head version_id parent)) ≡ to_le_bytes 4 version_id
unfolding version_head to_le_bytes
take_version_id version_id parent = refl

take_parent :
    (version_id parent : ℕ)
    → take 4 (drop 8 (version_head version_id parent)) ≡ to_le_bytes 4 parent
unfolding version_head to_le_bytes
take_parent version_id parent = refl

take_flags :
    (version_id parent : ℕ) → from_le_bytes (take 4 (drop 12 (version_head version_id parent))) ≡ 0
unfolding version_head to_le_bytes from_le_bytes
take_flags version_id parent = refl

version_bytes_eq :
    (version : VersionRecord)
    → length (encode_root version.root) ≡ 56
    → version_bytes version
      ≡ version_head version.version_id (encode_optional_version version.parent_version)
        ++ encode_root version.root
unfolding version_bytes version_head to_le_bytes
version_bytes_eq version e = rw e (append-nil _)

pub optional_back :
    (version : Option ℕ)
    → ((v : ℕ) → version ≡ some v → v < none_version)
    → decode_optional_version (encode_optional_version version) ≡ version
unfolding decode_optional_version encode_optional_version
optional_back none small = refl
optional_back (some v) small = let lt = small v refl in ground arith

pub optional_fits :
    (version : Option ℕ)
    → ((v : ℕ) → version ≡ some v → v < none_version)
    → encode_optional_version version ≤ u32_max
unfolding encode_optional_version
optional_fits none small = omega arith
optional_fits (some v) small = omega (arith, small v refl)

-- A parent that the checks accept comes before its version, which is not the reserved identifier.
parent_inv :
    (version_id : ℕ) (parent : Option ℕ)
    → validate_parent_version version_id parent ≡ ok tt
    → (version_id ≢ none_version) × ((v : ℕ) → parent ≡ some v → v < version_id)
unfolding validate_parent_version
parent_inv version_id none h = (ground arith, λ v e. ground arith)
parent_inv version_id (some p) h =
    let lt : p < version_id = ground arith in
    (ground arith, λ v e. let same : p ≡ v = cc e in omega (arith, lt, same))

read_head :
    (version_id parent : ℕ) (tail : List ℕ) (offset : ℕ) (message : String)
    → offset + 4 ≤ 16
    → read_u32 (version_head version_id parent ++ tail) offset message
      ≡ ok (from_le_bytes (take 4 (drop offset (version_head version_id parent))))
unfolding read_u32
read_head version_id parent tail offset message h =
    let e = length-version_head version_id parent in
    read_le_head (version_head version_id parent) tail 4 offset _ _ (omega (arith, e))
      (omega (arith, e))

decode_version_head :
    (version : VersionRecord)
    → IsStorable version.root
    → version.version_id ≤ u32_max
    → validate_parent_version version.version_id version.parent_version ≡ ok tt
    → decode_version
        (version_head version.version_id (encode_optional_version version.parent_version)
          ++ encode_root version.root)
        version.version_id
      ≡ ok version
unfolding decode_version require_record_len
decode_version_head version storable fits valid =
    let id = version.version_id in
    let raw = encode_optional_version version.parent_version in
    let (named, prior) = parent_inv id version.parent_version valid in
    let small : (v : ℕ) → version.parent_version ≡ some v → v < none_version =
      λ v e. omega (arith, prior v e) in
    let head = version_head id raw in
    let tail = encode_root version.root in
    let e : length head ≡ 16 = length-version_head id raw in
    let f : length tail ≡ 56 = length-encode_root version.root storable.5 in
    let size : (length (head ++ tail) == 72) ≡ true =
      (==_iff (length (head ++ tail)) 72).1 (omega (arith, e, f, length-append {0} head tail)) in
    rw
      (
        size,
        first_version_magic id raw tail,
        read_head id raw tail 4 "v2 version id is truncated" (omega arith),
        take_version_id id raw,
        u32_back id fits,
        ==_refl id,
        read_head id raw tail 8 "v2 version parent is truncated" (omega arith),
        take_parent id raw,
        u32_back raw (optional_fits version.parent_version small),
        optional_back version.parent_version small,
        valid,
        read_head id raw tail 12 "v2 version flags are truncated" (omega arith),
        take_flags id raw,
        get_or_err_found (head ++ tail) 16 72 (invalid "v2 version root is truncated")
            (slice_tail head tail 16 72 e (omega (arith, e, f))),
        decode_root-encode_root version.root storable,
      )
      refl

-- A version record that is encoded, with an identifier of 32 bits and a root that can be stored,
-- decodes from its encoding as itself, when the decoder expects its identifier.
pub decode_version-encode_version :
    (version : VersionRecord) {bytes : List ℕ}
    → IsStorable version.root
    → version.version_id ≤ u32_max
    → encode_version version ≡ ok bytes
    → decode_version bytes version.version_id ≡ ok version
unfolding encode_version
decode_version-encode_version version {bytes} storable fits h =
    let (u, valid, e) = bind_inv h in
    let same : bytes ≡ version_bytes version = cc e in
    rw (same, version_bytes_eq version (length-encode_root version.root storable.5))
      (decode_version_head version storable fits valid)
