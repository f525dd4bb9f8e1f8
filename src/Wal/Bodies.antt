-- ===== src/Wal/Bodies.antt =====
-- The tables of a transaction that passed its checks are decoded from their bytes.
use mathlib.Core.Bool.{decide_iff}
use tulya_checkpoint_store.Prelude.{
  ℕ, suc, ◌+◌, ◌≤◌, ◌≡◌, ◌∙◌, ap, sym, List, [], ◌∷◌, ◌++◌, arith, length, length-append,
  append_assoc, slice, ==_iff, le→leb, true_of_not, Result, ok, err, map_err, bind_inv, then_inv,
  checked_add_inv, reject_inv, u64_max,
}
use tulya_checkpoint_store.Format.Records.{Sha256, NodeRecord}
use tulya_checkpoint_store.Format.Reads.{get_or_err, get_or_err_found, slice_middle}
use tulya_checkpoint_store.Format.Codec.{encode_node, decode_node}
use tulya_checkpoint_store.Avl.VerifyEnds.{same_node-eq}
use tulya_checkpoint_store.Publication.Records.{VersionRecord, VersionRecord-discrete}
use tulya_checkpoint_store.Publication.Version.{encode_version, decode_version}
use tulya_checkpoint_store.Wal.Records.{
  invalid, format_error, publication_error, WalGeometry, WalTransaction,
}
use tulya_checkpoint_store.Wal.Geometry.{version_id_for_local}
use tulya_checkpoint_store.Wal.Nodes.{
  validate_node_codec, validate_node, node_ranges, validate_nodes,
}
use tulya_checkpoint_store.Wal.Validate.{
  validate_version, validate_versions_from, validate_versions,
}
use tulya_checkpoint_store.Wal.Codec.{encode_nodes, encode_versions, decode_nodes, decode_versions}

-- Each node has a record of 72 bytes that decodes to it.
abbrev pub AllEncodable : List NodeRecord → Type 0
AllEncodable [] = Unit {0}
AllEncodable (node ∷ nodes) =
    (length (encode_node node) ≡ 72)
    × (decode_node (encode_node node) ≡ ok node)
    × AllEncodable nodes

-- Each version has the identifier of its place, and a record of 72 bytes that decodes to it.
abbrev pub IsSequential : ℕ → ℕ → List VersionRecord → Type 0
IsSequential base local [] = Unit {0}
IsSequential base local (version ∷ versions) =
    ((bytes : List ℕ) × (version_id_for_local base local ≡ ok version.version_id)
      × (encode_version version ≡ ok bytes)
      × (length bytes ≡ 72)
      × (decode_version bytes version.version_id ≡ ok version))
    × IsSequential base (suc local) versions

pub map_err_inv :
    {E F A : Type 0} (f : E → F) (r : Result E A) {a : A} → map_err f r ≡ ok a → r ≡ ok a
map_err_inv f (ok a) h = ground arith
map_err_inv f (err e) h = absurd (cc h)

codec_inv :
    (node : NodeRecord)
    → validate_node_codec node ≡ ok tt
    → (length (encode_node node) ≡ 72) × (decode_node (encode_node node) ≡ ok node)
unfolding validate_node_codec
codec_inv node h =
    let (width, h1) = then_inv _ h in
    let (decoded, found, h2) = bind_inv h1 in
    let same : decoded ≡ node = same_node-eq decoded node (true_of_not (reject_inv _ _ h2)) in
    (
      (==_iff (length (encode_node node)) 72).0 (true_of_not (reject_inv _ _ width)),
      map_err_inv format_error _ found ∙ ap ok same,
    )

module _ ⦃sha : Sha256⦄ where
  node_codec :
      (base next : WalGeometry) (transaction : WalTransaction) (local : ℕ) (node : NodeRecord)
      {ranges : List (ℕ × ℕ)}
      → validate_node base next transaction local node ≡ ok ranges
      → validate_node_codec node ≡ ok tt
  unfolding validate_node
  node_codec base next transaction local node h =
      (then_inv (validate_node_codec node)
        (checked_add_inv u64_max base.node_count local _ _ h).1).0

  node_ranges-AllEncodable :
      (base next : WalGeometry) (transaction : WalTransaction) (local : ℕ) (nodes : List NodeRecord)
      {ranges : List (ℕ × ℕ)}
      → node_ranges base next transaction local nodes ≡ ok ranges
      → AllEncodable nodes
  unfolding node_ranges
  node_ranges-AllEncodable base next transaction local [] h = tt
  node_ranges-AllEncodable base next transaction local (node ∷ nodes) h =
      let (first, h1, rest) = bind_inv {m = validate_node base next transaction local node} h in
      let (more, h2, h3) =
        bind_inv {m = node_ranges base next transaction (suc local) nodes} rest in
      let (width, decodes) = codec_inv node (node_codec base next transaction local node h1) in
      (width, decodes, node_ranges-AllEncodable base next transaction (suc local) nodes h2)

  pub validate_nodes-AllEncodable :
      (base next : WalGeometry) (transaction : WalTransaction)
      → validate_nodes base next transaction ≡ ok tt
      → AllEncodable transaction.nodes
  unfolding validate_nodes
  validate_nodes-AllEncodable base next transaction h =
      let (ranges, h1, rest) = bind_inv h in
      node_ranges-AllEncodable base next transaction 0 transaction.nodes h1

validate_version-Sequential :
    (base next : WalGeometry) (transaction : WalTransaction) (local : ℕ) (version : VersionRecord)
    → validate_version base next transaction local version ≡ ok tt
    → (bytes : List ℕ) × (version_id_for_local base.version_count local ≡ ok version.version_id)
      × (encode_version version ≡ ok bytes)
      × (length bytes ≡ 72)
      × (decode_version bytes version.version_id ≡ ok version)
unfolding validate_version
validate_version-Sequential base next transaction local version h =
    let (id, h1, r1) = bind_inv h in
    let (h2, r2) = then_inv _ r1 in
    let (bytes, h3, r3) = bind_inv r2 in
    let (h4, r4) = then_inv _ r3 in
    let (decoded, h5, r5) = bind_inv r4 in
    let (h6, r6) = then_inv _ r5 in
    let named : version.version_id ≡ id =
      (==_iff version.version_id id).0 (true_of_not (reject_inv _ _ h2)) in
    let same : decoded ≡ version =
      (decide_iff (VersionRecord-discrete decoded version)).0 (true_of_not (reject_inv _ _ h6)) in
    (
      bytes,
      h1 ∙ ap ok (sym named),
      map_err_inv publication_error _ h3,
      (==_iff (length bytes) 72).0 (true_of_not (reject_inv _ _ h4)),
      ap (decode_version bytes) named ∙ map_err_inv publication_error _ h5 ∙ ap ok same,
    )

versions_from-Sequential :
    (base next : WalGeometry) (transaction : WalTransaction) (local : ℕ)
    (versions : List VersionRecord)
    → validate_versions_from base next transaction local versions ≡ ok tt
    → IsSequential base.version_count local versions
unfolding validate_versions_from
versions_from-Sequential base next transaction local [] h = tt
versions_from-Sequential base next transaction local (version ∷ versions) h =
    let (h1, h2) = then_inv (validate_version base next transaction local version) h in
    (
      validate_version-Sequential base next transaction local version h1,
      versions_from-Sequential base next transaction (suc local) versions h2,
    )

pub validate_versions-Sequential :
    (base next : WalGeometry) (transaction : WalTransaction)
    → validate_versions base next transaction ≡ ok tt
    → IsSequential base.version_count 0 transaction.versions
unfolding validate_versions
validate_versions-Sequential base next transaction h =
    versions_from-Sequential base next transaction 0 transaction.versions h

-- A part of the bytes behind a front that ends at the cursor.
pub get_part :
    {E : Type 0} (bytes front part tail : List ℕ) (cursor size : ℕ) (e : E)
    → bytes ≡ front ++ (part ++ tail)
    → length front ≡ cursor
    → length part ≡ size
    → get_or_err bytes cursor (cursor + size) e ≡ ok part
get_part bytes front part tail cursor size e is at wide =
    get_or_err_found bytes cursor (cursor + size) e (
      ap (λ l. slice l cursor (cursor + size)) is
      ∙ slice_middle front part tail cursor (cursor + size) at (omega (arith, at, wide)))

-- The same bytes with the part moved to the front.
pub move_part :
    {bytes : List ℕ} (front part rest tail : List ℕ)
    → bytes ≡ front ++ ((part ++ rest) ++ tail)
    → (bytes ≡ front ++ (part ++ (rest ++ tail))) × (bytes ≡ (front ++ part) ++ (rest ++ tail))
move_part front part rest tail h =
    let moved = h ∙ ap (λ l. front ++ l) (append_assoc part rest tail) in
    (moved, moved ∙ sym (append_assoc front part (rest ++ tail)))

pub decode_nodes-encode_nodes :
    (bytes front : List ℕ) (nodes : List NodeRecord) (tail : List ℕ) (cursor : ℕ)
    → AllEncodable nodes
    → bytes ≡ front ++ (encode_nodes nodes ++ tail)
    → length front ≡ cursor
    → cursor + length (encode_nodes nodes) ≤ u64_max
    → decode_nodes (length nodes) bytes cursor ≡ ok (nodes, cursor + length (encode_nodes nodes))
unfolding decode_nodes encode_nodes
decode_nodes-encode_nodes bytes front [] tail cursor good is at small =
    ap (λ c. ok ([], c)) (omega arith)
decode_nodes-encode_nodes bytes front (node ∷ nodes) tail cursor (wide, decodes, good) is at small =
    let encoded = encode_node node in
    let rest = encode_nodes nodes in
    let (is1, is2) = move_part front encoded rest tail is in
    let total : length (encoded ++ rest) ≡ 72 + length rest =
      omega (arith, wide, length-append {0} encoded rest) in
    let found : decode_nodes (length nodes) bytes (cursor + 72)
        ≡ ok (nodes, cursor + 72 + length rest) =
      decode_nodes-encode_nodes bytes (front ++ encoded) nodes tail (cursor + 72) good is2
        (omega (arith, at, wide, length-append {0} front encoded)) (omega (arith, total)) in
    rw
      (
        le→leb (cursor + 72) u64_max (omega (arith, total)),
        get_part bytes front encoded (rest ++ tail) cursor 72
            (invalid "v2 WAL node table is truncated") is1 at wide,
        decodes,
        found,
      )
      (ap (λ c. ok (node ∷ nodes, c)) (omega (arith, total)))

pub decode_versions-encode_versions :
    (bytes front : List ℕ) (versions : List VersionRecord) (tail : List ℕ) (base local cursor : ℕ)
    {table : List ℕ}
    → IsSequential base local versions
    → encode_versions versions ≡ ok table
    → bytes ≡ front ++ (table ++ tail)
    → length front ≡ cursor
    → cursor + length table ≤ u64_max
    → decode_versions (length versions) local base bytes cursor
      ≡ ok (versions, cursor + length table)
unfolding decode_versions encode_versions
decode_versions-encode_versions bytes front [] tail base local cursor {table} good h is at small =
    let empty : [] ≡ table = cc h in ap (λ c. ok ([], c)) (omega (arith, ap length empty))
decode_versions-encode_versions bytes front (version ∷ versions) tail base local cursor {table}
      (first, good) h is at small =
    let (encoded, names, encodes, wide, decodes) = first in
    let (encoded', h1, r1) = bind_inv {m = map_err publication_error (encode_version version)} h in
    let (rest, h2, h3) = bind_inv {m = encode_versions versions} r1 in
    let agree : encoded' ≡ encoded = cc (encodes, map_err_inv publication_error _ h1) in
    let split : table ≡ encoded ++ rest = cc (h3, agree) in
    let (is1, is2) =
      move_part front encoded rest tail (is ∙ ap (λ t. front ++ (t ++ tail)) split) in
    let total : length table ≡ 72 + length rest =
      omega (arith, ap length split, wide, length-append {0} encoded rest) in
    let found : decode_versions (length versions) (suc local) base bytes (cursor + 72)
        ≡ ok (versions, cursor + 72 + length rest) =
      decode_versions-encode_versions bytes (front ++ encoded) versions tail base (suc local)
        (cursor + 72) good h2 is2 (omega (arith, at, wide, length-append {0} front encoded))
        (omega (arith, total)) in
    rw
      (
        le→leb (cursor + 72) u64_max (omega (arith, total)),
        names,
        get_part bytes front encoded (rest ++ tail) cursor 72
            (invalid "v2 WAL version table is truncated") is1 at wide,
        decodes,
        found,
      )
      (ap (λ c. ok (version ∷ versions, c)) (omega (arith, total)))
