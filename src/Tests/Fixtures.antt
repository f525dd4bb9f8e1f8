-- ===== src/Tests/Fixtures.antt =====
-- Stand-ins for SHA-256, by 32 copies of a checksum of the bytes, and for the check of UTF-8, which
-- takes ASCII; the value of a result.
use tulya_checkpoint_store.Prelude.{
  ltb, ◌&&◌, ◌≡◌, refl, Bool, true, false, Result, ok, err, ℕ, ◌+◌, ◌*◌, ◌%◌, List, [], ◌∷◌,
  replicate, length-replicate,
}
use tulya_checkpoint_store.Format.Records.{Sha256}
use tulya_checkpoint_store.Publication.Records.{Utf8}

abbrev pub checksum : List ℕ → ℕ
checksum [] = 7
checksum (b ∷ bytes) = (b + 3 * checksum bytes) % 256

instance abbrev pub checksum_sha : Sha256
checksum_sha = record {
  digest = λ bytes. replicate 32 (checksum bytes);
  length-digest = λ bytes. length-replicate 32 (checksum bytes);
}

abbrev pub ascii : List ℕ → Bool
ascii [] = true
ascii (b ∷ bytes) = ltb b 128 && ascii bytes

instance abbrev pub ascii_text : Utf8
ascii_text = record { is_utf8 = ascii; is_utf8-nil = refl }

abbrev pub value_or : {E A : Type 0} → A → Result E A → A
value_or a (ok b) = b
value_or a (err e) = a

abbrev pub is_ok : {E A : Type 0} → Result E A → Bool
is_ok (ok a) = true
is_ok (err e) = false

pub succeeds : {E A : Type 0} (a : A) (r : Result E A) → is_ok r ≡ true → r ≡ ok (value_or a r)
succeeds a (ok b) h = refl
succeeds a (err e) h = absurd (cc h)
