-- ===== src/Storage/Objects/Scenarios.antt =====
-- A store of src/edgar/storage/objects.py with one object, and a stream of two chunks.
use edgar.Prelude.{◌≡◌, refl, ◌≤◌, List, [], ◌∷◌, String, ok, length}
use edgar.Storage.Objects.{
  Bytes, Store, StoredObject, lookup, put_stream, put_bytes, write_chunks, path_for, open_bytes,
}
use edgar.Storage.Objects.Chunks.{joined}
use edgar.Storage.Objects.Contents.{
  put, open_bytes-put_stream, lookup-put_stream, put_stream-put_bytes,
}

-- Two digests of 64 characters, by the first byte.
abbrev other_digest : String
other_digest = "00000000000000000000000000000000000000000000000000000000000000ff"

abbrev some_digest : String
some_digest = "ba7816bf8f01cfea414140de5dae2223b00361a396177a9cb410ff61f20015ad"

abbrev digest : Bytes → String
digest [] = other_digest
digest (b ∷ bs) = some_digest

abbrev before : Store
before = (other_digest, []) ∷ []

abbrev chunks : List Bytes
chunks = (97 ∷ 98 ∷ []) ∷ [] ∷ (99 ∷ []) ∷ []

abbrev after : Store × StoredObject
after = ((some_digest, 97 ∷ 98 ∷ 99 ∷ []) ∷ before, record { sha256 = some_digest; byte_size = 3 })

stored : put_stream digest before chunks 10 ≡ ok after
unfolding put_stream write_chunks path_for
stored = refl

open_bytes-put_stream_example :
    (open_bytes digest after.0 some_digest ≡ ok (97 ∷ 98 ∷ 99 ∷ []))
    × (3 ≡ length (joined chunks))
    × (3 ≤ 10)
open_bytes-put_stream_example = open_bytes-put_stream digest before chunks 10 after stored

lookup-put_stream_example :
    (lookup some_digest after.0
      ≡ put (λ k. lookup k before) some_digest (97 ∷ 98 ∷ 99 ∷ []) some_digest)
    × (some_digest ≡ some_digest)
lookup-put_stream_example = lookup-put_stream digest before chunks 10 after some_digest stored

put_stream-put_bytes_example :
    put_stream digest before chunks 10 ≡ put_bytes digest before (97 ∷ 98 ∷ 99 ∷ [])
put_stream-put_bytes_example = put_stream-put_bytes digest before chunks 10
