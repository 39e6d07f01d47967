-- ===== src/Storage/Objects.antt =====
-- src/edgar/storage/objects.py: the content-addressed store, as the list of its objects by digest.
-- A path is kept as the digest it is built from; temporary files and `fsync` are not modelled.
-- `sha256` is that of `hashlib`, in hexadecimal.
pub mod Chunks
pub mod Contents
pub mod Scenarios
use Prim.Native.Char.{Char, code}
use edgar.Prelude.{
  ℕ, zero, suc, ◌+◌, ◌≤◌, ◌<◌, ◌≡◌, refl, sym, ap, ◌∙◌, arith, Bool, true, false, not, ◌&&◌, ◌||◌,
  List, [], ◌∷◌, ◌++◌, Option, none, some, String, Result, ok, err, raise_if, raise_if-eq-ok,
  >>=-eq-ok, value_error, size_limit_exceeded, file_not_found, ◌>>=◌, ◌>>◌, ◌==◌, Eq, string_eq,
  nat_eq, leb, ltb, nat_beq, if◌then◌else◌, length, beq_refl, Bool-cases,
}
use edgar.Prelude.Text.{str_length, all_chars}

abbrev pub Bytes : Type 0
Bytes = List ℕ

pub record StoredObject : Type 0 where
  pub sha256 : String
  pub byte_size : ℕ

-- `{root}/objects/sha256`: the bytes under each digest.
abbrev pub Store : Type 0
Store = List (String × Bytes)

abbrev pub lookup : String → Store → Option Bytes
lookup digest [] = none
lookup digest ((key, bytes) ∷ rest) = if key == digest then some bytes else lookup digest rest

abbrev is_hex_code : ℕ → Bool
is_hex_code c = (leb 48 c && leb c 57) || (leb 97 c && leb c 102)

abbrev pub is_digest : String → Bool
is_digest digest = nat_beq (str_length digest) 64 && all_chars is_hex_code digest

-- `path_for`
unfoldable pub path_for : String → Result String
path_for digest = do
  raise_if (not (is_digest digest)) (value_error "digest must be 64 lowercase hex chars")
  ok digest

abbrev pub bytes_beq : Bytes → Bytes → Bool
bytes_beq [] [] = true
bytes_beq [] (b ∷ bs) = false
bytes_beq (a ∷ as') [] = false
bytes_beq (a ∷ as') (b ∷ bs) = nat_beq a b && bytes_beq as' bs

-- The loop over the chunks: the sum of their lengths, and the bytes written.
unfoldable pub write_chunks : ℕ → List Bytes → ℕ → Bytes → Result (ℕ × Bytes)
write_chunks max_bytes [] total written = ok (total, written)
write_chunks max_bytes (chunk ∷ chunks) total written =
    let next = total + length chunk in
    let rest = write_chunks max_bytes chunks next (written ++ chunk) in
    let skipped = write_chunks max_bytes chunks total written in
    if nat_beq (length chunk) 0
    then skipped
    else if ltb max_bytes next
    then err (size_limit_exceeded "streamed response exceeded max_bytes")
    else rest

-- What stands at the destination must be the same bytes; where nothing stands, they are moved there.
abbrev pub place : Store → String → ℕ → Bytes → Option Bytes → Result (Store × StoredObject)
place store sha total bytes none =
    ok ((sha, bytes) ∷ store, record { sha256 = sha; byte_size = total })
place store sha total bytes (some existing) = do
  raise_if (not (bytes_beq existing bytes)) (value_error "content-address collision")
  ok (store, record { sha256 = sha; byte_size = total })

module _ (sha256 : Bytes → String) where
  unfoldable pub put_stream : Store → List Bytes → ℕ → Result (Store × StoredObject)
  put_stream store chunks max_bytes = do
    written ← write_chunks max_bytes chunks 0 []
    sha ← path_for (sha256 written.1)
    place store sha written.0 written.1 (lookup sha store)

  unfoldable pub put_bytes : Store → Bytes → Result (Store × StoredObject)
  put_bytes store bytes = do
    sha ← path_for (sha256 bytes)
    place store sha (length bytes) bytes (lookup sha store)

  abbrev pub read : Option Bytes → Result Bytes
  read none = err (file_not_found "no such object")
  read (some bytes) = ok bytes

  -- `open_bytes`, whose `digest.lower()` is the digest, since `path_for` let it through.
  unfoldable pub open_bytes : Store → String → Result Bytes
  open_bytes store digest = do
    path ← path_for digest
    bytes ← read (lookup path store)
    raise_if (not (sha256 bytes == path)) (value_error "CAS integrity failure")
    ok bytes
