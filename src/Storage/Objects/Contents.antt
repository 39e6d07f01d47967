-- ===== src/Storage/Objects/Contents.antt =====
-- src/edgar/storage/objects.py: what the store returns is what was put there.
use edgar.Prelude.{
  subst, ℕ, ◌+◌, ◌≤◌, ◌≡◌, refl, sym, ap, ◌∙◌, arith, true, not, List, [], ◌∷◌, Option, none, some,
  String, ok, raise_if, raise_if-eq-ok, >>=-eq-ok, value_error, size_limit_exceeded, err, leb, ◌==◌,
  string_eq, nat_beq, nat_beq_iff, length, beq_refl, inl, inr, ok_injective, Bool-cases, and_true,
  if◌then◌else◌,
}
use edgar.Storage.Objects.{
  Bytes, StoredObject, Store, lookup, path_for, is_digest, bytes_beq, write_chunks, place,
  put_stream, put_bytes, open_bytes,
}
use edgar.Storage.Objects.Chunks.{joined, write_chunks_sound, write_chunks_lem}

bytes_beq_sound : (a b : Bytes) → bytes_beq a b ≡ true → a ≡ b
bytes_beq_sound [] [] h = refl
bytes_beq_sound [] (b ∷ bs) h = absurd (cc h)
bytes_beq_sound (a ∷ as') [] h = absurd (cc h)
bytes_beq_sound (a ∷ as') (b ∷ bs) h =
    let (e, t) = and_true (nat_beq a b) (bytes_beq as' bs) h in
    rw ((nat_beq_iff a b).0 e, bytes_beq_sound as' bs t) refl

place_sound :
    (store : Store) (sha : String) (total : ℕ) (bytes : Bytes) (found : Option Bytes)
    (end : Store × StoredObject)
    → lookup sha store ≡ found
    → place store sha total bytes found ≡ ok end
    → (lookup sha end.0 ≡ some bytes) × (end.1.sha256 ≡ sha) × (end.1.byte_size ≡ total)
place_sound store sha total bytes none end l h =
    let e = ok_injective h in
    (rw (sym e, beq_refl sha) refl, ap (λ p. p.1.sha256) (sym e), ap (λ p. p.1.byte_size) (sym e))
place_sound store sha total bytes (some b) end l h =
    let (u, k, h') =
      >>=-eq-ok (raise_if (not (bytes_beq b bytes)) (value_error "content-address collision")) _
        h in
    let e = ok_injective h' in
    let different =
      raise_if-eq-ok (not (bytes_beq b bytes)) (value_error "content-address collision") k in
    let same = bytes_beq_sound b bytes (ground arith) in
    (rw (sym e, sym same) l, ap (λ p. p.1.sha256) (sym e), ap (λ p. p.1.byte_size) (sym e))

-- What a map from digests to bytes becomes when an object is put into it.
abbrev pub put : (String → Option Bytes) → String → Bytes → String → Option Bytes
put objects sha bytes digest = if sha == digest then some bytes else objects digest

lookup-place :
    (store : Store) (sha : String) (total : ℕ) (new : Bytes) (found : Option Bytes)
    (end : Store × StoredObject) (digest : String)
    → lookup sha store ≡ found
    → place store sha total new found ≡ ok end
    → lookup digest end.0 ≡ put (λ k. lookup k store) sha new digest
lookup-place store sha total new none end digest n h =
    let e = ok_injective h in ap (λ (p : Store × StoredObject). lookup digest p.0) (sym e)
lookup-place store sha total new (some b) end digest n h =
    let w = place_sound store sha total new (some b) end n h in
    let (u, k, h') =
      >>=-eq-ok (raise_if (not (bytes_beq b new)) (value_error "content-address collision")) _ h in
    let e : store ≡ end.0 = ap (λ p. p.0) (ok_injective h') in
    elim (Bool-cases (sha == digest)) [
      | inl f ↦
          let d = (string_eq.equal_iff sha digest).0 f in
          rw f (ap (λ k. lookup k end.0) (sym d) ∙ w.0)
      | inr f ↦ rw f (ap (lookup digest) (sym e))
    ]

path_for_sound : (digest path : String) → path_for digest ≡ ok path → digest ≡ path
unfolding path_for
path_for_sound digest path h =
    let (u, k, h') =
      >>=-eq-ok
        (raise_if (not (is_digest digest)) (value_error "digest must be 64 lowercase hex chars")) _
        h in
    ok_injective h'

module _ (sha256 : Bytes → String) where
  opened :
      (store : Store) (bytes : Bytes)
      → path_for (sha256 bytes) ≡ ok (sha256 bytes)
      → lookup (sha256 bytes) store ≡ some bytes
      → open_bytes sha256 store (sha256 bytes) ≡ ok bytes
  unfolding open_bytes
  opened store bytes p l = rw (p, l, beq_refl (sha256 bytes)) refl

  -- What is placed under its digest is read there.
  placed_sound :
      (store : Store) (n : ℕ) (out : Bytes) (sha : String) (chunks : List Bytes) (max_bytes : ℕ)
      (end : Store × StoredObject)
      → (out ≡ joined chunks) × (length out ≡ n) × (n ≤ max_bytes)
      → path_for (sha256 out) ≡ ok sha
      → place store sha n out (lookup sha store) ≡ ok end
      → (open_bytes sha256 end.0 end.1.sha256 ≡ ok (joined chunks))
        × (end.1.byte_size ≡ length (joined chunks))
        × (end.1.byte_size ≤ max_bytes)
  placed_sound store n out sha chunks max_bytes end w p h =
      let (a, l, b) = w in
      let (found, d, size) = place_sound store sha n out (lookup sha store) end refl h in
      let e = path_for_sound (sha256 out) sha p in
      let p' : path_for (sha256 out) ≡ ok (sha256 out) = p ∙ ap ok (sym e) in
      let f' : lookup (sha256 out) end.0 ≡ some out = ap (λ k. lookup k end.0) e ∙ found in
      let q : end.1.sha256 ≡ sha256 out = d ∙ sym e in
      let same : end.1.byte_size ≡ length (joined chunks) = size ∙ (sym l ∙ ap length a) in
      (
        ap (open_bytes sha256 end.0) q ∙ (opened end.0 out p' f' ∙ ap ok a),
        same,
        subst (λ k. k ≤ max_bytes) (sym size) b,
      )

  -- A stream that `put_stream` accepts is within the limit, and under the digest that it returns
  -- `open_bytes` reads the chunks of the stream, joined.
  pub open_bytes-put_stream :
      (store : Store) (chunks : List Bytes) (max_bytes : ℕ) (end : Store × StoredObject)
      → put_stream sha256 store chunks max_bytes ≡ ok end
      → (open_bytes sha256 end.0 end.1.sha256 ≡ ok (joined chunks))
        × (end.1.byte_size ≡ length (joined chunks))
        × (end.1.byte_size ≤ max_bytes)
  unfolding put_stream
  open_bytes-put_stream store chunks max_bytes end h =
      let (written, w, h1) = >>=-eq-ok (write_chunks max_bytes chunks 0 []) _ h in
      let (sha, p, h2) = >>=-eq-ok (path_for (sha256 written.1)) _ h1 in
      let w' = write_chunks_sound max_bytes chunks 0 [] written.0 written.1 refl (omega arith) w in
      placed_sound store written.0 written.1 sha chunks max_bytes end w' p h2

  -- put_stream puts the chunks, joined, as put_bytes does, unless they are longer than the limit: then
  -- it raises SizeLimitExceeded.
  pub put_stream-put_bytes :
      (store : Store) (chunks : List Bytes) (max_bytes : ℕ)
      → put_stream sha256 store chunks max_bytes ≡ (
          if leb (length (joined chunks)) max_bytes
          then put_bytes sha256 store (joined chunks)
          else err (size_limit_exceeded "streamed response exceeded max_bytes"))
  unfolding put_stream put_bytes
  put_stream-put_bytes store chunks max_bytes =
      let sum : 0 + length (joined chunks) ≡ length (joined chunks) = omega arith in
      let stream = write_chunks_lem max_bytes chunks 0 [] (omega arith) in
      let written = rw sum at stream in
      elim (Bool-cases (leb (length (joined chunks)) max_bytes)) [
        | inl e ↦ rw (written, e) refl
        | inr e ↦ rw (written, e) refl
      ]

  -- Read as a map from digests to bytes, the store that an accepted `put_stream` leaves is the one
  -- before with the chunks of the stream, joined, put under their digest, which is the one returned.
  pub lookup-put_stream :
      (store : Store) (chunks : List Bytes) (max_bytes : ℕ) (end : Store × StoredObject)
      (digest : String)
      → put_stream sha256 store chunks max_bytes ≡ ok end
      → (lookup digest end.0
          ≡ put (λ k. lookup k store) (sha256 (joined chunks)) (joined chunks) digest)
        × (end.1.sha256 ≡ sha256 (joined chunks))
  unfolding put_stream
  lookup-put_stream store chunks max_bytes end digest h =
      let (written, w, h1) = >>=-eq-ok (write_chunks max_bytes chunks 0 []) _ h in
      let (sha, p, h2) = >>=-eq-ok (path_for (sha256 written.1)) _ h1 in
      let w' = write_chunks_sound max_bytes chunks 0 [] written.0 written.1 refl (omega arith) w in
      let out : written.1 ≡ joined chunks = w'.0 in
      let e : sha ≡ sha256 (joined chunks) =
        sym (path_for_sound (sha256 written.1) sha p) ∙ ap sha256 out in
      let q = place_sound store sha written.0 written.1 (lookup sha store) end refl h2 in
      (
        lookup-place store sha written.0 written.1 (lookup sha store) end digest refl h2
            ∙ (ap (λ k. put (λ j. lookup j store) k written.1 digest) e
                ∙ ap (λ b. put (λ j. lookup j store) (sha256 (joined chunks)) b digest) out),
        q.1 ∙ e,
      )
