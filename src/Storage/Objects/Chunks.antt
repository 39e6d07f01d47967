-- ===== src/Storage/Objects/Chunks.antt =====
-- src/edgar/storage/objects.py: the loop of put_stream over the chunks of a stream.
use edgar.Prelude.{
  false, ℕ, ◌+◌, ◌≤◌, ◌≡◌, refl, sym, ap, ◌∙◌, arith, true, List, [], ◌∷◌, ◌++◌, ok,
  size_limit_exceeded, err, leb, le→leb, string_eq, ltb, nat_beq, length, inl, inr, ok_injective,
  Bool-cases, if◌then◌else◌,
}
use edgar.Storage.Objects.{Bytes, write_chunks}

-- The chunks, joined.
abbrev pub joined : List Bytes → Bytes
joined [] = []
joined (c ∷ cs) = c ++ joined cs

append_nil : (l : Bytes) → (l ++ []) ≡ l
append_nil [] = refl
append_nil (x ∷ xs) = ap (λ t. x ∷ t) (append_nil xs)

append_assoc : (a b c : Bytes) → ((a ++ b) ++ c) ≡ (a ++ (b ++ c))
append_assoc [] b c = refl
append_assoc (x ∷ xs) b c = ap (λ t. x ∷ t) (append_assoc xs b c)

length_append : (a b : Bytes) → length (a ++ b) ≡ length a + length b
length_append [] b = omega arith
length_append (x ∷ xs) b = let k = length_append xs b in omega arith

no_bytes : (l : Bytes) → nat_beq (length l) 0 ≡ true → l ≡ []
no_bytes [] h = refl
no_bytes (x ∷ xs) h = ground arith

-- What the loop has written when it ends, within the limit.
pub write_chunks_sound :
    (max_bytes : ℕ) (chunks : List Bytes) (total : ℕ) (written : Bytes) (n : ℕ) (out : Bytes)
    → length written ≡ total
    → total ≤ max_bytes
    → write_chunks max_bytes chunks total written ≡ ok (n, out)
    → (out ≡ (written ++ joined chunks)) × (length out ≡ n) × (n ≤ max_bytes)
unfolding write_chunks
write_chunks_sound max_bytes [] total written n out l b h =
    let e = ok_injective h in
    let e0 : total ≡ n = ap (λ p. p.0) e in
    let e1 : written ≡ out = ap (λ p. p.1) e in
    (rw (sym e1) (sym (append_nil written)), rw (sym e1, sym e0) l, rw (sym e0) b)
write_chunks_sound max_bytes (c ∷ cs) total written n out l b h =
    elim (Bool-cases (nat_beq (length c) 0)) [
      | inl e ↦
          let w = write_chunks_sound max_bytes cs total written n out l b (rw e at h) in
          rw (no_bytes c e) w
      | inr e ↦ elim (Bool-cases (ltb max_bytes (total + length c))) [
        | inl f ↦ absurd (cc (rw (e, f) at h))
        | inr f ↦
            let w =
              write_chunks_sound max_bytes cs (total + length c) (written ++ c) n out
                (length_append written c ∙ ap (λ t. t + length c) l) (ground arith)
                (rw (e, f) at h) in
            (w.0 ∙ append_assoc written c (joined cs), w.1, w.2)
      ]
    ]

-- The loop, in one step: it writes the chunks, joined, or stops at the limit.
pub write_chunks_lem :
    (max_bytes : ℕ) (chunks : List Bytes) (total : ℕ) (written : Bytes)
    → total ≤ max_bytes
    → write_chunks max_bytes chunks total written ≡ (
        if leb (total + length (joined chunks)) max_bytes
        then ok (total + length (joined chunks), written ++ joined chunks)
        else err (size_limit_exceeded "streamed response exceeded max_bytes"))
unfolding write_chunks
write_chunks_lem max_bytes [] total written b =
    let within = le→leb (total + 0) max_bytes (omega (arith, b)) in
    let same : total ≡ total + 0 = omega arith in
    rw within
      (ap (λ n. ok (n, written)) same ∙ ap (λ w. ok (total + 0, w)) (sym (append_nil written)))
write_chunks_lem max_bytes (c ∷ cs) total written b =
    let joined_length = length_append c (joined cs) in
    elim (Bool-cases (nat_beq (length c) 0)) [
      | inl e ↦
          let none_written = no_bytes c e in
          rw (e, none_written) (write_chunks_lem max_bytes cs total written b)
      | inr e ↦ elim (Bool-cases (ltb max_bytes (total + length c))) [
        | inl f ↦
            let over : leb (total + length (c ++ joined cs)) max_bytes ≡ false = ground arith in
            rw (e, f, over) refl
        | inr f ↦
            let rest =
              write_chunks_lem max_bytes cs (total + length c) (written ++ c) (ground arith) in
            let sum : total + length c + length (joined cs) ≡ total + length (c ++ joined cs) =
              omega (arith, joined_length) in
            let bytes = append_assoc written c (joined cs) in rw (e, f, rest, sum, bytes) refl
      ]
    ]
