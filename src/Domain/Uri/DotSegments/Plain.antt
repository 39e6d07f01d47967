-- ===== src/Domain/Uri/DotSegments/Plain.antt =====
-- What `_remove_dot_segments` of src/edgar/domain/uri.py leaves of a path has no dot segments.
use Prim.Native.Char.{Char, code}
use edgar.Prelude.{
  ℕ, zero, suc, ◌≡◌, refl, ap, subst, inl, inr, Bool, true, false, ◌&&◌, List, [], ◌∷◌, Option,
  none, some, String, arith, nat_beq, Bool-cases, All, if◌then◌else◌,
}
use edgar.Prelude.Text.{is_empty}
use edgar.Domain.Uri.DotSegments.{path_segments_total}
use edgar.Domain.Uri.{
  Buffers, after_prefix, slash, dot, before_slash, first_segment, pop, first_of, skipping, if_empty,
  equals, remove_step, remove_loop, path_segments, leading_parent, leading_here, inner_here,
  final_here, inner_parent, final_parent, only_dot, only_dots,
}

-- A segment `.` or `..`, and then also with the slash in front.
abbrev dots : String → Bool
dots String.[] = false
dots (String.◌∷◌ c String.[]) = nat_beq (code c) dot
dots (String.◌∷◌ c (String.◌∷◌ d String.[])) = nat_beq (code c) dot && nat_beq (code d) dot
dots (String.◌∷◌ c (String.◌∷◌ d (String.◌∷◌ e s))) = false

abbrev pub is_dot_segment : String → Bool
is_dot_segment String.[] = false
is_dot_segment (String.◌∷◌ c s) = if nat_beq (code c) slash then dots s else dots (String.◌∷◌ c s)

-- Whether a text begins with a prefix, and whether it is the prefix.
abbrev begins : List ℕ → String → Bool
begins [] s = true
begins (p ∷ ps) String.[] = false
begins (p ∷ ps) (String.◌∷◌ c s) = nat_beq (code c) p && begins ps s

abbrev exactly : List ℕ → String → Bool
exactly [] String.[] = true
exactly [] (String.◌∷◌ c s) = false
exactly (p ∷ ps) String.[] = false
exactly (p ∷ ps) (String.◌∷◌ c s) = nat_beq (code c) p && exactly ps s

last_one : (a b : Bool) → a ≡ true → (a && (b && true)) ≡ false → b ≡ false
last_one a b e h = ground arith

last_two : (a b c : Bool) → a ≡ true → (a && (b && (c && true))) ≡ false → (b && c) ≡ false
last_two a b c e h = ground arith

first_of_three :
    (a b c d : Bool) → a ≡ true → c ≡ true → (a && (b && (c && d))) ≡ false → d ≡ true → b ≡ false
first_of_three a b c d e f h k = ground arith

middle_two :
    (a b c d : Bool)
    → a ≡ true
    → d ≡ true
    → (a && (b && (c && (d && true)))) ≡ false
    → (b && c) ≡ false
middle_two a b c d e f h = ground arith

only_one : (a : Bool) → (a && true) ≡ false → a ≡ false
only_one a h = ground arith

first_one : (a b : Bool) → b ≡ true → (a && (b && true)) ≡ false → a ≡ false
first_one a b e h = ground arith

both : (a b : Bool) → (a && (b && true)) ≡ false → (a && b) ≡ false
both a b h = ground arith

first_two : (a b c : Bool) → c ≡ true → (a && (b && (c && true))) ≡ false → (a && b) ≡ false
first_two a b c e h = ground arith

slash_then :
    (c : Char) (s : String)
    → nat_beq (code c) slash ≡ true
    → begins (slash ∷ dot ∷ slash ∷ []) (String.◌∷◌ c s) ≡ false
    → exactly (slash ∷ dot ∷ []) (String.◌∷◌ c s) ≡ false
    → begins (slash ∷ dot ∷ dot ∷ slash ∷ []) (String.◌∷◌ c s) ≡ false
    → exactly (slash ∷ dot ∷ dot ∷ []) (String.◌∷◌ c s) ≡ false
    → dots (before_slash s) ≡ false
slash_then c String.[] e h1 h2 h3 h4 = refl
slash_then c (String.◌∷◌ d String.[]) e h1 h2 h3 h4 = elim (Bool-cases (nat_beq (code d) slash)) [
  | inl q ↦ rw q refl
  | inr q ↦ rw q (last_one _ _ e h2)
]
slash_then c (String.◌∷◌ d (String.◌∷◌ f String.[])) e h1 h2 h3 h4 =
    elim (Bool-cases (nat_beq (code d) slash)) [
      | inl q ↦ rw q refl
      | inr q ↦ elim (Bool-cases (nat_beq (code f) slash)) [
        | inl r ↦ rw (q, r) (first_of_three _ _ _ true e r h1 refl)
        | inr r ↦ rw (q, r) (last_two _ _ _ e h4)
      ]
    ]
slash_then c (String.◌∷◌ d (String.◌∷◌ f (String.◌∷◌ g s))) e h1 h2 h3 h4 =
    elim (Bool-cases (nat_beq (code d) slash)) [
      | inl q ↦ rw q refl
      | inr q ↦ elim (Bool-cases (nat_beq (code f) slash)) [
        | inl r ↦ rw (q, r) (first_of_three _ _ _ true e r h1 refl)
        | inr r ↦ elim (Bool-cases (nat_beq (code g) slash)) [
          | inl t ↦ rw (q, r, t) (middle_two _ _ _ _ e t h3)
          | inr t ↦ rw (q, r, t) refl
        ]
      ]
    ]

no_slash :
    (c : Char) (s : String)
    → nat_beq (code c) slash ≡ false
    → begins (dot ∷ dot ∷ slash ∷ []) (String.◌∷◌ c s) ≡ false
    → begins (dot ∷ slash ∷ []) (String.◌∷◌ c s) ≡ false
    → exactly (dot ∷ []) (String.◌∷◌ c s) ≡ false
    → exactly (dot ∷ dot ∷ []) (String.◌∷◌ c s) ≡ false
    → dots (String.◌∷◌ c (before_slash s)) ≡ false
no_slash c String.[] e h1 h2 h3 h4 = only_one _ h3
no_slash c (String.◌∷◌ d String.[]) e h1 h2 h3 h4 = elim (Bool-cases (nat_beq (code d) slash)) [
  | inl q ↦ rw q (first_one _ _ q h2)
  | inr q ↦ rw q (both _ _ h4)
]
no_slash c (String.◌∷◌ d (String.◌∷◌ f s)) e h1 h2 h3 h4 =
    elim (Bool-cases (nat_beq (code d) slash)) [
      | inl q ↦ rw q (first_one _ _ q h2)
      | inr q ↦ elim (Bool-cases (nat_beq (code f) slash)) [
        | inl r ↦ rw (q, r) (first_two _ _ _ r h1)
        | inr r ↦ rw (q, r) refl
      ]
    ]

-- A branch that is not taken has failed its test.
after_prefix-begins : (p : List ℕ) (s : String) → after_prefix p s ≡ none → begins p s ≡ false
after_prefix-begins [] s h = absurd (cc h)
after_prefix-begins (p ∷ ps) String.[] h = refl
after_prefix-begins (p ∷ ps) (String.◌∷◌ c s) h = elim (Bool-cases (nat_beq (code c) p)) [
  | inl e ↦ rw e (after_prefix-begins ps s (rw e at h))
  | inr e ↦ rw e refl
]

skipping-begins :
    (p : List ℕ) (s : String) (f : String → Buffers) → skipping p s f ≡ none → begins p s ≡ false
skipping-begins p s f h = after_prefix-begins p s (unmapped (after_prefix p s) f h)
  where
    unmapped :
        (o : Option String) (f : String → Buffers)
        → elim o as (λ _. Option Buffers) [ none ↦ none | some rest ↦ some (f rest) ] ≡ none
        → o ≡ none
    unmapped none f h = refl
    unmapped (some x) f h = absurd (cc h)

equals-exactly : (p : List ℕ) (s : String) (b : Buffers) → equals p s b ≡ none → exactly p s ≡ false
equals-exactly [] String.[] b h = absurd (cc h)
equals-exactly [] (String.◌∷◌ c s) b h = refl
equals-exactly (p ∷ ps) String.[] b h = refl
equals-exactly (p ∷ ps) (String.◌∷◌ c s) b h = elim (Bool-cases (nat_beq (code c) p)) [
  | inl e ↦ rw e (equals-exactly ps s b (rw (e, equals) at h))
  | inr e ↦ rw e refl
]

abbrev pub IsPlain : String → Type 0
IsPlain s = is_dot_segment s ≡ false

abbrev PlainOutput : Option Buffers → Type 0
PlainOutput none = Unit
PlainOutput (some b) = All IsPlain b.output

first_of-PlainOutput :
    (o : Option Buffers) (b : Buffers)
    → PlainOutput o
    → (o ≡ none → All IsPlain b.output)
    → All IsPlain (first_of o b).output
first_of-PlainOutput none b h k = k refl
first_of-PlainOutput (some a) b h k = h

skipping-PlainOutput :
    (p : List ℕ) (s : String) (f : String → Buffers)
    → ((rest : String) → All IsPlain (f rest).output)
    → PlainOutput (skipping p s f)
skipping-PlainOutput p s f h =
    elim (after_prefix p s)
      as (λ o.
        PlainOutput (elim o as (λ _. Option Buffers) [ none ↦ none | some rest ↦ some (f rest) ])) [
          | none ↦ tt
          | some rest ↦ h rest
        ]

if_empty-PlainOutput :
    (s : String) (b : Buffers) → All IsPlain b.output → PlainOutput (if_empty s b)
if_empty-PlainOutput String.[] b h = h
if_empty-PlainOutput (String.◌∷◌ c s) b h = tt

equals-PlainOutput :
    (p : List ℕ) (s : String) (b : Buffers) → All IsPlain b.output → PlainOutput (equals p s b)
equals-PlainOutput p s b h =
    elim (after_prefix p s)
      as (λ o.
        PlainOutput
          (elim o as (λ _. Option Buffers) [ none ↦ none | some rest ↦ if_empty rest b ])) [
            | none ↦ tt
            | some rest ↦ if_empty-PlainOutput rest b h
          ]

pop-All : (l : List String) → All IsPlain l → All IsPlain (pop l)
pop-All [] h = h
pop-All (x ∷ xs) h = h.1

-- The segment that the last branch moves, where no test before it has held.
moved-IsPlain :
    (s : String)
    → begins (dot ∷ dot ∷ slash ∷ []) s ≡ false
    → begins (dot ∷ slash ∷ []) s ≡ false
    → begins (slash ∷ dot ∷ slash ∷ []) s ≡ false
    → exactly (slash ∷ dot ∷ []) s ≡ false
    → begins (slash ∷ dot ∷ dot ∷ slash ∷ []) s ≡ false
    → exactly (slash ∷ dot ∷ dot ∷ []) s ≡ false
    → exactly (dot ∷ []) s ≡ false
    → exactly (dot ∷ dot ∷ []) s ≡ false
    → IsPlain (first_segment s).0
moved-IsPlain String.[] h1 h2 h3 h4 h5 h6 h7 h8 = refl
moved-IsPlain (String.◌∷◌ c s) h1 h2 h3 h4 h5 h6 h7 h8 =
    elim (Bool-cases (nat_beq (code c) slash)) [
      | inl e ↦ let k = slash_then c s e h3 h4 h5 h6 in rw (e, e) k
      | inr e ↦ let k = no_slash c s e h1 h2 h7 h8 in rw (e, e) k
    ]

remove_step-All : (b : Buffers) → All IsPlain b.output → All IsPlain (remove_step b).output
unfolding remove_step
remove_step-All b h =
    let s = b.input in
    first_of-PlainOutput (leading_parent b) _
      (skipping-PlainOutput (dot ∷ dot ∷ slash ∷ []) s (λ rest. record b { input = rest }) (λ _. h))
      λ n1.
        first_of-PlainOutput (leading_here b) _
          (skipping-PlainOutput (dot ∷ slash ∷ []) s (λ rest. record b { input = rest }) (λ _. h))
          λ n2.
            first_of-PlainOutput (inner_here b) _
              (skipping-PlainOutput (slash ∷ dot ∷ slash ∷ []) s
                (λ rest. record b { input = String.◌∷◌ "/" rest }) (λ _. h))
              λ n3.
                first_of-PlainOutput (final_here b) _
                  (equals-PlainOutput (slash ∷ dot ∷ []) s (record b { input = "/" }) h)
                  λ n4.
                    first_of-PlainOutput (inner_parent b) _
                      (skipping-PlainOutput (slash ∷ dot ∷ dot ∷ slash ∷ []) s
                        (λ rest. record { input = String.◌∷◌ "/" rest; output = pop b.output })
                        (λ _. pop-All b.output h))
                      λ n5.
                        first_of-PlainOutput (final_parent b) _
                          (equals-PlainOutput (slash ∷ dot ∷ dot ∷ []) s
                            (record { input = "/"; output = pop b.output }) (pop-All b.output h))
                          λ n6.
                            first_of-PlainOutput (only_dot b) _
                              (equals-PlainOutput (dot ∷ []) s (record b { input = "" }) h)
                              λ n7.
                                first_of-PlainOutput (only_dots b) _
                                  (equals-PlainOutput (dot ∷ dot ∷ []) s (record b { input = "" })
                                    h)
                                  λ n8. (
                                    moved-IsPlain s
                                        (skipping-begins (dot ∷ dot ∷ slash ∷ []) s
                                          (λ rest. record b { input = rest }) n1)
                                        (skipping-begins (dot ∷ slash ∷ []) s
                                          (λ rest. record b { input = rest }) n2)
                                        (skipping-begins (slash ∷ dot ∷ slash ∷ []) s
                                          (λ rest. record b { input = String.◌∷◌ "/" rest }) n3)
                                        (equals-exactly (slash ∷ dot ∷ []) s
                                          (record b { input = "/" }) n4)
                                        (skipping-begins (slash ∷ dot ∷ dot ∷ slash ∷ []) s
                                          (λ rest. record {
                                            input = String.◌∷◌ "/" rest;
                                            output = pop b.output;
                                          })
                                          n5)
                                        (equals-exactly (slash ∷ dot ∷ dot ∷ []) s
                                          (record { input = "/"; output = pop b.output }) n6)
                                        (equals-exactly (dot ∷ []) s (record b { input = "" }) n7)
                                        (equals-exactly (dot ∷ dot ∷ []) s (record b { input = "" })
                                          n8),
                                    h,
                                  )

remove_loop-All :
    (fuel : ℕ) (b : Buffers) (out : List String)
    → All IsPlain b.output
    → remove_loop fuel b ≡ some out
    → All IsPlain out
unfolding remove_loop
remove_loop-All zero b out h e = absurd (cc e)
remove_loop-All (suc fuel) b out h e = elim (Bool-cases (is_empty b.input)) [
  | inl q ↦ subst (All IsPlain) (some_injective (rw q at e)) h
  | inr q ↦ remove_loop-All fuel (remove_step b) out (remove_step-All b h) (rw q at e)
]
  where
    some_injective : {x y : List String} → some x ≡ some y → x ≡ y
    some_injective {x = x} k = ap (λ o. elim o as (λ _. List String) [ none ↦ x | some z ↦ z ]) k

-- `_remove_dot_segments` ends on each path, and then no segment of what it has put out is `.` or
-- `..`, with or without a slash in front.
pub path_segments-IsPlain :
    (path : String) → (out : List String) × (path_segments path ≡ some out) × All IsPlain out
path_segments-IsPlain path =
    let (out, e) = path_segments_total path in (out, e, remove_loop-All _ _ out tt e)
