-- ===== src/Domain/Uri/DotSegments.antt =====
-- The loop of `_remove_dot_segments` in src/edgar/domain/uri.py.
pub mod Plain
use Prim.Native.Char.{code}
use edgar.Prelude.{
  ℕ, zero, suc, ◌+◌, ◌≤◌, ◌<◌, ◌≡◌, refl, inl, inr, false, List, [], ◌∷◌, Option, none, some,
  String, arith, nat_beq, Bool-cases,
}
use edgar.Prelude.Text.{is_empty, str_length}
use edgar.Domain.Uri.{
  Buffers, after_prefix, slash, dot, from_slash, pop, move_segment, leading_parent, leading_here,
  inner_here, final_here, inner_parent, final_parent, only_dot, only_dots, first_of, skipping,
  if_empty, equals, remove_step, remove_loop, path_segments,
}

abbrev size : List ℕ → ℕ
size [] = 0
size (p ∷ ps) = suc (size ps)

-- The text behind a prefix is shorter by the prefix.
abbrev Rest : ℕ → ℕ → Option String → Type 0
Rest k n none = Unit
Rest k n (some rest) = k + str_length rest ≤ n

Rest-suc : (k n : ℕ) (o : Option String) → Rest k n o → Rest (suc k) (suc n) o
Rest-suc k n none h = tt
Rest-suc k n (some rest) h = omega arith

after_prefix-Rest : (p : List ℕ) (s : String) → Rest (size p) (str_length s) (after_prefix p s)
after_prefix-Rest [] s = omega arith
after_prefix-Rest (p ∷ ps) String.[] = tt
after_prefix-Rest (p ∷ ps) (String.◌∷◌ c s) = elim (Bool-cases (nat_beq (code c) p)) [
  | inl e ↦
      let k = Rest-suc (size ps) (str_length s) (after_prefix ps s) (after_prefix-Rest ps s) in
      rw e k
  | inr e ↦ rw e tt
]

abbrev Shorter : ℕ → Option Buffers → Type 0
Shorter n none = Unit
Shorter n (some b) = str_length b.input < n

first_of-Shorter :
    (n : ℕ) (o : Option Buffers) (b : Buffers)
    → Shorter n o
    → str_length b.input < n
    → str_length (first_of o b).input < n
first_of-Shorter n none b h k = k
first_of-Shorter n (some a) b h k = h

-- A branch on a prefix makes the text shorter, if what it puts back is shorter than the prefix.
skipping-Shorter :
    (p : List ℕ) (s : String) (f : String → Buffers)
    → ((rest : String) → str_length (f rest).input < size p + str_length rest)
    → Shorter (str_length s) (skipping p s f)
skipping-Shorter p s f h =
    elim (after_prefix p s)
        as (λ o.
          Rest (size p) (str_length s) o
          → Shorter (str_length s) (elim o [ none ↦ none | some rest ↦ some (f rest) ])) [
            | none ↦ λ _. tt
            | some rest ↦ λ k. let q = h rest in omega arith
          ]
      (after_prefix-Rest p s)

if_empty-Shorter :
    (n k : ℕ) (rest : String) (b : Buffers)
    → k + str_length rest ≤ n
    → str_length b.input < k
    → Shorter n (if_empty rest b)
if_empty-Shorter n k String.[] b h e = omega arith
if_empty-Shorter n k (String.◌∷◌ c s) b h e = tt

equals-Shorter :
    (p : List ℕ) (s : String) (b : Buffers)
    → str_length b.input < size p
    → Shorter (str_length s) (equals p s b)
equals-Shorter p s b h =
    elim (after_prefix p s)
        as (λ o.
          Rest (size p) (str_length s) o
          → Shorter (str_length s) (elim o [ none ↦ none | some rest ↦ if_empty rest b ])) [
            | none ↦ λ _. tt
            | some rest ↦ λ k. if_empty-Shorter (str_length s) (size p) rest b k h
          ]
      (after_prefix-Rest p s)

length-from_slash : (s : String) → str_length (from_slash s) ≤ str_length s
length-from_slash String.[] = omega arith
length-from_slash (String.◌∷◌ c s) = ground (arith, length-from_slash s)

move_segment-Shorter :
    (s : String) (out : List String)
    → is_empty s ≡ false
    → str_length (move_segment (record { input = s; output = out })).input < str_length s
unfolding is_empty
move_segment-Shorter String.[] out h = absurd (cc h)
move_segment-Shorter (String.◌∷◌ c s) out h =
    let k = length-from_slash s in
    elim (Bool-cases (nat_beq (code c) slash)) [
      | inl e ↦ rw e (omega arith)
      | inr e ↦ rw e (omega arith)
    ]

-- Each turn of the loop makes a non-empty input shorter.
remove_step-Shorter :
    (b : Buffers) → is_empty b.input ≡ false → str_length (remove_step b).input < str_length b.input
unfolding remove_step
remove_step-Shorter b h =
    let n = str_length b.input in
    let last = move_segment-Shorter b.input b.output h in
    let w1 : Shorter n (leading_parent b) =
      skipping-Shorter (dot ∷ dot ∷ slash ∷ []) b.input (λ rest. record b { input = rest })
        (λ rest. omega arith) in
    let w2 : Shorter n (leading_here b) =
      skipping-Shorter (dot ∷ slash ∷ []) b.input (λ rest. record b { input = rest })
        (λ rest. omega arith) in
    let w3 : Shorter n (inner_here b) =
      skipping-Shorter (slash ∷ dot ∷ slash ∷ []) b.input
        (λ rest. record b { input = String.◌∷◌ "/" rest }) (λ rest. omega arith) in
    let w4 : Shorter n (final_here b) =
      equals-Shorter (slash ∷ dot ∷ []) b.input (record b { input = "/" }) (omega arith) in
    let w5 : Shorter n (inner_parent b) =
      skipping-Shorter (slash ∷ dot ∷ dot ∷ slash ∷ []) b.input
        (λ rest. record { input = String.◌∷◌ "/" rest; output = pop b.output })
        (λ rest. omega arith) in
    let w6 : Shorter n (final_parent b) =
      equals-Shorter (slash ∷ dot ∷ dot ∷ []) b.input
        (record { input = "/"; output = pop b.output }) (omega arith) in
    let w7 : Shorter n (only_dot b) =
      equals-Shorter (dot ∷ []) b.input (record b { input = "" }) (omega arith) in
    let w8 : Shorter n (only_dots b) =
      equals-Shorter (dot ∷ dot ∷ []) b.input (record b { input = "" }) (omega arith) in
    let k8 = first_of-Shorter n (only_dots b) (move_segment b) w8 last in
    let k7 = first_of-Shorter n (only_dot b) _ w7 k8 in
    let k6 = first_of-Shorter n (final_parent b) _ w6 k7 in
    let k5 = first_of-Shorter n (inner_parent b) _ w5 k6 in
    let k4 = first_of-Shorter n (final_here b) _ w4 k5 in
    let k3 = first_of-Shorter n (inner_here b) _ w3 k4 in
    let k2 = first_of-Shorter n (leading_here b) _ w2 k3 in
    first_of-Shorter n (leading_parent b) _ w1 k2

-- Fuel above the length of the input is enough.
remove_loop_total :
    (fuel : ℕ) (b : Buffers)
    → str_length b.input < fuel
    → (out : List String) × (remove_loop fuel b ≡ some out)
unfolding remove_loop
remove_loop_total zero b h = absurd (omega arith)
remove_loop_total (suc fuel) b h = elim (Bool-cases (is_empty b.input)) [
  | inl e ↦ (b.output, rw e refl)
  | inr e ↦
      let k = remove_step-Shorter b e in
      let (out, q) = remove_loop_total fuel (remove_step b) (omega arith) in (out, rw (e, q) refl)
]

-- `_remove_dot_segments` ends on each path: as many turns of its loop as the path has characters,
-- and one more, are enough.
pub path_segments_total : (path : String) → (out : List String) × (path_segments path ≡ some out)
path_segments_total path = remove_loop_total _ _ (omega arith)
