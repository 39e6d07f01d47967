-- ===== src/Xbrl/Locators/Readback.antt =====
-- src/edgar/xbrl/locators.py: what format_expanded_path writes, parse_expanded_path reads back.
use Prim.Native.Char.{Char, code}
use edgar.Prelude.{
  ℕ, zero, suc, ◌+◌, ◌≤◌, ◌≡◌, refl, sym, ap, ◌∙◌, arith, Bool, true, false, ◌||◌, List, [], ◌∷◌,
  Option, none, some, String, ok, raise_if-then, >>=-eq-ok, ok_injective, value_error, Bool-cases,
  inl, inr, nat_beq, if◌then◌else◌,
}
use edgar.Prelude.Int.{ℤ, pos, negsuc, ltb_ℤ}
use edgar.Prelude.Text.{is_empty, any_char, any_char-excluded, is_ascii_digit, str_length}
use edgar.Xbrl.Locators.{
  Segment, append, partition, through, is_breaker, is_brace, check_local, split_closed, split_clark,
  decimal_text, part_text, is_none, format_parts, format_expanded_path, namespace_part,
  parse_segment, parse_segments, parse_expanded_path, starts_with_slash, behind,
}
use edgar.Xbrl.Locators.Scan.{
  through-append, partition-stop, decimal_text-ascii, int_of-decimal_text,
}

no_breaker :
    (k : ℕ)
    → is_breaker k ≡ true
    → (s : String) → any_char is_breaker s ≡ false
    → any_char (λ x. nat_beq x k) s ≡ false
no_breaker k b String.[] h = refl
no_breaker k b (String.◌∷◌ c s) h = elim (Bool-cases (nat_beq (code c) k)) [
  | inl e ↦ absurd (ground arith)
  | inr e ↦ let r = no_breaker k b s (ground arith) in rw (e, r) refl
]

local_sound :
    (local : String) {u : Unit {0}}
    → check_local local ≡ ok u
    → (is_empty local ≡ false) × (any_char is_breaker local ≡ false)
local_sound local {u} h = ground arith

-- A name that is written, with any text behind it: its namespace and its local name are found.
abbrev Split : String → String → Type 0
Split name t =
    (namespace : String) × (local : String) × (namespace_part (append name t)
      ≡ ok (namespace, append local t))
    × (append namespace local ≡ name)
    × (any_char is_breaker local ≡ false)

through_next :
    (c : Char) (s : String)
    → nat_beq (code c) 125 ≡ false
    → through 125 (String.◌∷◌ c s) ≡ behind c (through 125 s)
unfolding through
through_next c s h = rw h refl

brace :
    (c : Char) (s t prefix local : String)
    → nat_beq (code c) 123 ≡ true
    → nat_beq (code c) 125 ≡ false
    → through 125 (append s t) ≡ some (prefix, append local t)
    → namespace_part (append (String.◌∷◌ c s) t) ≡ ok (String.◌∷◌ c prefix, append local t)
brace c s t prefix local e other found = rw (e, through_next c (append s t) other, found) refl

split_closed-Split :
    (c : Char) (s t : String) (found : Option (String × String)) {r : Option String × String}
    → nat_beq (code c) 123 ≡ true
    → partition 125 s ≡ found
    → split_closed found ≡ ok r
    → Split (String.◌∷◌ c s) t
split_closed-Split c s t none e p h = absurd (cc h)
split_closed-Split c s t (some (namespace, local)) e p h =
    let (_, h1) =
      raise_if-then (is_empty namespace || any_char is_brace namespace)
        (value_error "malformed Clark element name") _ h in
    let (u, h2, _) = >>=-eq-ok (check_local local) _ h1 in
    let (prefix, found, joined) = through-append 125 s t namespace local p in
    let other : nat_beq (code c) 125 ≡ false = ground arith in
    (
      String.◌∷◌ c prefix,
      local,
      brace c s t prefix local e other found,
      ap (String.◌∷◌ c) joined,
      (local_sound local h2).1,
    )

otherwise : {A : Type 0} (b : Bool) (x y : A) {z : A} → b ≡ false → (if b then x else y) ≡ z → y ≡ z
otherwise true x y e h = absurd (cc e)
otherwise false x y e h = h

no_empty : is_empty "" ≡ false → ⊥
unfolding is_empty
no_empty h = absurd (cc h)

split_clark-Split :
    (name t : String) (r : Option String × String) → split_clark name ≡ ok r → Split name t
unfolding split_clark
split_clark-Split String.[] t r h =
    let (u, k, _) = >>=-eq-ok (check_local "") _ h in absurd (no_empty ((local_sound "" k).0))
split_clark-Split (String.◌∷◌ c s) t r h = elim (Bool-cases (nat_beq (code c) 123)) [
  | inl e ↦ split_closed-Split c s t (partition 125 s) e refl (rw e at h)
  | inr e ↦
      let opened = otherwise (nat_beq (code c) 123) _ _ e h in
      let (u, k, _) = >>=-eq-ok (check_local (String.◌∷◌ c s)) _ opened in
      ("", String.◌∷◌ c s, rw e refl, refl, (local_sound (String.◌∷◌ c s) k).1)
]

-- The ordinal of a segment that is written.
positive_ordinal : (ordinal : ℤ) → ltb_ℤ ordinal (pos 1) ≡ false → (n : ℕ) × (ordinal ≡ pos n)
positive_ordinal (pos n) h = (n, refl)
positive_ordinal (negsuc n) h = absurd (ground arith)

no_bracket : (n : ℕ) → any_char (λ x. nat_beq x 93) (decimal_text n) ≡ false
no_bracket n =
    any_char-excluded is_ascii_digit (λ x. nat_beq x 93) (λ c h. ground arith) (decimal_text n)
      (decimal_text-ascii n)

-- A segment that is written is parsed, and what follows it is left.
parse_segment-part :
    (name rest : String) (n : ℕ) (r : Option String × String)
    → ltb_ℤ (pos n) (pos 1) ≡ false
    → split_clark name ≡ ok r
    → parse_segment (append name (String.◌∷◌ "[" (append (decimal_text n) (String.◌∷◌ "]" rest))))
      ≡ ok ((name, pos n), rest)
unfolding parse_segment
parse_segment-part name rest n r h s =
    let digits = append (decimal_text n) (String.◌∷◌ "]" rest) in
    let (namespace, local, part, joined, free) =
      split_clark-Split name (String.◌∷◌ "[" digits) r s in
    let local_found = partition-stop 91 "[" local digits refl (no_breaker 91 refl local free) in
    let digits_found = partition-stop 93 "]" (decimal_text n) rest refl (no_bracket n) in
    rw (part, local_found, digits_found, joined, s, int_of-decimal_text n, h) refl

str_length-append : (s t : String) → str_length (append s t) ≡ str_length s + str_length t
str_length-append String.[] t = omega arith
str_length-append (String.◌∷◌ c s) t = let k = str_length-append s t in omega arith

-- The text of a part is longer than what follows it.
part_length :
    (name digits rest : String)
    → str_length rest
      ≤ str_length (append name (String.◌∷◌ "[" (append digits (String.◌∷◌ "]" rest))))
part_length name digits rest = omega (
  arith,
  str_length-append name (String.◌∷◌ "[" (append digits (String.◌∷◌ "]" rest))),
  str_length-append digits (String.◌∷◌ "]" rest),
)

-- One turn of the loop, on a part that is written.
turn :
    (name rest : String) (n : ℕ) (segments : List Segment) (r : Option String × String) (fuel : ℕ)
    → ltb_ℤ (pos n) (pos 1) ≡ false
    → split_clark name ≡ ok r
    → str_length (part_text (name, pos n) rest) ≤ fuel
    → ((f : ℕ) → str_length rest ≤ f → parse_segments f rest ≡ ok segments)
    → parse_segments fuel (part_text (name, pos n) rest) ≡ ok ((name, pos n) ∷ segments)
unfolding parse_segments
turn name rest n segments r zero p s l ih = absurd (omega arith)
turn name rest n segments r (suc fuel) p s l ih =
    let shorter = part_length name (decimal_text n) rest in
    rw (parse_segment-part name rest n r p s, ih fuel (omega (arith, shorter, l))) refl

parse_segments-format_parts :
    (segments : List Segment) (text : String) (fuel : ℕ)
    → format_parts segments ≡ ok text
    → str_length text ≤ fuel
    → parse_segments fuel text ≡ ok segments
unfolding format_parts parse_segments
parse_segments-format_parts [] text fuel h l = rw (sym (ok_injective h)) refl
parse_segments-format_parts ((name, ordinal) ∷ segments) text fuel h l =
    let (p, h1) = raise_if-then (ltb_ℤ ordinal (pos 1)) (value_error "invalid path segment") _ h in
    let (r, s, h2) = >>=-eq-ok (split_clark name) _ h1 in
    let (rest, more, h3) = >>=-eq-ok (format_parts segments) _ h2 in
    let (n, o) = positive_ordinal ordinal p in
    let written : text ≡ part_text (name, pos n) rest =
      sym (ok_injective h3) ∙ ap (λ k. part_text (name, k) rest) o in
    rw (written, o)
      (turn name rest n segments r fuel (rw o at p) s (rw written at l)
        (λ f b. parse_segments-format_parts segments rest f more b))

starts :
    (segments : List Segment) (text : String)
    → is_none segments ≡ false
    → format_parts segments ≡ ok text
    → starts_with_slash text ≡ true
unfolding format_parts
starts [] text n h = absurd (cc n)
starts ((name, ordinal) ∷ segments) text n h =
    let (_, h1) = raise_if-then (ltb_ℤ ordinal (pos 1)) (value_error "invalid path segment") _ h in
    let (_, _, h2) = >>=-eq-ok (split_clark name) _ h1 in
    let (_, _, h3) = >>=-eq-ok (format_parts segments) _ h2 in rw (sym (ok_injective h3)) refl

-- A path that format_expanded_path writes, parse_expanded_path reads as that path.
pub parse_expanded_path-format_expanded_path :
    (segments : List Segment) (text : String)
    → format_expanded_path segments ≡ ok text
    → parse_expanded_path text ≡ ok segments
unfolding format_expanded_path parse_expanded_path
parse_expanded_path-format_expanded_path segments text h =
    let (some_, h1) =
      raise_if-then (is_none segments) (value_error "expanded path must have at least one segment")
        _ h in
    let slash = starts segments text some_ h1 in
    let parsed = parse_segments-format_parts segments text (str_length text) h1 (omega arith) in
    rw (slash, parsed, some_) refl
