-- ===== src/Domain/Identifiers/Paths.antt =====
-- Logical paths of src/edgar/domain/identifiers.py, walked from their root.
use Prim.Native.Char.{Char}
use edgar.Prelude.{
  ◌+◌, ◌<◌, String, ◌≡◌, refl, false, ◌||◌, List, [], ◌∷◌, Option, none, some, ok, any, length,
  arith, ◌==◌, string_eq, if◌then◌else◌,
}
use edgar.Domain.Identifiers.{validate_logical_path, split_slash, unsafe_part, cons_first}

-- How a file system follows the parts of a relative path: the directories entered so far, the
-- innermost first. `none` is a step out of the root.
pub walk : List String → List String → Option (List String)
walk dirs [] = some dirs
walk dirs (p ∷ ps) =
    let stay = walk dirs ps in
    let enter = walk (p ∷ dirs) ps in
    let up = elim dirs as (λ _. Option (List String)) [ [] ↦ none | d ∷ ds ↦ walk ds ps ] in
    if p == "" || p == "." then stay else if p == ".." then up else enter

walk-safe :
    (dirs ps : List String)
    → any unsafe_part ps ≡ false
    → (ends : List String) × (walk dirs ps ≡ some ends) × (length ends ≡ length ps + length dirs)
unfolding walk
walk-safe dirs [] h = (dirs, refl, omega arith)
walk-safe dirs (p ∷ ps) h =
    let (ends, w, l) = walk-safe (p ∷ dirs) ps (ground arith) in (ends, ground arith, omega arith)

length-cons_first : (c : Char) (ss : List String) → 0 < length (cons_first c ss)
length-cons_first c [] = omega arith
length-cons_first c (s ∷ ss) = omega arith

split_slash-nonempty : (s : String) → 0 < length (split_slash s)
unfolding split_slash
split_slash-nonempty String.[] = omega arith
split_slash-nonempty (String.◌∷◌ c s) = ground (arith, length-cons_first c (split_slash s))

-- Followed from its root, an accepted logical path never steps out of the root, and it ends
-- strictly below it, one directory deeper for each of its parts.
pub validate_logical_path-below_root :
    (path p : String)
    → validate_logical_path path ≡ ok p
    → (p ≡ path)
      × ((ends : List String) × (walk [] (split_slash p) ≡ some ends)
          × (length ends ≡ length (split_slash p))
          × (0 < length ends))
unfolding validate_logical_path
validate_logical_path-below_root path p h =
    let same : p ≡ path = ground arith in
    let (ends, w, l) = walk-safe [] (split_slash path) (ground arith) in
    rw same (refl, (ends, w, omega arith, omega (arith, split_slash-nonempty path)))
