-- ===== src/Xbrl/Locators/Elements.antt =====
-- src/edgar/xbrl/locators.py: the elements of a document and their locators. A document is a tree, of
-- which lxml gives tags, attributes and children; an element is the path of child numbers that leads
-- to it from the root. The source walks up to the root, and the path here is read downwards.
use edgar.Prelude.{
  ℕ, zero, suc, Bool, false, List, [], ◌∷◌, ◌++◌, Option, none, some, String, Result, err,
  value_error, ◌>>=◌, ◌==◌, string_eq, nat_beq, if◌then◌else◌,
}
use edgar.Prelude.Int.{pos}
use edgar.Prelude.Text.{is_empty}
use edgar.Xbrl.Records.{RecordLibrary, SourceLocator, build_locator}
use edgar.Xbrl.Locators.{Segment, found, format_expanded_path}

-- An element has a Clark name, an `xml:id`, an `id` and children; a comment or an instruction has
-- neither.
mutual
  pub data Node : Type 0 where
    element : String → Option String → Option String → Nodes → Node
    other_node : Node

  pub data Nodes : Type 0 where
    no_nodes : Nodes
    next_node : Node → Nodes → Nodes

abbrev pub Position : Type 0
Position = List ℕ

abbrev pub and_then {ℓ} : {A B : Type ℓ} → Option A → (A → Option B) → Option B
and_then none f = none
and_then (some a) f = f a

abbrev pub nth : Nodes → ℕ → Option Node
nth no_nodes i = none
nth (next_node n ns) zero = some n
nth (next_node n ns) (suc i) = nth ns i

abbrev pub children : Node → Nodes
children (element name xml_id plain_id ns) = ns
children other_node = no_nodes

abbrev pub at : Node → Position → Option Node
at n [] = some n
at n (i ∷ is) = and_then (nth (children n) i) (λ m. at m is)

abbrev pub xml_id_of : Node → Option String
xml_id_of (element name xml_id plain_id ns) = xml_id
xml_id_of other_node = none

abbrev pub plain_id_of : Node → Option String
plain_id_of (element name xml_id plain_id ns) = plain_id
plain_id_of other_node = none

-- The values of an attribute in a document, in its order, as the counters of `id_index` count them.
abbrev pub add_given : Option String → List String → List String
add_given none values = values
add_given (some v) values = if is_empty v then values else v ∷ values

abbrev mutual
  pub values_in : (Node → Option String) → Node → List String
  values_in get (element name xml_id plain_id ns) =
      add_given (get (element name xml_id plain_id ns)) (values_below get ns)
  values_in get other_node = []

  pub values_below : (Node → Option String) → Nodes → List String
  values_below get no_nodes = []
  values_below get (next_node n ns) = values_in get n ++ values_below get ns

pub record IdIndex : Type 0 where
  pub xml_ids : List String
  pub ids : List String

abbrev pub id_index : Node → IdIndex
id_index root = record { xml_ids = values_in xml_id_of root; ids = values_in plain_id_of root }

-- `counts.get(value, 0)`
abbrev pub count : String → List String → ℕ
count v [] = 0
count v (x ∷ xs) = let rest = count v xs in if x == v then suc rest else rest

-- `value and counts.get(value, 0) == 1`
abbrev pub is_unique : List String → Option String → Bool
is_unique values none = false
is_unique values (some v) = if is_empty v then false else nat_beq (count v values) 1

abbrev pub is_named : String → Node → Bool
is_named name (element other_name xml_id plain_id ns) = other_name == name
is_named name other_node = false

-- The number of siblings with the name up to a place.
abbrev pub ordinal : String → Nodes → ℕ → ℕ
ordinal name no_nodes i = 0
ordinal name (next_node n ns) zero = if is_named name n then 1 else 0
ordinal name (next_node n ns) (suc i) =
    let rest = ordinal name ns i in if is_named name n then suc rest else rest

abbrev pub name_of : Node → Option String
name_of (element name xml_id plain_id ns) = some name
name_of other_node = none

abbrev pub segment_of : Node → ℕ → Option Segment
segment_of (element name xml_id plain_id ns) k = some (name, pos k)
segment_of other_node k = none

-- The name and the ordinal of a child.
abbrev pub child_ordinal : Nodes → ℕ → Node → ℕ
child_ordinal ns i (element name xml_id plain_id ms) = ordinal name ns i
child_ordinal ns i other_node = 0

-- The path of an element whose ordinal is given; the root has the ordinal 1.
unfoldable pub path_from : ℕ → Node → Position → Option (List Segment)
path_from k n [] = and_then (segment_of n k) (λ s. some (s ∷ []))
path_from k n (i ∷ is) = and_then (segment_of n k) (λ s.
    and_then (nth (children n) i)
      (λ m. and_then (path_from (child_ordinal (children n) i m) m is) (λ path. some (s ∷ path))))

unfoldable pub expanded_element_path : Node → Position → Option (List Segment)
expanded_element_path root p = path_from 1 root p

module _ {D : Type 0} (lib : RecordLibrary D) (document_uri : String) where
  abbrev pub by_id : String → Option String → Result SourceLocator
  by_id scheme none = err (value_error "no value")
  by_id scheme (some v) =
      build_locator lib (record { document_uri = document_uri; scheme = scheme; value = v })

  abbrev pub by_path : Node → Position → Result SourceLocator
  by_path root p = do
    path ← found (expanded_element_path root p) "only element nodes can be located"
    text ← format_expanded_path path
    build_locator lib
        (record { document_uri = document_uri; scheme = "expanded_element_path"; value = text })

  abbrev pub locate : Node → Position → Node → Result SourceLocator
  locate root p n =
      let index = id_index root in
      if is_unique index.xml_ids (xml_id_of n)
      then by_id "xml_id" (xml_id_of n)
      else if is_unique index.ids (plain_id_of n)
      then by_id "unqualified_id" (plain_id_of n)
      else by_path root p

  -- With the index that `id_index` gives for the root.
  unfoldable pub element_locator : Node → Position → Result SourceLocator
  element_locator root p = do
    n ← found (at root p) "only element nodes can be located"
    locate root p n
