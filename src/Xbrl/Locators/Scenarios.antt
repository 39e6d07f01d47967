-- ===== src/Xbrl/Locators/Scenarios.antt =====
-- Paths and locators of src/edgar/xbrl/locators.py in a small document.
use edgar.Prelude.{◌≡◌, refl, true, List, [], ◌∷◌, none, some, String, ok}
use edgar.Prelude.Text.{is_empty, zero_padded, strip, digit_value, is_digit, is_space}
use edgar.Prelude.Int.{pos}
use edgar.Domain.Uri.{
  assert_serialized_binding_uri, normalize_uri, uppercase_percent_escapes,
  decode_unreserved_percents, remove_dot_segments, remove_loop, remove_step, has_query_mark,
}
use edgar.Domain.Uri.Samples.{sample_uri, sample_uris}
use edgar.Xbrl.Records.{RecordLibrary, SourceLocator, build_locator}
use edgar.Xbrl.Locators.{
  Segment, partition, split_clark, width, format_parts, format_expanded_path, digits_of, int_of,
  parse_segment, parse_segments, parse_expanded_path,
}
use edgar.Xbrl.Locators.Readback.{parse_expanded_path-format_expanded_path}
use edgar.Xbrl.Locators.Fuel.{Ends, parse_expanded_path-Ends}
use edgar.Xbrl.Locators.Elements.{
  Node, Position, element, other_node, no_nodes, next_node, path_from, expanded_element_path,
  element_locator,
}
use edgar.Xbrl.Locators.Identity.{element_locator-injective}

abbrev segments : List Segment
segments = ("{http://x/y}doc", pos 1) ∷ ("a", pos 12) ∷ []

abbrev path_text : String
path_text = "/{http://x/y}doc[1]/a[12]"

written : format_expanded_path segments ≡ ok path_text
unfolding format_expanded_path format_parts split_clark partition is_empty width zero_padded
written = refl

parse_expanded_path-format_expanded_path_example : parse_expanded_path path_text ≡ ok segments
parse_expanded_path-format_expanded_path_example =
    parse_expanded_path-format_expanded_path segments path_text written

-- An ordinal that `format_expanded_path` never writes is read all the same.
loose_ordinal : parse_expanded_path "/a[ +1_0 ]" ≡ ok (("a", pos 10) ∷ [])
unfolding parse_expanded_path parse_segments parse_segment partition split_clark is_empty int_of
    digits_of strip is_digit digit_value
loose_ordinal = refl

-- Two elements have one `id`, and a third has an `xml:id` of its own.
abbrev document : Node
document = element "{http://x/y}doc" none none (
    next_node other_node (
      next_node (element "a" none (some "n") no_nodes) (
        next_node (element "a" none (some "n") no_nodes)
          (next_node (element "b" (some "k") none no_nodes) no_nodes))))

abbrev library : RecordLibrary String
library = record { uris = sample_uris; str = λ d. d; decimal = λ s. some s; is_finite = λ d. true }

abbrev second : SourceLocator
second = record {
  document_uri = sample_uri;
  scheme = "expanded_element_path";
  value = "/{http://x/y}doc[1]/a[2]";
}

abbrev second_a : Position
second_a = 2 ∷ []

located : element_locator library sample_uri document second_a ≡ ok second
unfolding element_locator expanded_element_path path_from format_expanded_path format_parts
    split_clark partition is_empty width zero_padded build_locator assert_serialized_binding_uri
    normalize_uri uppercase_percent_escapes decode_unreserved_percents remove_dot_segments
    remove_loop remove_step has_query_mark strip is_space
located = refl

element_locator-injective_example : second_a ≡ second_a
element_locator-injective_example =
    element_locator-injective library sample_uri document second_a second_a second located located

parse_expanded_path-Ends_example : Ends (parse_expanded_path path_text)
parse_expanded_path-Ends_example = parse_expanded_path-Ends path_text
