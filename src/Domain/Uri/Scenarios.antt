-- ===== src/Domain/Uri/Scenarios.antt =====
-- Paths that `_remove_dot_segments` of src/edgar/domain/uri.py normalizes.
use edgar.Prelude.{◌≡◌, refl, List, some, String, All}
use edgar.Prelude.Text.{is_empty}
use edgar.Domain.Uri.{path_segments, remove_dot_segments, remove_loop, remove_step}
use edgar.Domain.Uri.DotSegments.Plain.{IsPlain, path_segments-IsPlain}

climbing : remove_dot_segments "/a/b/../c/./d/.." ≡ "/a/c/"
unfolding remove_dot_segments remove_loop remove_step is_empty
climbing = refl

path_segments-IsPlain_example :
    (out : List String) × (path_segments "/a/b/../c/./d/.." ≡ some out) × All IsPlain out
path_segments-IsPlain_example = path_segments-IsPlain "/a/b/../c/./d/.."
