-- ===== src/Financials/Taxonomy.antt =====
-- src/edgar/financials/taxonomy_release.py and census.py. `urlparse` is Python's.
use Prim.Native.Char.{code}
use edgar.Prelude.{
  ℕ, Bool, ◌&&◌, List, [], ◌∷◌, map, Option, none, some, String, Result, ok, ◌>>=◌, string_eq,
  nat_beq, length, sort_by, if◌then◌else◌,
}
use edgar.Prelude.Text.{is_empty, leb_string}
use edgar.Prelude.Dict.{alter, add_new, pair_eq, leb_tuple}
use edgar.Domain.Identifiers.{split_slash}
use edgar.Financials.Models.{
  ParsedUri, SemanticFamily, us_gaap, dei, srt, other, classify, clark_qname,
}

-- `s.strip("/")`
abbrev strip_left : String → String
strip_left String.[] = String.[]
strip_left (String.◌∷◌ c s) =
    let rest = strip_left s in if nat_beq (code c) b'/' then rest else String.◌∷◌ c s

abbrev strip_right : String → String
strip_right String.[] = String.[]
strip_right (String.◌∷◌ c s) =
    let rest = strip_right s in
    if is_empty rest && nat_beq (code c) b'/' then String.[] else String.◌∷◌ c rest

-- `parts[-1]`; a split has at least one part.
abbrev last_part : List String → String
last_part [] = ""
last_part (p ∷ []) = p
last_part (p ∷ ps) = last_part ps

-- `s or None`
abbrev given_text : String → Option String
given_text s = if is_empty s then none else some s

-- The texts of `semantic_family`.
abbrev pub family_text : SemanticFamily → String
family_text us_gaap = "us-gaap"
family_text dei = "dei"
family_text srt = "srt"
family_text other = "other"

-- A set of tokens, without repetitions.
abbrev pub release_of : List String → String
release_of [] = "unknown"
release_of (token ∷ []) = token
release_of _ = "mixed"

abbrev or_unknown : Option String → String
or_unknown none = "unknown"
or_unknown (some s) = s

abbrev add_token : Option String → List String → List String
add_token none tokens = tokens
add_token (some token) tokens = add_new token tokens

-- An item of the census: an accession, a namespace and a local name.
abbrev pub CensusItem : Type 0
CensusItem = String × (String × String)

abbrev pub Accessions : Type 0
Accessions = List String

abbrev pub ReuseKey : Type 0
ReuseKey = String × (String × String)

abbrev leb_pair : String × String → String × String → Bool
leb_pair = leb_tuple leb_string

-- The sets by Clark name.
unfoldable pub group_qnames :
    List CensusItem → List (String × Accessions) → Result (List (String × Accessions))
group_qnames [] seen = ok seen
group_qnames ((accession, (namespace_uri, local_name)) ∷ facts) seen = do
  qname ← clark_qname namespace_uri local_name
  group_qnames facts (alter qname [] (add_new accession) seen)

-- The rows of `qname_census`: a Clark name and `n_accessions`.
unfoldable pub qname_census : List CensusItem → Result (List (String × ℕ))
qname_census facts = do
  accessions ← group_qnames facts []
  ok (
      map (λ (row : String × Accessions). (row.0, length row.1))
        (sort_by (λ (a : String × Accessions) (b : String × Accessions). leb_string a.0 b.0)
          accessions))

module _ (urlparse : String → ParsedUri) where
  unfoldable pub namespace_release_token : String → Option String
  namespace_release_token namespace_uri =
      let path = strip_right (strip_left (urlparse namespace_uri).path) in
      if is_empty path then none else given_text (last_part (split_slash path))

  abbrev us_gaap_token : SemanticFamily → String → Option String
  us_gaap_token us_gaap namespace_uri = namespace_release_token namespace_uri
  us_gaap_token _ namespace_uri = none

  unfoldable pub us_gaap_release_token : String → Option String
  us_gaap_release_token namespace_uri =
      us_gaap_token (classify urlparse namespace_uri).semantic_family namespace_uri

  -- The set of the tokens.
  abbrev pub release_tokens : List String → List String
  release_tokens [] = []
  release_tokens (ns ∷ namespace_uris) =
      add_token (us_gaap_release_token ns) (release_tokens namespace_uris)

  unfoldable pub filing_taxonomy_release : List String → String
  filing_taxonomy_release namespace_uris = release_of (release_tokens namespace_uris)

  abbrev reuse_key : String → String → ReuseKey
  reuse_key namespace_uri local_name = (
    family_text (classify urlparse namespace_uri).semantic_family,
    (or_unknown (namespace_release_token namespace_uri), local_name),
  )

  abbrev group_reuses :
      List CensusItem → List (ReuseKey × Accessions) → List (ReuseKey × Accessions)
  group_reuses [] seen = seen
  group_reuses ((accession, (namespace_uri, local_name)) ∷ facts) seen =
      group_reuses facts (alter (reuse_key namespace_uri local_name) [] (add_new accession) seen)

  -- The rows of `name_reuse_aggregate`: family, release and local name, and `n_accessions`.
  unfoldable pub name_reuse_aggregate : List CensusItem → List (ReuseKey × ℕ)
  name_reuse_aggregate facts =
      map (λ (row : ReuseKey × Accessions). (row.0, length row.1))
        (sort_by
          (λ (a : ReuseKey × Accessions) (b : ReuseKey × Accessions). leb_tuple leb_pair a.0 b.0)
          (group_reuses facts []))
