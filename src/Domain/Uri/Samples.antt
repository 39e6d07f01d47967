-- ===== src/Domain/Uri/Samples.antt =====
-- A URI library that knows one URI, for the scenarios of src/edgar/domain/uri.py and its callers.
use edgar.Prelude.{none, some, ok, String}
use edgar.Domain.Uri.{UriLibrary, SplitUri}
use Prim.Native.String.{◌++◌ as str_append}

abbrev sample_split : SplitUri
sample_split = record {
  scheme = "https";
  username = none;
  password = none;
  hostname = some "www.sec.gov";
  port = ok none;
  path = "/a.xsd";
  query = "";
}

abbrev pub sample_uri : String
sample_uri = "https://www.sec.gov/a.xsd"

abbrev pub sample_uris : UriLibrary
sample_uris = record {
  urlsplit = λ uri. ok sample_split;
  urlunsplit =
      λ scheme netloc path query. str_append (str_append scheme "://") (str_append netloc path);
  urljoin = λ base reference. reference;
  upper = λ s. s;
  lower = λ s. s;
  ascii_char = λ n. "a";
  str_of_int = λ n. "0";
}
