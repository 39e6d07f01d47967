-- ===== src/Lib.antt =====
-- edgar: the parts of the program that decide which value of a filing is published for a metric,
-- the ledger of reviewed mappings behind those decisions, and the acquisition of filings.
--
-- A filing's facts, typed rows of one XBRL report, are matched with the reviewed decisions that map
-- source concepts to metrics (Financials/Decisions). The supports that result, the reporting period
-- of the filing (Financials/Period) and the reduction of duplicate facts (Financials/Decimals) give
-- one observation for each metric (Financials/Select). Next to it the registry keeps an append-only
-- ledger of mapping assertions: they are proposed, accepted and rejected, with a check for
-- conflicting mappings (Registry/Service), over a mirror of the canonical metrics (Registry/Sync).
-- Identifiers of filers, filings and paths are validated by Domain/Identifiers.
--
-- Before that, filings are fetched (Sec) from public destinations into a content-addressed store
-- (Storage) and bound together as a bundle, whose structure is checked and which is written and read
-- as JSON (Domain/Bundle); the records of an XBRL projection cross processes as JSON (Xbrl/Records),
-- with locators of the elements that they come from (Xbrl/Locators) and diagnostics that decide if the
-- projection is complete (Xbrl/Diagnostics). The quality report counts the observations of a build
-- (Financials/Quality).
--
-- Files and the code that they model, with the names of the source unless noted:
--   Prelude, Prelude/*: shared lists, tests, integers, decimals, Unicode text, and exceptions as
--     values: a function that may raise returns a Result, and a do block stops at the first error.
--   Domain/Identifiers: src/edgar/domain/identifiers.py. A regular expression is a function that
--     consumes the text; `\d` is any decimal digit of Unicode, as in Python.
--   Financials/Models: src/edgar/financials/models.py, src/edgar/xbrl/taxonomy_family.py and
--     clark_qname of src/edgar/domain/concept_id.py.
--   Financials/Decimals: src/edgar/financials/decimals.py. oim_reduce_group parses the decimals and
--     calls reduce_parsed, the rest of the function.
--   Financials/Decisions: src/edgar/financials/decisions.py and resolve.py. load_decisions starts
--     from the parsed files in the order of their paths.
--   Financials/Period: src/edgar/financials/period.py. chosen_candidate is the part of
--     resolve_required_reporting_period up to the choice of the candidate.
--   Financials/Select: src/edgar/financials/select.py. The early returns of select_metric split it
--     into select_in_period, select_in_scope, conclude_candidates and conclude_survivors.
--   Registry/Interval, Registry/Mapping, Registry/Metrics: src/edgar/registry/interval.py, mapping.py,
--     models.py and hashing.py.
--   Registry/Store: the queries of src/edgar/db/registry.py over the tables and constraints of
--     src/edgar/db/registry_schema.py. A table is the list of its rows, the newest first.
--   Registry/Service: src/edgar/registry/service.py. Each method takes the tables and returns new
--     ones or an error; a call that raises leaves the tables as they were, as its transaction does.
--   Financials/Gold: compare_gold of src/edgar/financials/gold.py; `decimal_of` is Python's Decimal.
--   Registry/Sync: RegistryService._sync, with the statements that it runs on the mirror. The four
--     lists of its result are read off the outcomes of its loop.
--   Prelude/Json, Domain/Decode: JSON values and the strict decoders of src/edgar/domain/decode.py.
--   Domain/Uri: src/edgar/domain/uri.py. Each test of the loop of _remove_dot_segments is a function.
--   Domain/Bundle: src/edgar/domain/bundle.py and payload.py; Domain/Bundle/Codec has to_dict and
--     from_dict, Domain/Bundle/Structure src/edgar/domain/validation.py.
--   Xbrl/Records: src/edgar/xbrl/records.py. A build_x is the constructor with its __post_init__, and
--     read_x the arguments that from_dict passes to it.
--   Storage/Objects: ObjectStore of src/edgar/storage/objects.py, as the list of its objects.
--   Sec/Destination: src/edgar/sec/ssrf.py.
--   Sec/Fetch: ControlledFetcher.fetch_to_store of src/edgar/sec/client.py. Sec/Fetch/Attempts is the
--     body of its inner loop with the handlers, Sec/Fetch/Loop the two loops and the outer handler. The
--     state of the call has the URLs that were sent, which the source does not keep.
--   Financials/Taxonomy: src/edgar/financials/taxonomy_release.py and census.py.
--   Financials/Quality: src/edgar/financials/quality.py. Financials/Quality/Cells and
--     Financials/Quality/Tallies have the loops of build_quality_document, Financials/Quality/Document
--     the function; a mapping of the source is a
--     function where it is only looked up, and otherwise the list of its entries.
--   Xbrl/Locators: src/edgar/xbrl/locators.py. Xbrl/Locators/Elements has the tree of a document.
--   Xbrl/Diagnostics: src/edgar/xbrl/diagnostics.py.
--   Scenarios modules hold small inputs on which the code runs and the theorems apply.
--
-- State is passed explicitly. Registry/Service/Ledger has the ledger's invariant,
-- Registry/Service/Ledger/Methods the step relation of its methods, and Registry/Service/Ledger/History
-- the lives of the assertions. Loops are recursion on the list
-- that they traverse, but for three on fuel: the loop over redirects has one hop more than there may
-- be redirects, the one over the path of a URI one turn more than it has characters, and the one over
-- an element path a turn for each character; each is proved enough. The digits of a number n are
-- counted on the fuel n.
--
-- Parameters stand for code outside the repository: `urlparse` of Python's library, `str_decimal` for
-- `str` of a decimal, `decimal_of` for the reverse, `digest` for SHA-256 of canonical JSON, `yaml` for
-- the metrics that the YAML files give, `now` for the clock. UriLibrary, NetLibrary, RecordLibrary and
-- BundleLibrary name what the code calls of urllib, ipaddress, socket, decimal, datetime and hashlib, and
-- World what the network answers to each request of a fetch. Unless a theorem
-- says otherwise it holds whatever is answered; those on public addresses take `getaddrinfo` to answer
-- texts that ipaddress reads.
-- `quotient` prints a rate of the quality report. A document of lxml is given as its tree.
--
-- Not modelled: message texts, of which only the fixed words are kept; the rounding of Python's decimal
-- context to 28 digits; the tests of Python types; the concurrency of transactions, each of which is
-- one step; the sink of traces that raises; parsing of files, HTML and XBRL, the database, and the
-- command line.
pub mod Prelude
pub mod Domain
pub mod Financials
pub mod Registry
pub mod Xbrl
pub mod Storage
pub mod Sec
