-- ===== src/Lib.antt =====
-- DFIR Investigation Workbench: a local application that keeps forensic evidence, parses Windows
-- artifacts, and correlates and reports what it finds. This library models its backend.
--
-- Prelude: the names and lemmas that the other modules share. Domain:
-- backend/app/domain/enums.py.
-- Forensic.Bytes: backend/app/forensic/windows_binary.py and Python's `bytes`.
-- Forensic.Parser: the status contract of backend/app/forensic/parser.py.
-- Forensic.Mft: backend/app/forensic/ntfs_mft.py. Layout is `_layout`, Fixup `_apply_fixup`, Runs
-- `_data_runs`, Attributes and Table `_attributes` with its helpers and `_record`, Stream
-- `parse`. Raises, DataRunFailures, AttributeFailures, Failures, Contract and MissingParsed are
-- about its exceptions, Restores about the fixup, RunList and RunsRoundTrip about the run lists.
-- Services.Session: the database session of SQLAlchemy as its documentation describes it, the
-- rows of backend/app/db/models and the errors of backend/app/core/exceptions.py. Services.Cases:
-- backend/app/services/case_service.py and, as `handle` and `serve`,
-- backend/app/api/routes/cases.py. Lifecycle, History and Outcomes are about what its requests
-- store and answer. Session.Rules and Session.Quiet have the rules for methods in a session.
-- Services.Findings and Services.Runs: backend/app/services/correlation_service.py,
-- `update_finding` with `get_finding`, and `run`. Transitions is about updates, and Adds, Steps, Keys,
-- Repeats, Idempotent, Evaluations, Returns and Warns are about runs.
-- Services.Investigation: both, as backend/app/api/routes/correlation.py serves them; Kept is
-- about sequences of requests.
-- Services.Timelines: `generate` of backend/app/services/timeline_service.py; Inserts, Again and
-- Idempotent are about a second run, Safe, Distinct and Origin about the stored events, Returns
-- about a database that refuses nothing.
-- Correlation: backend/app/correlation/rules.py. Paths is `_path`, `_name`, `_basename` and
-- `_full_path` with Python's `ntpath`, Events the sort key, Pairs `_identity_time_pairs`,
-- Candidates and Rules what the `evaluate` of the four rules returns, Asserts their assertions.
-- Matching, Grouping, Complete and Exactness are about the events that they associate, Timed about
-- the assertions. Registry:
-- backend/app/correlation/registry.py.
-- Forensic.Prefetch: backend/app/forensic/prefetch.py, `parse` as `parse_prefetch`; Contract is
-- about its exceptions and results. Forensic.Lnk: backend/app/forensic/lnk.py. LinkInfo is
-- `_link_info` and `_target_path`, Blocks `_timestamp`, `_string_data`, `_id_list` and
-- `_extra_data`, Record `_normalize` and `parse` as `parse_link`; Bounds is about `_id_list`,
-- Contract about exceptions and results. Forensic.Settle: the try statement that both end with.
-- Json: the values of a JSONB column. Timeline: backend/app/services/timeline_normalizer.py.
-- Times is `_aware`, `_aware_iso` and `_iso_precision`, Identity
-- `extract_evtx_process_identity`, Normalizer, EventNames and Mappings `_evtx`, `_registry`, `_prefetch`, `_lnk`, `_ntfs`
-- and `normalize`. Unique, Counts and NtfsPaths are about the events, the last one about the
-- correlation rules that read them.
--
-- Conventions. A byte string is a list of numbers and an offset a number. A function that may
-- raise returns a `Result`, whose errors are the exceptions: also ZeroDivisionError, KeyError and
-- AssertionError where the code divides, looks up or asserts. A `datetime` is the number of
-- microseconds since the year 1, and a text the list of its code points. A dictionary with fixed
-- keys is a record. A number that the source prints (a FILETIME in decimal, a serial number in
-- hexadecimal) is kept as the number, and a UUID or a digest as its bytes.
-- Fuel: the data-run loop gets the length of its bytes plus one, the attribute loop the used size
-- plus one, the scan the size of the source plus one, the loops of a Shell Link the length of the
-- file plus one; each round moves the offset by one at least, and no run of these loops ends for
-- want of fuel.
-- The answers of the database to a service's statements are a list: each statement is carried out
-- or raises. The readings of Python's clock and of the database's, and a
-- fresh identifier, are arguments of a request, and
-- SHA-256, the text of an identifier, the orders in which the database returns rows, and
-- Python's `casefold`, `isdecimal`, `fromisoformat`, `str` of a value and the iteration order of
-- a set are arguments. A JSON number with no fraction is an integer.
-- Not modelled: the explanatory texts of findings; the columns of an event that are only
-- displayed; the listing of cases, events, matches and findings; the metadata, statistics and
-- provenance dictionaries of parser results, which only label them; the EVTX and registry hive
-- parsers, which drive third-party readers; evidence storage, parser execution and reports, which
-- are services around files; HTTP, rendering and the database schema, which are glue, formatting
-- and declarations.
pub mod Prelude
pub mod Json
pub mod Domain
pub mod Forensic
pub mod Services
pub mod Correlation
pub mod Timeline
