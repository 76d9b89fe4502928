-- ===== src/Lib.antt =====
-- ActionLineage: a verification library for the evidence core in src/actionlineage.
--
-- The program records what agents do as events, in a journal of JSON lines that only grows. Each
-- record carries the hash of the one before it and its own. A recorder validates an event, redacts
-- it, seals it with its hashes and appends it; a verifier reads a journal in one pass and reports
-- the first fault. Beside the journal stand policy decisions with approvals, the roles of the
-- service, rules that find sequences of events, and observers whose evidence may be called
-- independent.
--
-- Parts, and the files that model them:
--   Base        shared names, Boolean tests, lists, outcomes of code that may raise.
--   Domain      Value: Python values at the JSON boundary, and the functions validate_json_value,
--               freeze_json_value, thaw_json_value (src/actionlineage/domain/events.py) and
--               normalize_json (domain/serialization.py); Value/Spec has the independent
--               description. Event: the envelope, its validators, model_copy through
--               event_with_integrity, and event_to_dict.
--   Journal     Hashing: src/actionlineage/journal/hashing.py with domain/canonicalization.py.
--               Snapshot: verified_journal_snapshot of journal/local.py, round by round of its
--               loop. Append: append_event. Bytes: the lines of a file. Chain is the description
--               of a journal that the others are compared with; Scan, Verified, Integrity, Tamper,
--               Prepare, Extend and Torn hold the proofs.
--   Redaction   src/actionlineage/domain/redaction.py: RedactionPolicy.apply and what it calls;
--               Defaults: the default policy. Secrecy, Spends, Budget and Place have the proofs.
--   Anchors     src/actionlineage/journal/anchors.py: anchors, their signatures, and the export of a
--               verified prefix; Log: the entries of the log of anchors and their reading;
--               Appends: adding to the log and verifying it. Pins, Signed, Export,
--               LogScans, Passed, LogTamper and Chained have the proofs.
--   Evidence    src/actionlineage/evidence/normalization.py; Timeline has the proofs.
--   Ingest      src/actionlineage/evidence/ingestion.py: records, keys and fingerprints. Batch:
--               import_evidence_batch_atomically, turn by turn of its loop; Turns, Kept, TurnKeys
--               and Keys have the proofs.
--   Policy      src/actionlineage/adapters/policy.py.
--   Auth        src/actionlineage/service/auth.py.
--   Tenancy     src/actionlineage/service/tenancy.py; Access is about decisions, Scopes about paths.
--   Observers   Attestation: src/actionlineage/observers/attestation.py. Decisions: verification.py
--               there. Independence has the proofs on both.
--   Detection   src/actionlineage/detection/sequence.py: the loops that match sequence rules, and in
--               Evaluate the evaluation of a rule. Found, Groups and Distinct are about it.
--   Tests       a platform on which the laws hold, and runs on concrete inputs.
--
-- Exceptions are outcomes: `ok` and `err`, the error without its message. A record of the journal
-- goes through Domain (validate, dump, normalise) and Journal.Hashing; Journal.Append calls the
-- verifier of Journal.Snapshot first, as the code does, and takes a redaction boundary as a
-- parameter. Python's libraries are the record `Platform` of Journal: the bytes that json.dumps
-- makes, the reading of an event by json.loads and pydantic, SHA-256, and the text of a time;
-- `IsPlatform` lists what is relied on, and Tests/Place has a platform for which it is proved. The
-- bytes are written with the keys in order (sort_keys=True): an event is read back from them with
-- the keys of its payload in that order (Domain/Value/Sorted), and is the same event only if they
-- were in order before. The encoding of the bytes may raise.
-- The log of anchors reads JSON without pydantic and splits its file by `splitlines`: these are the
-- record `LogLibrary` of Anchors/Log, of which Anchors/LogScans and Anchors/Passed state what is
-- relied on.
-- Nothing is assumed of SHA-256: where its strength matters, a collision is an alternative.
--
-- Fuel and bounds: freeze_json_value recurs on fuel, the depth of Python's calls. Events use 100,
-- and the validator admits 64 levels, so that it never runs out on a payload that was validated.
-- match_ordered has the number of events as fuel, of which each round uses up one at least. The
-- default limits are 64 levels, 4096 members and 4096 items, as in the source. All else is
-- structural recursion. A float is the 64 bits of its double.
--
-- Not modelled: the projections into SQL databases, the HTTP service, the command line, exporters,
-- the console and other input and output. Of detection, the loops take the test of an event
-- against a stage as an argument. Left out are the loading of rules, the import of evidence without
-- a lock around it, and the summaries of structured logs in the redaction policy. The append takes
-- any redaction boundary that keeps an event at its place, as the default policy does where its
-- regular expressions, which are an argument, find nothing in a digest. The lock of the journal is
-- the flag of an attempt, so that attempts follow one another.
pub mod Base
pub mod Domain
pub mod Journal
pub mod Redaction
pub mod Anchors
pub mod Evidence
pub mod Ingest
pub mod Policy
pub mod Auth
pub mod Tenancy
pub mod Observers
pub mod Detection
pub mod Tests
