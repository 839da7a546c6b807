-- ===== src/Lib.antt =====
-- compliance-ail puts an audit ledger between an agent and its tools. The decision service answers
-- each tool call after asking a policy engine and writing what it decided; the verifier is the one
-- service that writes to the ledger (immudb), gives each record a commit position, reports whether
-- a write took place, and checks a record's proof against a trust anchor; the control plane shows
-- the records on pages, with the faults that qualify them, and holds the content of calls until it
-- is erased; the anchor service puts the heads of the ledger into a public log, and checks the
-- positions handed out against those that the views hold; the provenance package signs records.
--
-- Which file models which part:
--   Common, Common/*          byte strings, UTF-8, decimal numbers and JSON dictionaries
--   Provenance, Provenance/*  provenance/record_signature.py
--   Verifier/Ledger           the ledger as a parameter, and what it documents
--   Verifier/Reserve          validate_reserve of verifier/main.py
--   Verifier/Sequence, /*     _ordered_commit of verifier/main.py, with its reads and its caches
--   Verifier/Service, /*      the read-backs and the refusals of the two write routes
--   Verifier/Fault, /*        _write_fault_record and what it calls
--   Verifier/Routes, /*       POST /write-ordered (Ordered), POST /write (Plain), their responses
--   Verifier/Anchor, /*       _VerifiedRootService, the trust anchor that the SDK reads and moves
--   Verifier/Answers          the shapes of the read routes
--   Verifier/Reads, /*        POST /verify, _state_read, head_state and _PinnedRootService
--   Decision/Registry, /*     decision_service/schemas.py: the tools and their exclusivity
--   Decision/Policy, /*       query_opa_policy and _render_message of decision_service/main.py
--   Decision/Decide, /*       the route POST /decide
--   Client, Client/*          ledger/immudb_ledger.py, the gateway's client of the verifier
--   Interceptor, /*           intercept_tool_call of interceptor/middleware.py
--   ControlPlane/Order, /*    the order check of control_plane/main.py
--   ControlPlane/Faults, /*   _fault_key_transaction, _rendered_fault, _merge_fault, _page_faults
--   ControlPlane/Window, /*   _faults_in_tx_window, the bounded fault read
--   ControlPlane/Content, /*  POST /content and DELETE /content/{call_id}, with their tombstones
--   ControlPlane/Anchors, /*  POST /anchors
--   AnchorService/Collect, /* collect_positions of anchor_service/main.py
--   AnchorService/Reconcile   reconcile_once and _bound_reserve, with /* their laws
--   AnchorService/Anchoring   anchor_once and the rounds of run_forever, provenance/anchor.py, and the
--                             request of provenance/rekor.py, with /* their laws
--   Tests/*                   concrete parameters, and the theorems at concrete inputs
--
-- How the code is carried over. A function of the source is a function here, split where the
-- source branches: after_read_back is the handler's branch for OrderedCommitUncertain, raise is
-- the outer except of _ordered_commit. An exception is a value: Cause, Tried, Outcome, Called. A
-- response model is a record of its fields, and its detail text is a data type of the same cases.
-- The state of the verifier is World: the state of the ledger, the sequence cache and the reserve
-- cache.
--
-- The ledger (record Immudb), the cryptographic library and JSON printer (Crypto), the JSON parser
-- and the writer keys (Service), the backends of the gateway (Backends), the client's HTTP
-- exchange (Wire) and the shim's channel (Channel) are parameters, and so are what the control
-- plane and the anchor service call: Reader, Outside, Host (floats and their conversions) and
-- Services. What is assumed of them is in IsLedger (an applied ExecAll has its operations and its
-- preconditions held; a refused one changed nothing; a read returns what an applied request wrote)
-- and IsSound (a signature verifies under its own key; base64 decodes what it encoded; the sorted
-- dump does not depend on the order of a dictionary). The trust anchor's platform (Platform: the
-- signature check of a state, the state file, the head) and the SDK's proof check (Sdk) are
-- parameters too; IsFileSystem says that a file holds what was dumped into it, or is as it was or
-- cut short where that raised. The SDK hands its new state to set of the root service; what set
-- raises ends the proof. Tests/OneShot is a ledger that keeps IsLedger.
--
-- Bounds. The page loop of _faults_in_tx_window has fuel: one round more than the window has rows
-- is enough. So has the page loop of collect_positions, for one round more than there are scores.
-- The rounds of run_forever are counted, for any count. The retry loop of _ordered_commit recurses
-- on the attempts that are left, from MAX_CAS_ATTEMPTS as in the source, so it needs no fuel.
-- Positions stay below 2 ** 53, where a float64 score is exact; a score that is read back is
-- whole, fractional or unreadable.
--
-- Not modelled: logging, metrics, the API key dependencies of the routes, threads that share the
-- caches, int() on digits outside ASCII, the text of error messages where only its case matters,
-- negative transaction ids, GET /state, the shim's loading of its SVID and its start-up checks,
-- the rest of the control plane (tenants, bundles, the database's query for the latest anchor, the
-- page around its parts), the choice of a log in provenance/rekor.py (discover_log_url, a
-- parameter here), the report file of the reconciliation, and the offline tools.
pub mod Common
pub mod Provenance
pub mod Verifier
pub mod Decision
pub mod Client
pub mod Interceptor
pub mod ControlPlane
pub mod AnchorService
mod Tests
