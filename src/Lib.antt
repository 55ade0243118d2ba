-- ===== src/Lib.antt =====
-- LAN Fence, a monitor of the devices of a local network: the core of the Python package lanfence.
--
-- A scan or a captured packet yields a sighting of a MAC at an address. `engine.process_sighting`
-- folds it into the database (`db.DeviceStore.observe`), matches it against signatures
-- (`fingerprint`) and the allowlist, and turns a lifecycle transition (discovered, reappeared) into
-- findings. After a sweep, `mark_offline` and `evaluate_availability` notice the devices that are
-- gone. A finding goes out through the policies (`policy`), the snooze filter and the rate limits
-- (`engine.filter_rate_limited`), whose counters are in the database too, and is delivered by a
-- background thread (`alert_worker`). `discovery` parses captured mDNS and SSDP messages and keeps what
-- they advertise in tables of the database. `baseline` turns lifecycle events and new services into changes, and `risk`
-- scores a device.
--
-- The files, and the code that each models:
--   Base, Text       shared helpers: lists, tables, sorting; Python's str methods
--   Models           lanfence/models.py: devices, changes, findings, risk
--   Store            lanfence/db.py: the database as a record of tables
--     Coverage       `_path_covered`
--     Observe        `observe`
--     Offline        `devices_due_for_offline`, `mark_offline`
--     Availability   `evaluate_availability`
--     Review, Presence, Evidence, Alerts, Dhcp, Items, Changelog, Baselines,
--     Adverts, Services, Deletion
--                    the operations on the other tables
--     Lifecycle      the step relation of all of them, and what every reachable state satisfies
--   AlertWorker      lanfence/alert_worker.py: the delivery thread, its queue and its caller
--     Schedule       the steps of the two threads, in any order
--     Outbox         the queue of batches that a worker implements
--   Netutil, Allowlist, Fingerprint, Changes
--                    the modules of these names
--   Sanitize         lanfence/sanitize.py: `clean_text`
--   Identity         lanfence/identity.py: the rules and `infer_identity`
--   Baseline         lanfence/baseline.py: the loop over the signals in `_compare`
--     Scalars        the rest of `_compare`: address, name, identity, trust, presence
--     Whole          `_compare` as a whole
--     Review         `review_change`, `accept_pending`, `reset_baseline`, `maturity`
--     Ingest         `_ingest_lifecycle`
--     Recent         the recent changes in `detect_changes`, and their count in lanfence/risk.py
--   Discovery        lanfence/discovery.py
--     Names, Txt     `_read_name`, `_parse_txt_rdata`
--     Message        `parse_mdns_packet`
--     Ssdp           `parse_ssdp_packet`
--     Process        `process_mdns_record_sighting`, `process_ssdp_sighting`
--   DhcpServer       lanfence/dhcp_server.py: `process_dhcp_server_sighting`
--   Policy           lanfence/policy.py: matching, the default policies, the shaping of findings
--   Risk             lanfence/risk.py: `assess`
--   Engine           lanfence/engine.py
--     Findings       `build_findings`
--     Sightings      `process_sighting`
--     Coalesce       `coalesce_sightings`
--     Absences       `evaluate_availability`
--     Inventory      `build_inventory`, `build_device`, `is_review_needed`
--     Dispatch       `filter_rate_limited`, `filter_snoozed`
--   Witnesses        concrete runs
-- A file below one of these holds lemmas and is named for what they are about.
--
-- How the state corresponds. `Store.State.Store` has a field for each table that is modelled, an
-- association list in the order of insertion; a primary key is unique, which `IsKeyed` says. The two
-- evidence tables are grouped by MAC. Operations take the state and return the new one, and a
-- method's result stands beside it. `observe` returns an option, whose `none` is the failure of its
-- assertion. `Lifecycle.Step` has a constructor for each operation that sightings, sweeps, captured DHCP
-- replies, alerts and the operator's reviews and deletions call, and `Lifecycle.Reach` is any sequence
-- of them, so that these are interleaved in every way. A step of its own is missing for
-- `update_device_metadata` and for name evidence that is recorded without a sighting.
--
-- Conventions. Times and durations are numbers of microseconds from an origin before every
-- recorded time; a negative duration acts as 0 in the code and has no value here. A MAC is its
-- normalised text, on which `normalize_mac` is the identity, so its calls are left out, except on
-- a captured text. An address is its text with what `ipaddress` parses it to. The validators that
-- sanitise texts in the Pydantic models are left out: texts are already clean. `lower` and `upper`
-- map the ASCII letters, as SQLite's NOCASE does; Python's methods map other letters too. Where rows
-- beyond the evidence cap tie in their last sighting, SQLite leaves the choice open: the
-- model keeps the new row, and of the advertised services the rows that came first. A risk weight is a signed number, since one of
-- them is negative.
--
-- Parameters. The reverse-DNS lookup and the vendor tables are fields of `Engine.Sightings.Env`;
-- sweeps and captures are sightings and coverage values that the operations take. No hypothesis is
-- made about them. The pattern of a rule for the name of a host (Python's `re`) is a function that the
-- rule carries. The rounding of a time away to tenths of a day is a field of
-- `Baseline.Ingest.Watching`, the decoding of bytes and the printing of addresses
-- are fields of `Discovery.Txt.Decoder`, and a batch of alerts is of any type.
--
-- The two threads of the alert worker are a step relation: a step is one call on the queue, which
-- Python's lock makes atomic, and a run is any sequence of steps. Opening and closing the thread's
-- database are steps that may fail, with the outcome as an argument. The tables of change detection are a
-- record of their own, `Store.Changelog.Changelog`, which no operation of `Store` reads, and so are
-- the tables of advertised services, `Store.Adverts.Adverts`, whose rows share a record for the columns
-- that each of the five tables has.
--
-- Every loop of the modelled code runs over a list, so no fuel is needed, except to print a number,
-- where its value plus one is more than its digits, and to ingest events page by page, where one more
-- pass than there are events is enough, since each but the last takes a thousand of them; the theorem
-- on the ingestion shows it. The loop over the labels of a DNS name gets one pass more than the
-- message has bytes, and a theorem shows that more passes change nothing; the loop over the strings of a TXT record gets as many passes as
-- bytes, of which each pass takes one.
--
-- Not modelled: SQL migrations and file I/O; the tables of inspections and risk, and what reads them
-- (the rest of lanfence/baseline.py); active sweeps and their retries; lanfence/classify.py; the command line, web and terminal interfaces;
-- the delivery of alerts.
pub mod Base
pub mod Text
pub mod Models
pub mod Store
pub mod Netutil
pub mod AlertWorker
pub mod Allowlist
pub mod Fingerprint
pub mod Identity
pub mod Sanitize
pub mod Discovery
pub mod DhcpServer
pub mod Changes
pub mod Baseline
pub mod Policy
pub mod Risk
pub mod Engine
pub mod Witnesses
