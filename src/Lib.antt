-- ===== src/Lib.antt =====
-- NetLanvas: discovery, monitoring and alerting for a local network.
--
-- The appliance polls the network once per tick and keeps what it found in the SQLite file
-- network.db; accounts and settings are in config.db. In each tick the device state tracker
-- compares the devices that are present with the table of known states, records transitions and
-- puts alerts into the inbox. The dispatcher then delivers pending alerts by mail and by webhook.
-- The HTTP API is behind an authentication gate, which uses sessions, API tokens and an in-memory
-- rate limiter; its account routes create the one account, open and close sessions and reset a
-- forgotten login. Discovery fills the tables of interfaces and bindings: the unification passes
-- give each interface a node, the inference engine sweeps the nodes that have gone, the hostname
-- registry decides which name a node bears, and the pollers ask the polling targets for one address
-- per node. A sniffer of DHCP packets offers names to the registry, the discovery of smart switches
-- reads the vendors' protocols, and the exposure detectors turn weak SNMP credentials into findings
-- and alerts. Beside them a registration is guarded by a state token, and telemetry is sent once a
-- day.
--
-- Files, and the code that each models:
--   Base         shared names, Boolean tests, lists, tables and the SQL statements over them,
--                dictionaries, texts, numbers, bytes and UTF-8
--   Net          the tables of network.db (src/engine/database.py); Net/Pseudo has the addresses of
--                stand-ins
--   Inventory    the table verified_devices of inventory.db (src/engine/database.py)
--   RateLimit    src/security/rate_limit.py: _prune_locked, is_rate_limited, record_attempt,
--                clear_attempts, get_client_ip
--   Auth         src/security/auth.py: users and sessions; Auth/Credentials has the stamps, the
--                setup and recovery tokens and the credential reset
--   ApiTokens    src/security/api_tokens.py
--   Gate         src/security/middleware.py: path_requires_auth, authenticate_bearer_token,
--                check_session
--   Alerting     src/engine/alerting.py: thresholds, create_alert, prune_alerting_history
--   Dispatch     src/engine/alert_dispatcher.py: the senders and dispatch_pending_alerts
--   Tracker      src/pollers/device_state_tracker.py: run_device_state_tracker and its helpers;
--                Tracker/State has its constants, graces, severities and the flapping check,
--                Tracker/Texts the names and contexts of devices in alerts
--   Hostname     src/engine/hostname_registry.py, under the trigger protect_core_identity
--   Polling      src/engine/polling_targets.py
--   Unification  src/engine/unification.py: the ARP weld and singleton passes;
--                Unification/Hardware, Unification/Heuristic and Unification/Classify have the
--                hardware weld, the heuristic pass, and the trigger's repair, the classification
--                and the inventory overlay; Unification/Candidates has
--                run_smart_switch_candidate_pass, Unification/Snapshot
--                run_inventory_snapshot_sync, Unification/Consolidation
--                run_verified_switch_consolidation_pass, and Unification/Engine
--                run_unification_engine
--   Accounts     src/api/server.py: setup_status, setup_password, login, logout; Accounts/Reset has
--                recovery_request and recovery_reset, Accounts/TokenRoutes the routes of API tokens
--   Sniffer      src/pollers/dhcp_sniffer.py: _parse_bootp_dhcp and _handle_packet
--   Discovery    src/pollers/hostname_discovery.py: _parse_ptr_hostname, _read_labels_at,
--                _parse_nbstat_name and the writes of run_hostname_discovery_sweep
--   SmartSwitch  src/engine/smart_switch_pipeline.py: the loop over fields; SmartSwitch/Nsdp,
--                SmartSwitch/Escp, SmartSwitch/Ddp and SmartSwitch/Ssdp have the steps' probes and
--                parsers, SmartSwitch/Pipeline the merge of their results
--   Inference    src/engine/inference_engine.py: run_orphan_node_sweep; Inference/Dark has the
--                queries of run_dark_matter_detection, Inference/Dark/Identity,
--                Inference/Dark/Links and Inference/Dark/Pass its writes and run_inference_cycle,
--                Inference/Wap _segment_for_ip and the patterns, and Inference/Wap/Pass
--                run_wap_inference
--   Credential   src/engine/snmp_credential.py
--   Registration src/security/registration.py: the state token and the entitlement cache
--   Scheduler    src/telemetry/scheduler.py: on_tick_10, maybe_send_daily, should_nag_now, and the
--                two calls of them in src/main.py: background_polling_engine
--   Exposure     src/pollers/snmp_default_community_detector.py and
--                src/pollers/snmp_v3_available_detector.py: the body that the detectors share;
--                Exposure/Runs has the three runs
-- Each component's file keeps the names of the source. Its theorems are in child modules named for
-- what they prove, and its runs in a child module Tests.
--
-- A table is the list of its rows in the order of their row ids, and a statement of SQL is a
-- function on that list (Base/Table, Base/Keyed). A connection holds the tables of the open
-- transaction beside those last committed. An exception is a value. Times are natural numbers, read
-- by the caller. The order in which a Python set is iterated is a parameter. Parameters also stand
-- for argon2 (its verdicts on a hash, with the law that a fresh hash verifies), for the network
-- (whether a request is delivered, which page or which packets come back), for the addresses that
-- are loopback, for the characters that are printable or part of a word, for the vendor of an
-- address, and for which writes to inventory.db raise.
--
-- Loops over rows are recursion on lists. The ARP weld pass has the source's own bound of five
-- rounds. Fuel appears in the decimal printing of a number n, whose suc n rounds are enough since
-- each divides by ten, in the hexadecimal printing of n, which has n rounds and divides by 16, and
-- in the loops over the options of a DHCP packet, over the fields of a switch's reply and over the
-- names of a PTR answer, which have one round more than the packet has bytes, enough since each
-- round passes over at least one. Pointers in names are followed for the source's own twenty
-- rounds.
--
-- Subnets are IPv4 in CIDR form, and the numbers that are read from texts are made of digits.
--
-- Not modelled: SQLite itself and the schema's migrations, sockets and the pollers that only run
-- network protocols, the other HTTP routes and the main loop, certificates, the vendor's server,
-- the content of telemetry, the user interface, and logging.
pub mod Base
pub mod Net
pub mod RateLimit
pub mod Alerting
pub mod Dispatch
pub mod Tracker
pub mod Auth
pub mod ApiTokens
pub mod Gate
pub mod Accounts
pub mod Sniffer
pub mod Discovery
pub mod SmartSwitch
pub mod Hostname
pub mod Inventory
pub mod Polling
pub mod Unification
pub mod Inference
pub mod Credential
pub mod Registration
pub mod Scheduler
pub mod Exposure
