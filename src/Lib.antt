-- ===== src/Lib.antt =====
-- Verification of parts of this repository that decide what may happen to real machines or to their
-- logs: the Ansible filter that turns the inventory into PXE boot data and role variables, the program
-- that proves that the router's active block lists are what their publishers serve, the
-- collector that brings the log files of the NAS to the log server, the bounded captures of packets on
-- the router, and the backup of the k3s datastore.
--
-- The catalog filter
-- (ansible/openwrt/roles/openwrt_pxe_client_catalog/filter_plugins/openwrt_pxe_client_catalog.py)
--   Value      Python values as they come from YAML: null, bool, int, str, list and dict, with `==`,
--              `str()`, `bool()` and the dict operations. Values are immutable here.
--   Catalog/Scalars   _as_bool, _as_list, _clean_string, _first_present, _append_clean_unique
--   Catalog/Merge     _merge_nested_mapping, _mapping_legacy_mismatches
--   Catalog/Keys      the tuples of variable names at the top of the file
--   Catalog/Storage   _build_k3s_local_storage_vars, _persistent_stg_storage_vars,
--                     _build_k3s_iscsi_session_vars
--   Catalog/NodeVars  _build_base_vars, _build_terraform_stg_group_vars, the variables of the k3s
--                     agent and server and of the local model
--   Catalog/Legacy    _normalise_client, _item_key, _non_shadowed_legacy, _legacy_mismatches
--   Catalog/Client    _client_sections, _generated_pxe_host, _generated_pxe_boot,
--                     _generated_overlay_client
--   Catalog/Roles     _generated_role_client_vars, one function for each role's branch, in order
--   Catalog/Build     _sorted_inventory_hosts, _build_generated_client and
--                     build_openwrt_pxe_client_catalog, the loop over the hosts
-- An exception of the filter is the `err` of a Result, with its text.
--
-- The feed proof (ansible/openwrt/roles/openwrt_banip/files/banip_feed_proof.py)
--   FeedProof/Net       IPv4 addresses and networks, as far as the program uses `ipaddress`
--   FeedProof/Collapse  `ipaddress.collapse_addresses`
--   FeedProof/Lines     decoding a feed and splitting it into lines and words
--   FeedProof/Parse     canonical, parse_feed
--   FeedProof/Data      the stored proof, the snapshot of the kernel sets, and exceptions
--   FeedProof/Config    configuration, of the JSON object in its file
--   FeedProof/Verify    verify, failed_check
--   FeedProof/Summary   summary
-- The world is given by what its calls do: the two reads of the active sets, the download of each feed
-- and the readings of the clock are arguments. A call returns or raises, and exceptions are told apart
-- by the `except` clauses that catch them.
--
-- The collector of the NAS logs (scripts/nas_file_logs_core.py, nas_file_logs_collector.py and
-- nas_file_logs_snapshot.sh)
--   NasLogs/Snapshot   parse_snapshot; Snapshot/Script is the script that prints the snapshot
--   NasLogs/Records    completed_records
--   NasLogs/State      initial_state, validate_state; the state is a record, its JSON types included
--   NasLogs/Prepare    prepare, with matches_prefix
--   NasLogs/Collector  poll_once, atomic_save and load_state over the state file and what the log
--                      server has taken; Runs adds restarts
-- What a poll meets is an argument: the snapshot, the clock, what becomes of each save and each push.
-- A push that raises may have reached the server, and a save that raises may have replaced the file. A
-- process that dies within a poll is a poll that raises there and a restart after it. The functions
-- severity, normal_pattern and entry, which read the text of one line, and the lengths of JSON texts
-- are arguments as well: what is shown holds for any such functions.
--
-- The captures of packets on the router
-- (ansible/openwrt/roles/openwrt_security_capture/files/security_capture.py)
--   Capture/Config       config, of the JSON object in its file
--   Capture/Pcap         pcap, the check of a packet file, on its bytes
--   Capture/Station      the files that the program keeps, as a record; guards and request
--   Capture/Serve        serve and status
--   Capture/Acknowledge  artifact, acknowledged_receipts and acknowledge
-- What an operation meets is an argument: what config gives, or its exception, the lock,
-- the clock, the free storage, what tcpdump writes, and where a removal is interrupted. Capture/Steps
-- runs file operations one after the other, each of which may fail or be cut off, before it takes
-- effect, within it or after it; serve and request are such sequences. Temporary files of `publish`
-- count in a run's directory and among the acknowledgements, where the program looks at all entries.
-- The removal of an expired acknowledgement does not fail. Files have the owner and the mode that the
-- program gives them.
--
-- The backup of the k3s datastore (scripts/k3s_sqlite_backup.py)
--   Backup/Table    read_mountinfo, on ASCII text
--   Backup/Mounts   effective_mount and validate_mounts, on resolved paths and the table of mounts
--   Backup/Publish  backup, over the files of the destination
-- What the system, SQLite, tar and age answer is an argument, as is the text of the table of mounts at each
-- of the three validations. Removing the partial file or the temporary directory may raise.
-- Exceptions come from the calls; one that a signal raises between two of them is not modelled.
--
-- Base holds what the parts share: Boolean tests, lists, texts, dictionaries and results.
--
-- Choices. Integers are unbounded, as in Python; there are no floats among the inventory's values, and
-- a time is a whole number of nanoseconds. The keys of a dict are texts, and its order is the order of
-- insertion. A character that is not ASCII counts as printable in `repr`. SHA-256 and the table behind
-- `is_global`, which changes with the version of Python, are parameters. The loop of
-- `collapse_addresses` runs on fuel, twice the number of networks and one, which is enough: each round
-- takes a network, and adds one only where it removes a half.
--
-- Not modelled: reading and writing files, subprocesses and HTTPS; the parser of nft's output, the
-- snapshot and the stored state of the feed proof; aliasing between the dicts of the inventory;
-- FilterModule, which only names the function; severity, normal_pattern, entry, ssh_args and the
-- metrics of the NAS collector; the SSH export and offload_state of the captures; the
-- archive of the backup; and the other programs of the repository.
pub mod Base
pub mod Value
pub mod Catalog
pub mod FeedProof
pub mod NasLogs
pub mod Capture
pub mod Backup
