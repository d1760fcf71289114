-- ===== src/Lib.antt =====
-- ZCC Log Explorer: an investigation workspace for support bundles of a client connector.
--
-- A bundle comes in as an untrusted ZIP archive. zcc_diag/bundle.py extracts it into a fresh
-- directory; zcc_diag/log_index.py reads its logs into an index of lines; zcc_diag/query.py
-- searches the index; zcc_diag/raw_view.py pages and colours it; zcc_diag/fields.py harvests fields
-- out of the JSON embedded in log lines; zcc_diag/session_recon.py, timeline.py, line_buckets.py and
-- flow_ledger.py tell what the lines are about; zcc_diag/relations.py sets findings beside each other;
-- zcc_diag/error_catalog.py explains codes; zcc_diag/pcap_review.py parses the packet captures of the
-- bundle.
--
-- Bundle models bundle.py: Names the guards on a member's name (_safe_target, _is_symlink), Archive
-- the limits, the archives and the state of an extraction, Members the loop over the members with
-- the copy of a stream, Extract _extract_zip, open_bundle and list_log_files, Workers the thread
-- pool as steps of workers in any order. The state is a record with the files, the skipped members,
-- the count of bytes and, beside the program's own fields, the directories made and the bytes put
-- on disk. A step that raises keeps the state it had reached. pathlib, the file system and zipfile
-- are the fields of the record System. The fuel of extract_zip counts the levels of nesting;
-- enough_fuel is one more than the limit on depth, where the program itself stops. In the
-- sequential model of the pool each job runs to its end, and the first exception in the order of
-- submission is raised, as f.result() does. The compression ratio is compared without rounding; for
-- sizes within the default limits the division of floats agrees. The errors of mkdir, open and
-- write, the restored time stamps and the removal of directories are not modelled.
--
-- Query models query.py: Tokens the tokenizer, its three regular expressions written out as
-- scanners; Atoms the leaves and the time filters; Node the tree and QueryNode.matches; Parser the
-- class _Parser, a position being the list of tokens that are left; Search find_matches. The record
-- Engine holds what is Python's: regular expressions, lower, upper, isspace, int, strptime. A time
-- is a number of microseconds from 0001-01-01 UTC; a text is the list of its code points. The
-- tokenizer has a unit of fuel for each character and the parser one for each token, and one more.
--
-- Fields models the embedded-JSON part of fields.py: Json the scanner, where a position is what is
-- left of the text, and Harvest iter_json_objects, flatten_json and harvest_json. The pattern of
-- numbers, chr, str and == on values are the fields of the record Library. A scan of n characters
-- has 2 n + 2 units of fuel: each round reads a character or goes from a container to a value in
-- it.
--
-- Packet models pcap_review.py. A frame is a list of byte values, `a & 0xC0` and the like are
-- written with `/` and `%`, an index out of range raises and a slice never does. Blocks reads the
-- blocks of a file and the packets in them, a generator being the list of what it yields with the
-- exception that ends it; Frames models _parse_frame and Full _parse_frame_full and
-- _extract_tcp_seq, where an address is kept as its bytes; Names, Answers and Tls the DNS and TLS
-- parsers; Text the texts of endpoints, flags and previews; Endpoints and Counters the tables;
-- Summary the state of scan_pcap, Signals what it counts of a packet and Scan its loop; Streams
-- follow_streams. The loops over blocks, options, extensions and extension headers have a unit of
-- fuel for each byte, and one more. datetime.fromtimestamp, the text of an IPv6 address and the
-- opening of the file are arguments.
--
-- Viewer models log_index.py and the scans of raw_view.py: Build _iter_log_files and build_index,
-- with the pattern of a log line as an argument and the files of the bundle as a list; Index the
-- searches and the context of a line, Pages paginate, Severity the colour of a record and the level
-- filter. The texts of lines are lower-cased by an argument; a page below 1 is the number 0.
--
-- Ledger models flow_ledger.py: Closes _parse_close and _dedupe_carriers, what the patterns capture being
-- an argument; Store the rows of the store and the statements that build_ledger reads them with,
-- SQLite's LIKE being an argument; Build build_ledger, where a record holds the line it stands on and
-- the closes that are left stand for the index j; Rows the totals and the tables by destination, hour
-- and protocol, where none stands for an exception, Running the counters that the ledger leaves out. A number that a pattern has captured is read
-- without an exception. A table of the store is the list of its rows in the order of the statement; the
-- identifiers of a set come in the order of their last records.
--
-- Timeline models session_recon.py and timeline.py: Phases the phases of lines and their lanes, Session
-- reconstruct_session, Window build_timeline and flatten_events, Diff diff_windows. Regular expressions,
-- strip and lower are arguments, and so is what id_inventory.py finds in a text. A line always has a
-- time. A set is a list without repetitions, in the order in which its members came; the three counters
-- of a session are counted apart.
--
-- Buckets models line_buckets.py: Rules the tables of patterns, Lines classify_line and line_shape,
-- Report build_buckets, lines_for and pairs_sorted. re.search, re.sub and strip are arguments; the
-- percentages of a report are not modelled.
--
-- Relations models relations.py: Events the events of the correlators, which hold their times under
-- several names, and the windows around a finding, Near get_triggers, get_effects and
-- get_co_occurring. A datetime is the time of its wall clock, with or without a zone. How a value and
-- a pair of times are shown as text are arguments; get_config_at_time and get_relations are not
-- modelled.
--
-- Catalog models error_catalog.py: catalog_entries, which makes entries of the rows of the tables, and
-- lookup_entries. The tables, str, strip, title and casefold are arguments; the indexes of aliases and
-- phrases are not modelled.
--
-- Tests holds concrete runs and, for each theorem with hypotheses, an input that meets them.
--
-- Not modelled: the detectors, correlators and root-cause texts, which are regular expressions over
-- log lines and prose; the SQLite store but for the rows that the ledger reads; the extractors of
-- policies, posture and telemetry; the tables of documented codes; the Streamlit pages; the command
-- line.
pub mod Common
pub mod Query
pub mod Bundle
pub mod Packet
pub mod Fields
pub mod Ledger
pub mod Timeline
pub mod Buckets
pub mod Relations
pub mod Catalog
pub mod Viewer
mod Tests
