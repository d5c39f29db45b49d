-- ===== src/Lib.antt =====
-- USB Sentinel: a verification library for the C sources.
--
-- The program scans a volume. `src/core` holds what every other library stands on: status codes, paths,
-- the location policy of internal drives, JSON, findings and check results. `src/platform` calls the
-- operating system, `src/detectors` inspects the files that `src/scanner` walks over and pushes
-- findings into check results, `src/reporting` writes them out as JSON, CSV and text,
-- `src/storage` keeps the reports in files, and the command line, the windows and the local web server of
-- `src/gui_web` start scans and show reports.
--
-- Which file models which part:
--   Status             include/usbsentinel/error.h, src/core/error.c
--   Core/Path          src/core/path.c: usbs_path_join for both hosts, with snprintf as a bounded print
--   Core/Location      src/core/location.c: the split into components (Components), the name of a test's
--                      scratch directory (Scratch), the rules and the classification (Rules), and where
--                      the policy applies (Policy)
--   Core/Json          src/core/json.c: the writer (Writer) with its printed numbers (Decimal) and its
--                      calls as data (Calls); the reader's leaves (Strings) and its recursion (Reader);
--                      Document is the abstract value that both are compared with
--   Core/Vector        the growing arrays of src/core: the push onto one, which scan.c and device.c write
--                      out three times
--   Core/Device        include/usbsentinel/device.h and src/core/device.c: the volume, its identity, the
--                      device list and the enumeration
--   Core/Scan          src/core/scan.c: findings, the result of one check and of a scan, and their lists
--   Core/Env           src/core/env.c: the environment and the data directory of each system
--   Platform           include/usbsentinel/platform.h: what the operating system answers to an open, a
--                      listing and a read
--   Platform/Sha256    src/platform/sha256.c: the compression function (Compress) and the streaming hash
--   Detectors/Detector include/usbsentinel/detector.h: the contexts and the callbacks
--   Detectors/Registry src/detectors/registry.c: the four detectors over the answers of one machine
--   Detectors/Autorun  src/detectors/autorun.c: the comparisons, the search of the root and the check
--   Detectors/HashMatch  src/detectors/hash_match.c: the lazy load and its static state, and the callback
--                      (OnFile)
--   Detectors/LnkInspect  src/detectors/lnk_inspect.c: the readers (Bytes), the parser (Parse), the
--                      heuristics and the callback (OnFile)
--   Detectors/SignatureList       src/detectors/signature_list.c: the capped read of the file (FileRead), one
--                      line of it (Line), the load (Load), the binary search and the lookups (Lookup)
--   Detectors/SuspiciousFilename  src/detectors/suspicious_filename.c: the sets of extensions (Extensions),
--                      the rules and their weights (Rules), the callback (OnFile)
--   Scanner            src/scanner/scanner.c: walk_dir and what it does with an entry (Walk), the messages
--                      (Report), and usbs_scanner_scan with the lists of checks (Scan); Steps is the walk as
--                      a machine, and Events what a volume shows to it
--   Report/Csv         src/reporting/report.c: the buffer and the rows of the CSV report; Rows is what the
--                      report says, and Reader a reader by RFC 4180
--   Report/Json        src/reporting/report.c: the calls that the JSON report makes on the writer; Report is
--                      the document that they stand for
--   Report/Text        src/reporting/report.c: the lines of the text report
--   Storage            include/usbsentinel/storage.h and src/storage/storage.c: the paths and the opening of
--                      the store; the names of directories (SafeId), time stamps (Stamp), the lookup of the
--                      last scan (LastScan) and the write of a report (Files)
--   GuiWeb             src/gui_web/http_server.c: the parser of requests (Http), the lookup in a query (Query)
--                      and one connection (Connection)
-- The parts meet as in the program: the scanner walks the answers of Platform, joins paths (Core/Path), asks
-- the location policy (Core/Location) and hands each file to the callbacks of Detectors, which push findings
-- into check results (Core/Scan); the hash comparison hashes with Platform/Sha256 and looks the hash up in
-- its signature list. The reports are made of the result of a scan, the JSON one by calls of Core/Json, and go
-- to files that Storage names by the identity of Core/Device.
--
-- Conventions: a C string is the list of its bytes, and a pointer into one is what stands behind it. A
-- structure that a function writes to is an argument and a result. A NULL argument is `none` where the
-- code tests for it.
--
-- A directory is the list of what the calls on it answer, one after the other, with the answers of the
-- caller's cancel check among them, so that every course that a scan can take is one such list; a detector is
-- a function of its arguments, and what it reads of a file is in it. The disk of Storage is a function from
-- paths to contents, and a call gives the disks between its steps; what a client sends is a list of bytes for
-- each call of recv.
--
-- Parameters, for code that is not in the repository: realloc is a predicate on the size that it is asked
-- for; strtod, strtoull and strtoll answer with a value and how far they read; qsort is a function on
-- lists. What a theorem relies on of them is among its hypotheses.
--
-- Bounds and fuel: the writer's doubling loop has fuel for 64 rounds, and from 256 bytes it needs 57 at
-- most; the reader spends at most three calls for each byte, and is given 3 * n + 3; the loop over the
-- characters of a string literal reads one byte at least in each round, and is given one round more than
-- there are bytes; the binary search is given one round more than there are entries, and each round leaves
-- fewer of them; a connection is given 65536 rounds for its head and as many for its body, since each takes a
-- byte into the buffer of 65535; the loop of SHA-256 over whole blocks is given a round for each byte, and each takes 64; the
-- read of the signature file is given 2 ^ 26 + 65537 rounds, one more than the bytes that it can read. The
-- walk is by recursion over the answers of the operating system and needs no fuel.
--
-- Not modelled: the operating system's side (src/platform, but for SHA-256), the windows, the server's
-- sockets and its routes, and the program entries, since they are calls of other systems; refusals of malloc in
-- the JSON reader; log output; the refresh of the store's index.json, a cache that no lookup reads. The size of
-- a device in the text report is printed from a double, and the version text comes from the build: both are
-- parameters.
pub mod Prelude
pub mod Status
pub mod GuiWeb
pub mod Platform
pub mod Report
pub mod Storage
pub mod Scanner
pub mod Core
pub mod Detectors
