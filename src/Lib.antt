-- ===== src/Lib.antt =====
-- KvadraTop, a monitor of a Linux machine: backend/src reads /proc once a second, computes usages and
-- rates against the last reading, and broadcasts a snapshot to the browsers that are connected over
-- WebSocket. This library models the whole of backend/src, from the files to the messages, and the
-- parts of frontend/src that keep the connection and hand the messages to the dashboard.
--
-- The parts, and the files that model them:
--
--   Base          tests, lists and exceptions as values; shared by all.
--   Text          std::string, std::getline, extraction from std::istringstream, std::stoi and
--                 std::to_string over bytes. Text/Columns describes lines of columns as the kernel
--                 prints them, and what extraction reads of them.
--   Word, Time    sums and differences of uint64_t, and points of the steady clock.
--   Real          `double` as an interface with the laws of IEEE arithmetic that the theorems use;
--                 Real/Fixed is a concrete instance for runs, Real/Scan the extraction of a double.
--   Map           std::map as an ascending association list, with an order of the keys as interface;
--                 Map/Reports is about the lists that the loops over such maps make.
--   Snapshot      backend/src/metrics/MetricsSnapshot.hpp.
--   Cpu           backend/src/metrics/CpuMonitor.{hpp,cpp}: Cpu/Stat is RawStat and read_proc_stat,
--                 Cpu/Monitor compute_usage and sample, Cpu/Load the load averages.
--   Memory        backend/src/metrics/MemoryMonitor.{hpp,cpp}.
--   Network       backend/src/metrics/NetworkMonitor.{hpp,cpp}.
--   Disk          backend/src/metrics/DiskMonitor.{hpp,cpp}; Disk/Regex is is_whole_disk.
--   Process       backend/src/metrics/ProcessMonitor.{hpp,cpp}: Process/Stat is read_proc_stat,
--                 Process/User the owner, the uptime and the ticks, Process/Monitor the loop over
--                 /proc, Process/Ranking the erased pids, the sort and the cut, and sample.
--                 Process/Living describes the processes of a listing without the cache, and
--                 Process/Samples relates the samples to it.
--   Server        backend/src/server/WebSocketServer.{hpp,cpp}: Server/Session is WsSession,
--                 Server/Hub is SessionRegistry and WebSocketServer. A session that reads a request
--                 which is no upgrade answers it with Http's serve_file, with the files as they are at
--                 that moment. Server/Everywhere lifts what the handlers of a session keep to every
--                 session of the server.
--   Http          backend/src/server/HttpFileHandler.{hpp,cpp}: Http/Mime is mime_type, Http/Files is
--                 read_file and serve_file.
--   Info          backend/src/metrics/SystemInfo.{hpp,cpp}: Info/Release is the name of the system,
--                 Info/Kernel that of the kernel, Info/Gather the other members and collect.
--   Collector     backend/src/MetricsCollector.{hpp,cpp}: the monitors together, and collect.
--   Serializer    backend/src/Serializer.{hpp,cpp}: Serializer/Build is the tree that is printed,
--                 Serializer/Shape the interfaces of frontend/src/types/metrics.ts, which say what
--                 the dashboard expects of it.
--   Main          backend/src/main.cpp: Main/Args is the arguments, Main/Loop the loop and its naps,
--                 Main/Command the program from its start to its end.
--   Frontend      frontend/src/services/MetricsService.ts and what frontend/src/main.ts does with it:
--                 Frontend/Service is the class with the events that its listeners and its timer
--                 handle, Frontend/Page what the browser keeps for it, and Frontend/Dashboard puts
--                 the program and the dashboard together. Of frontend/src/components: Frontend/Table
--                 is the order and the headings of the process table, which Frontend/Shown describes
--                 without its comparison; Frontend/Escape is its escapeHtml,
--                 and Frontend/History the histories of the charts.
--
-- How they interact: main builds the collector, which builds the monitors; each round of its loop
-- collects a snapshot, serializes it and broadcasts the text, while the server accepts clients and
-- handles their events on the thread of the io_context. Server/Listening says which of the broadcast
-- messages a client hears, and Server/Clients relates this to the sessions and their queues. The
-- messages of a page are the texts that its client was sent.
--
-- State and operations. A monitor's fields are a record; `sample` returns the new record and a result,
-- which is a value or the exception thrown, so that what an exception leaves behind is visible. What
-- is read (files, directory entries, the time, sysconf, getpwuid_r) is an argument: a file is its
-- bytes, or nothing when it cannot be opened. The canonical form of a path, which depends on links, is
-- a function of the file system. std::sort is a parameter with its documented behaviour.
-- A session's pending operations of Asio and Beast are part of its state, and their completions are
-- events; handlers run one at a time, as on the one thread of the io_context, in the order in which
-- they were posted. The server is launched with one accept pending, whose handler asks for the next.
-- The calls that set the limit of time of a connection are state; that it expires is an error of the
-- operation that is pending. uint64_t arithmetic wraps at 2^64 where the source computes with it.
--
-- What the server does between two broadcasts is a list of events for each round. A broadcast is one
-- action, since the mutex of the registry guards it: it posts a handler to each registered session, and
-- the run of that handler is an event of its own.
-- In the browser a WebSocket, a timer and a callback are numbers; a callback may throw, and forEach
-- stops there. The browser's events come one at a time, in any order that its states allow.
-- An exception that leaves a handler ends the thread of the io_context, as in main's lambda: from then
-- on the model accepts and handles nothing, and broadcasts are posted in vain.
-- The signal is the number of the first read of the flag that sees it.
--
-- Bounds. Loops run over lists. There are two fuels: in Text/Decimal, where ten places are enough for
-- the decimal digits of an int, and in Main/Loop, where a unit for each read of the flag up to the
-- signal and one more are enough (Main/Stops). Values of `double` are those other than NaN.
--
-- Parameters: nlohmann::json::dump, which gives a text or throws; std::sort; weakly_canonical and
-- exists, of which the latter may throw; whether the acceptor can listen; and what gethostname,
-- sysconf, getpwuid_r and the clocks give; JSON.parse, Array.sort, localeCompare, and the callbacks
-- of the dashboard.
--
-- Not modelled: the options that timeout::suggested gives to a stream, the text of log messages, and
-- of the dashboard the markup and the formats of the numbers in its panels.
pub mod Base
pub mod Text
pub mod Word
pub mod Real
pub mod Snapshot
pub mod Cpu
pub mod Map
pub mod Memory
pub mod Time
pub mod Network
pub mod Disk
pub mod Http
pub mod Info
pub mod Collector
pub mod Serializer
pub mod Main
pub mod Frontend
pub mod Server
pub mod Process
