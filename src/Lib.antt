-- ===== src/Lib.antt =====
-- cruntm: the container runtime of this repository (include/cruntime.h and src/), as functions over
-- an explicit system.
--
-- The program is a command line in front of components that act on the system by calls of the
-- kernel, of the C library and of the shell. A component keeps no state of its own: what it changes
-- is the records of include/cruntime.h that its caller passes, and the system. So a function of the
-- program is a function from the trace of the calls made so far to its result and the longer trace;
-- a `Host` answers each call, and may answer it by anything that was called before. A theorem holds
-- for every host unless it names what it needs of one. The parts, and their files:
--
--   * include/cruntime.h: Types. Records with the fields of the structs. A `char` array is its text,
--     an array with a count is a list, a pointer that may be NULL is an `Option`.
--   * The system: Host (the calls and their replies), Host/Files (open descriptors and complete
--     writes of a trace), Host/Keeps (code that closes what it opens), Host/Streams (the open streams
--     of a trace), Host/Mounts (successful mounts), Host/Plans (plans of calls or commands of
--     which some have to succeed, and the runs that follow them), Host/Commands (shell commands).
--   * C texts: Text (snprintf, strncpy, strchr, strrchr, atoi, %d and %u), Text/Decimal and Text/Laws.
--   * src/cgroup/cgroup.c: Cgroup, with Create, Descriptors, Weight, Limits, Stats and Control. The
--     report of cgroup_get_stats, and that of storage_get_stats, is a list of calls of snprintf with
--     their places in the caller's buffer: Buffer.
--   * src/namespace/namespace.c: Namespace, with Flags, Mounts, Attempts, Pivot, Users and
--     Persist. Descriptors is about the descriptors of both.
--   * src/network/network.c: Network, with Script, Bridge, Veth, Ports, Address, Setup and Success.
--     Firewall has the rules that iptables holds, and Teardown what is left of them behind a
--     container. The texts of the commands are in Commands.
--   * src/storage/storage.c: Storage, with Directories, Layers, Lower, Overlay, Unmount and Counting,
--     and with Streams, which is also about the streams of src/utils/utils.c.
--   * src/utils/utils.c: Utils, with Trim, Split, Size, Format, Identifier and Files, and its log:
--     Log, with Lines and Colors.
--   * src/main.c: Main (the options of run), Main/Run (the command run), Main/Program (the global
--     options, ps and the dispatch), with Main/Publish, Main/Repeated, Main/Ports,
--     Main/Volumes, Main/Options, Main/Starts and Main/Crashes.
--   * Base: shared names, lists measured by native numbers, and the integers of the `int64_t` fields.
--   * Tests: the theorems at concrete inputs, on the concrete hosts of Tests/Hosts.
--
-- A function of the source has its name here; a part of a longer function that stands alone has a
-- name for what it does. A loop over an array is a recursion on the list, a loop over the bytes of a
-- text one on the text. A result in a caller's buffer is returned beside the code.
--
-- Bounds and fuel: an `int64_t` keeps its wrap-around in cpu_weight, a `uint16_t` port and a
-- `uint32_t` address their modulus, and `buffer_size - offset` its modulus 2 ^ 64. `digits` has one
-- unit of fuel more than the number that it prints, which has no more digits than that.
-- count_layers, the loop over readdir, has the number of calls of readdir as its fuel: a directory
-- may be listed without end, and Storage/Counting shows what fuel is enough for a listing with one.
-- The room that network_allocate_ip leaves for strncat wraps around as a `size_t` does. Where the
-- language or the C library leaves the result open, the definitions are for values inside the range:
-- atoi for a text that fits an int, the `int` of storage_get_stats for fewer than 2 ^ 31 layers, and
-- split_string for a delimiter other than NUL. The local array of generate_id holds what the host
-- gives it until it is read into.
--
-- Taken from elsewhere, as parameters: inet_pton and inet_ntop (`Inet`), the doubles of strtod and
-- printf (`Doubles` and print_megabytes), localtime and strftime (local_time), getopt_long
-- (`Getopt`), and the functions of src/core/runtime.c (`Runtime`), a file that the build names and
-- the repository does not hold.
--
-- Not modelled: the messages that the other components give to cr_log, none of them at LOG_FATAL.
-- A text of 64 bytes or more that strncpy leaves without a NUL is taken to end at its 64 bytes. A
-- read that fails after its file was opened, and an ftell that fails, give no bytes. The scripts
-- of examples/ and windows/ and the documents are no part of it.
pub mod Base
pub mod Text
pub mod Types
pub mod Host
pub mod Buffer
pub mod Cgroup
pub mod Namespace
pub mod Descriptors
pub mod Commands
pub mod Network
pub mod Storage
pub mod Utils
pub mod Log
pub mod Main
pub mod Tests
