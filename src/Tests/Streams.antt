-- ===== src/Tests/Streams.antt =====
-- The theorems on streams and on the files behind them at concrete inputs.
use cruntm.Base.{[], take, length}
use cruntm.Text.{Bytes, codes}
use cruntm.Host.{Host, Trace, Call, ftell, fread, Reply, value}
use cruntm.Host.Streams.{KeepsStreams}
use cruntm.Utils.{generate_id, read_file, write_file}
use cruntm.Utils.Files.{text_of, path_of}
use cruntm.Storage.{get_directory_size, storage_get_stats}
use cruntm.Storage.Streams.{streams-KeepsStreams}
use cruntm.Main.Program.{default_ctx}
use cruntm.Tests.Hosts.{accepting}

-- A system with files.
unfoldable pub keep_files : Trace → Call → Reply
keep_files t (ftell f) = value (length (text_of t (path_of t f)))
keep_files t c = value 5

unfoldable pub deliver : Trace → Call → Bytes
deliver t (fread f n) = take n (text_of t (path_of t f))
deliver t c = []

abbrev storing : Host
storing = record { answer = keep_files; input = deliver }

abbrev resolv : Bytes
resolv = codes "/etc/resolv.conf"

abbrev line : Bytes
line = codes "nameserver 1.1.1.1"

streams-KeepsStreams_example :
    KeepsStreams (generate_id accepting 65)
    × KeepsStreams (read_file accepting resolv)
    × KeepsStreams (write_file accepting resolv line)
    × KeepsStreams (get_directory_size accepting resolv)
    × KeepsStreams (storage_get_stats accepting (λ n. []) 3 default_ctx 65)
streams-KeepsStreams_example = streams-KeepsStreams accepting 65 3 resolv line default_ctx (λ n. [])
