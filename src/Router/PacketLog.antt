-- ===== src/Router/PacketLog.antt =====
-- Assignment2/src/router/sr_dumper.c, and `sr_log_packet` of sr_vns_comm.c: the file of the packets, in the
-- format of tcpdump. A file is the bytes written to it; `fwrite` writes what it is given. The time that
-- `gettimeofday` gives is an argument.
pub mod Reading
use computer_networks.Prelude.{
  ℕ, ◌%◌, ◌/◌, ◌++◌, [], ◌∷◌, Option, none, some, Bool, if◌then◌else◌, ◌||◌, leb, ltb, min, Outcome,
  returns, ◌>>=◌, bytes_eq,
}
use computer_networks.Prelude.Words.{store16}
use computer_networks.Router.Frame.{Bytes, store32, copy_from}

abbrev pub tcpdump_magic : ℕ
tcpdump_magic = 2712847316

abbrev pub pcap_version_major : ℕ
pcap_version_major = 2

abbrev pub pcap_version_minor : ℕ
pcap_version_minor = 4

abbrev pub linktype_ethernet : ℕ
linktype_ethernet = 1

abbrev pub packet_dump_size : ℕ
packet_dump_size = 1024

pub record Timeval : Type 0 where
  pub tv_sec : ℕ
  pub tv_usec : ℕ

-- `struct pcap_pkthdr`
pub record PcapPkthdr : Type 0 where
  pub ts : Timeval
  pub caplen : ℕ
  pub len : ℕ

-- `sf_write_header`, of `struct pcap_file_header`: what is added to the file.
unfoldable pub sf_write_header : ℕ → ℕ → ℕ → Bytes
sf_write_header linktype thiszone snaplen =
    store32 tcpdump_magic
    ++ (store16 pcap_version_major
        ++ (store16 pcap_version_minor
            ++ (store32 thiszone ++ (store32 0 ++ (store32 snaplen ++ store32 linktype)))))

-- The name "-" is the standard output; `opened` is whether `fopen` succeeds.
unfoldable pub sr_dump_open : Bytes → Bool → ℕ → ℕ → Option Bytes
unfolding sf_write_header
sr_dump_open fname opened thiszone snaplen =
    if bytes_eq fname (45 ∷ []) || opened
    then some (sf_write_header linktype_ethernet thiszone snaplen)
    else none

-- `struct pcap_sf_pkthdr`, whose times are 32 bits wide.
abbrev pub sf_hdr : PcapPkthdr → Bytes
sf_hdr h = store32 h.ts.tv_sec ++ (store32 h.ts.tv_usec ++ (store32 h.caplen ++ store32 h.len))

unfoldable pub sr_dump : Bytes → PcapPkthdr → Bytes → Outcome Bytes
sr_dump fp h sp = copy_from sp 0 h.caplen >>= λ body. returns (fp ++ (sf_hdr h ++ body))

-- `len` is the 32 bits of an `int`: a negative one is the smaller, and as `caplen` it is huge again.
unfoldable pub log_header : Timeval → ℕ → PcapPkthdr
log_header ts len =
    let negative = leb 2147483648 len in
    let size = if negative then len else min packet_dump_size len in
    record {
      ts = ts;
      caplen = size;
      len = if negative || ltb size packet_dump_size then size else packet_dump_size;
    }

-- Nothing happens without a file.
unfoldable pub sr_log_packet : Option Bytes → Timeval → Bytes → ℕ → Outcome (Option Bytes)
unfolding sr_dump log_header
sr_log_packet none ts buf len = returns none
sr_log_packet (some fp) ts buf len =
    sr_dump fp (log_header ts len) buf >>= λ fp'. returns (some fp')
