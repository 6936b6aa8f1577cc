-- ===== src/Router/PacketLog/Reading.antt =====
-- A reader of the packet log, by the structures of sr_dumper.h.
use mathlib.Core.List.{append_assoc, append-nil}
use mathlib.Core.Bool.{Bool}
use computer_networks.Prelude.{
  bytes_eq, ℕ, zero, suc, ◌+◌, ◌*◌, ◌^◌, ◌%◌, ◌/◌, ◌<◌, ◌≤◌, ◌≡◌, refl, sym, ap, ◌∙◌, List, [], ◌∷◌,
  ◌++◌, map, Option, none, some, All, if◌then◌else◌, ◌||◌, Bool-cases, inl, inr, take-eq_self, true,
  false, leb, ltb, ◌==◌, min, arith, take, drop, length, length-append, length-take, take-prefix,
  drop-prefix, Outcome, returns, undefined, assert, ◌>>=◌, ◌>>◌,
}
use computer_networks.Router.Frame.{Bytes, copy_from, read32}
use computer_networks.Router.PacketLog.{
  tcpdump_magic, packet_dump_size, linktype_ethernet, sf_write_header, Timeval, PcapPkthdr, sf_hdr,
  sr_dump_open, log_header, sr_dump, sr_log_packet,
}

-- A packet as the log has it: its header, and the bytes that were kept.
pub record Captured : Type 0 where
  pub header : PcapPkthdr
  pub body : Bytes

unfoldable read_records : ℕ → Bytes → Outcome (List Captured)
read_records zero file = returns []
read_records (suc n) [] = returns []
read_records (suc n) (c ∷ cs) = do
  tv_sec ← read32 (c ∷ cs) 0
  tv_usec ← read32 (c ∷ cs) 4
  caplen ← read32 (c ∷ cs) 8
  len ← read32 (c ∷ cs) 12
  body ← copy_from (c ∷ cs) 16 caplen
  rest ← read_records n (drop (16 + caplen) (c ∷ cs))
  let ts : Timeval = record { tv_sec = tv_sec; tv_usec = tv_usec }
  returns (record { header = record { ts = ts; caplen = caplen; len = len }; body = body } ∷ rest)

-- The length kept of a packet, and what is kept.
unfoldable pub read_log : Bytes → Outcome (ℕ × List Captured)
unfolding read_records
read_log file = do
  magic ← read32 file 0
  snaplen ← read32 file 16
  packets ← assert (magic == tcpdump_magic) >> read_records (length file) (drop 24 file)
  returns (snaplen, packets)

-- Packets that are logged one after another, each with its time.
unfoldable pub log_all : Option Bytes → List (Timeval × Bytes) → Outcome (Option Bytes)
unfolding sr_log_packet
log_all logfile [] = returns logfile
log_all logfile ((ts, packet) ∷ rest) =
    sr_log_packet logfile ts packet (length packet) >>= λ logfile'. log_all logfile' rest

-- What fits the words of the file: times of 32 bits, and a packet whose length is an `int`.
abbrev pub Fits : Timeval × Bytes → Type 0
Fits (ts, packet) = (ts.tv_sec < 2 ^ 32) × (ts.tv_usec < 2 ^ 32) × (length packet < 2 ^ 31)

-- The first 1024 bytes of a packet.
abbrev pub capture : Timeval × Bytes → Captured
capture (ts, packet) = record {
  header = record {
    ts = ts;
    caplen = min packet_dump_size (length packet);
    len = min packet_dump_size (length packet);
  };
  body = take packet_dump_size packet;
}

abbrev word : ℕ → ℕ
word x = x % 256 + 256 * (x / 256 % 256) + 65536 * (x / 65536 % 256 + 256 * (x / 16777216 % 256))

word_lem : (x : ℕ) → x < 2 ^ 32 → word x ≡ x
word_lem x h = omega arith

log_header-capture :
    (ts : Timeval) (packet : Bytes)
    → length packet < 2 ^ 31
    → log_header ts (length packet) ≡ (capture (ts, packet)).header
unfolding log_header
log_header-capture ts packet h =
    let n = length packet in
    let small : leb 2147483648 n ≡ false = ground arith in
    let kept : (if ltb (min packet_dump_size n) packet_dump_size
          then min packet_dump_size n
          else packet_dump_size)
        ≡ min packet_dump_size n =
      ground (arith, h) in
    ap
      (λ b.
        let size = if b then n else min packet_dump_size n in
        record {
          ts = ts;
          caplen = size;
          len = if b || ltb size packet_dump_size then size else packet_dump_size;
        })
      small
    ∙ ap (λ l. record { ts = ts; caplen = min packet_dump_size n; len = l }) kept

-- What is written for a packet.
abbrev entry : Captured → Bytes
entry p = sf_hdr p.header ++ p.body

abbrev entries : List (Timeval × Bytes) → Bytes
entries [] = []
entries (p ∷ rest) = entry (capture p) ++ entries rest

take-min : (n : ℕ) (xs : Bytes) → take (min n (length xs)) xs ≡ take n xs
take-min n xs = elim (Bool-cases (leb n (length xs))) [
  | inl e ↦ ap (λ k. take k xs) (ground (arith, e))
  | inr e ↦
      take-eq_self (min n (length xs)) xs (ground (arith, e))
      ∙ sym (take-eq_self n xs (ground (arith, e)))
]

sr_log_packet_lem :
    (fp : Bytes) (ts : Timeval) (packet : Bytes)
    → length packet < 2 ^ 31
    → sr_log_packet (some fp) ts packet (length packet)
      ≡ returns (some (fp ++ entry (capture (ts, packet))))
unfolding sr_log_packet sr_dump
sr_log_packet_lem fp ts packet h =
    let n = length packet in
    let fits : leb (0 + min packet_dump_size n) n ≡ true = ground (arith, h) in
    ap (λ h. sr_dump fp h packet >>= λ fp'. returns (some fp')) (log_header-capture ts packet h)
    ∙ ap
        (λ b.
          ((if b then returns (take (min packet_dump_size n) packet) else undefined) >>= λ body.
          returns (fp ++ (sf_hdr (capture (ts, packet)).header ++ body)))
          >>= λ fp'. returns (some fp'))
        fits
    ∙ ap (λ body. returns (some (fp ++ (sf_hdr (capture (ts, packet)).header ++ body))))
        (take-min packet_dump_size packet)

log_all_lem :
    (fp : Bytes) (packets : List (Timeval × Bytes))
    → All Fits packets
    → log_all (some fp) packets ≡ returns (some (fp ++ entries packets))
unfolding log_all
log_all_lem fp [] h = ap (λ x. returns (some x)) (sym (append-nil fp))
log_all_lem fp ((ts, packet) ∷ rest) (h, hs) =
    ap (λ o. o >>= λ logfile'. log_all logfile' rest) (sr_log_packet_lem fp ts packet h.2)
    ∙ log_all_lem (fp ++ entry (capture (ts, packet))) rest hs
    ∙ ap (λ x. returns (some x)) (append_assoc fp (entry (capture (ts, packet))) (entries rest))

read_record :
    (n : ℕ) (p : Captured) (rest : Bytes)
    → p.header.ts.tv_sec < 2 ^ 32
    → p.header.ts.tv_usec < 2 ^ 32
    → p.header.caplen < 2 ^ 32
    → p.header.len < 2 ^ 32
    → length p.body ≡ p.header.caplen
    → read_records (suc n) (entry p ++ rest) ≡ (read_records n rest >>= λ ps. returns (p ∷ ps))
unfolding read_records
read_record n p rest a b c d e =
    let file = entry p ++ rest in
    let size = length-append p.body rest in
    let later = λ (sec usec caplen len : ℕ). copy_from file 16 caplen >>= λ body.
    read_records n (drop (16 + caplen) file) >>= λ ps.
    let ts : Timeval = record { tv_sec = sec; tv_usec = usec } in
    let header : PcapPkthdr = record { ts = ts; caplen = caplen; len = len } in
    let first : Captured = record { header = header; body = body } in returns (first ∷ ps) in
    let there : leb (16 + p.header.caplen) (length file) ≡ true = ground (arith, e, size) in
    let ts = p.header.ts in
    let n_kept = p.header.caplen in
    ap (λ x. later x (word ts.tv_usec) (word n_kept) (word p.header.len)) (word_lem ts.tv_sec a)
    ∙ ap (λ x. later ts.tv_sec x (word n_kept) (word p.header.len)) (word_lem ts.tv_usec b)
    ∙ ap (λ x. later ts.tv_sec ts.tv_usec x (word p.header.len)) (word_lem n_kept c)
    ∙ ap (λ x. later ts.tv_sec ts.tv_usec n_kept x) (word_lem p.header.len d)
    ∙ ap
        (λ t. (if t then returns (take n_kept (p.body ++ rest)) else undefined) >>= λ body.
          read_records n (drop (16 + n_kept) file) >>= λ ps.
          returns (record { header = p.header; body = body } ∷ ps))
        there
    ∙ ap
        (λ body. read_records n (drop (16 + n_kept) file) >>= λ ps.
          returns (record { header = p.header; body = body } ∷ ps))
        (take-prefix p.body rest n_kept (sym e))
    ∙ ap (λ x. read_records n x >>= λ ps. returns (p ∷ ps))
        (drop-prefix (entry p) rest (16 + n_kept) 0 (omega (arith, e)))

capture_size :
    (ts : Timeval) (packet : Bytes)
    → length (capture (ts, packet)).body ≡ (capture (ts, packet)).header.caplen
capture_size ts packet = length-take packet_dump_size packet

read_records-entries :
    (n : ℕ) (packets : List (Timeval × Bytes))
    → All Fits packets
    → length packets ≤ n
    → read_records n (entries packets) ≡ returns (map capture packets)
unfolding read_records
read_records-entries zero [] h k = refl
read_records-entries (suc n) [] h k = refl
read_records-entries zero (p ∷ rest) h k = absurd (omega (arith, k))
read_records-entries (suc n) ((ts, packet) ∷ rest) (h, hs) k =
    read_record n (capture (ts, packet)) (entries rest) h.0 h.1 (ground arith) (ground arith)
      (capture_size ts packet)
    ∙ ap (λ o. o >>= λ ps. returns (capture (ts, packet) ∷ ps))
        (read_records-entries n rest hs (omega (arith, k)))

length-entries : (packets : List (Timeval × Bytes)) → length packets ≤ length (entries packets)
length-entries [] = omega arith
length-entries ((ts, packet) ∷ rest) =
    omega (arith, length-entries rest, length-append (take packet_dump_size packet) (entries rest))

or_true : (b : Bool) → (b || true) ≡ true
or_true true = refl
or_true false = refl

-- A log that is opened for the size that sr_main.c gives, and to which packets are written one after another,
-- is read again: every packet is there, in order, with its time and its first 1024 bytes, but not with its
-- length, where it was longer. The file can be opened, the times have 32 bits, and packets are shorter than
-- 2^31 bytes.
pub log_all-read_log :
    (fname : Bytes) (packets : List (Timeval × Bytes))
    → All Fits packets
    → (file : Bytes) × (log_all (sr_dump_open fname true 0 packet_dump_size) packets
        ≡ returns (some file))
      × (read_log file ≡ returns (packet_dump_size, map capture packets))
unfolding read_log sr_dump_open sf_write_header
log_all-read_log fname packets h =
    let head = sf_write_header linktype_ethernet 0 packet_dump_size in
    (
      head ++ entries packets,
      ap (λ b. log_all (if b then some head else none) packets) (or_true (bytes_eq fname (45 ∷ [])))
          ∙ log_all_lem head packets h,
      ap (λ o. o >>= λ ps. returns (packet_dump_size, ps))
          (read_records-entries (length (head ++ entries packets)) packets h
            (omega (arith, length-entries packets))),
    )
