-- ===== src/Stcp/Framing.antt =====
-- Assignment3/src/network_io_tcp.c: packets over a stream of bytes, each behind its length. What the calls
-- of `read` and `write` return, one after the other, is an argument.
pub mod RoundTrip
use computer_networks.Prelude.{
  ℕ, zero, suc, ◌+◌, ◌-◌, ◌*◌, ◌/◌, ◌%◌, ◌^◌, List, [], ◌∷◌, ◌++◌, Bool, true, false, if◌then◌else◌,
  ◌==◌, ltb, leb, take, drop, length, min, Outcome, returns, undefined, assert, ◌>>=◌, ◌>>◌, Bytes,
}

-- A call returns a positive number (`moves k` is `k + 1`), 0, or -1.
pub data Call : Type 0 where
  moves : ℕ → Call
  ends : Call
  fails : Call

-- What `_tcp_io` comes to: all bytes are moved; it returns -1 (`true`) or 0; or it waits for a call to
-- return. With what was moved, what is left of the source and the calls still to come.
pub data Io : Type 0 where
  all : Bytes → Bytes → List Call → Io
  stops : Bool → Bytes → Bytes → List Call → Io
  waits : Io

abbrev pub prepend : Bytes → Io → Io
prepend bytes (all moved left calls) = all (bytes ++ moved) left calls
prepend bytes (stops error moved left calls) = stops error (bytes ++ moved) left calls
prepend bytes waits = waits

-- `_tcp_io`: a call moves the next bytes of the source, which is the socket for `read`, the buffer for `write`.
unfoldable pub tcp_io : List Call → Bytes → ℕ → Outcome Io
tcp_io calls source zero = returns (all [] source calls)
tcp_io [] source (suc n) = returns waits
tcp_io (fails ∷ calls) source (suc n) = returns (stops true [] source calls)
tcp_io (ends ∷ calls) source (suc n) = returns (stops false [] source calls)
tcp_io (moves k ∷ calls) source (suc n) = do
  assert (leb (suc k) (suc n))
  rest ← tcp_io calls (drop (suc k) source) (n - k)
  returns (prepend (take (suc k) source) rest)

-- `htons`, in memory.
abbrev pub network16 : ℕ → Bytes
network16 x = x / 256 % 256 ∷ x % 256 ∷ []

-- What `_network_send_packet` writes, and the calls to come; the bytes already written stay with the peer.
pub data Sent : Type 0 where
  sent : Bytes → List Call → Sent
  not_sent : Sent
  still_sending : Sent

abbrev pub sent_behind : Bytes → Io → Sent
sent_behind before (all moved left calls) = sent (before ++ moved) calls
sent_behind before (stops true moved left calls) = not_sent
sent_behind before (stops false moved left calls) = sent (before ++ moved) calls
sent_behind before waits = still_sending

-- The body, once the length is written. A `write` that returns 0 ends a loop without an error.
abbrev pub send_body : Bytes → Io → Outcome Sent
send_body src waits = returns still_sending
send_body src (stops true moved left calls) = returns not_sent
send_body src (stops false moved left calls) =
    tcp_io calls src (length src) >>= λ body. returns (sent_behind moved body)
send_body src (all moved left calls) =
    tcp_io calls src (length src) >>= λ body. returns (sent_behind moved body)

-- `_network_send_packet` on a connected socket.
unfoldable pub network_send_packet : List Call → Bytes → Outcome Sent
unfolding tcp_io
network_send_packet calls src =
    tcp_io calls (network16 (length src)) 2 >>= λ head. send_body src head

-- What `_network_recv_packet` returns: a length, with the bytes that it stored, what is left in the
-- stream and the calls to come; 0, or -1.
pub data Received : Type 0 where
  received : ℕ → Bytes → Bytes → List Call → Received
  not_received : Bool → Received
  still_waiting : Received

-- The rest of a packet that is too long; its outcome is ignored.
abbrev pub discarded : ℕ → Bytes → Io → Received
discarded packet_len dst (all moved left calls) = received packet_len dst left calls
discarded packet_len dst (stops error moved left calls) = received packet_len dst left calls
discarded packet_len dst waits = still_waiting

-- The body, whose length was read before.
abbrev pub receive_body : ℕ → ℕ → Io → Outcome Received
receive_body packet_len max_len waits = returns still_waiting
receive_body packet_len max_len (stops error moved left calls) = returns (not_received error)
receive_body packet_len max_len (all dst left calls) =
    if min packet_len max_len == 0
    then returns (not_received false)
    else if ltb max_len packet_len
    then (tcp_io calls left (packet_len - max_len) >>= λ dummy.
        returns (discarded packet_len dst dummy))
    else returns (received packet_len dst left calls)

-- `ntohs` of the first two bytes that were read.
abbrev pub receive_length : ℕ → Io → Outcome Received
receive_length max_len waits = returns still_waiting
receive_length max_len (stops error moved left calls) = returns (not_received error)
receive_length max_len (all (a ∷ b ∷ []) left calls) =
    let packet_len = 256 * a + b in
    tcp_io calls left (min packet_len max_len) >>= λ body. receive_body packet_len max_len body
receive_length max_len (all moved left calls) = returns still_waiting

-- `_network_recv_packet` on a connected socket.
unfoldable pub network_recv_packet : List Call → Bytes → ℕ → Outcome Received
unfolding tcp_io
network_recv_packet calls stream max_len =
    tcp_io calls stream 2 >>= λ head. receive_length max_len head
