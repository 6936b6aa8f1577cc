-- ===== src/Stcp/Tests/Wire.antt =====
-- Runs of the network layer on small inputs.
use computer_networks.Prelude.{
  ◌<◌, ◌≡◌, refl, List, [], ◌∷◌, ◌++◌, none, some, true, All, arith, take, drop, length, replicate,
  returns, Bytes,
}
use computer_networks.Stcp.PacketQueue.{update}
use computer_networks.Stcp.World.{Context, World, fresh_context, get_context}
use computer_networks.Stcp.Transport.{
  make_segment, gather, network_send, network_receive, network_round,
}
use computer_networks.Stcp.Transport.Receive.{network_send-receive}
use computer_networks.Stcp.Framing.{Call, sent, received, network_send_packet, network_recv_packet}
use computer_networks.Stcp.Framing.RoundTrip.{chunks, send-recv_packet, network_recv_packet-long}

abbrev packet : Bytes
packet = 7 ∷ 8 ∷ 9 ∷ []

abbrev cut_write : List Call
cut_write = chunks (1 ∷ []) (chunks (1 ∷ 0 ∷ []) [])

abbrev cut_read : List Call
cut_read = chunks (0 ∷ 0 ∷ []) (chunks (2 ∷ []) [])

send-recv_packet_example :
    (wire : Bytes) × (network_send_packet cut_write packet ≡ returns (sent wire []))
    × (network_recv_packet cut_read (wire ++ 4 ∷ []) 1500 ≡ returns (received 3 packet (4 ∷ []) []))
send-recv_packet_example =
    send-recv_packet packet (4 ∷ []) (1 ∷ []) (1 ∷ 0 ∷ []) (0 ∷ 0 ∷ []) (2 ∷ []) [] [] 1500
      (omega arith) (omega arith) (omega arith) refl refl refl refl

network_recv_packet-long_example :
    network_recv_packet
      (chunks (1 ∷ []) (chunks (1 ∷ []) (chunks (0 ∷ []) [])))
      (0 ∷ 3 ∷ 7 ∷ 8 ∷ 9 ∷ 4 ∷ [])
      2
    ≡ returns (received 3 (7 ∷ 8 ∷ []) (4 ∷ []) [])
network_recv_packet-long_example =
    network_recv_packet-long packet (4 ∷ []) (1 ∷ []) (1 ∷ []) (0 ∷ []) [] 2 (omega arith)
      (omega arith) (omega arith) refl refl refl

-- One end of a connection, with the address of the other.
abbrev end_context : Context
end_context = record fresh_context { peer_addr = 2 ∷ 0 ∷ 0 ∷ 99 ∷ [] }

abbrev end_world : World
end_world = record {
  heap = λ p. none;
  global_ctx = some end_context ∷ [];
  listen_table = [] ∷ [];
  errno = 0;
}

abbrev segment : Bytes
segment = 0 ∷ 80 ∷ 0 ∷ 99 ∷ replicate 16 0 ++ 5 ∷ []

makes : make_segment end_world 0 (0 ∷ 80 ∷ []) (replicate 20 0 ∷ (5 ∷ []) ∷ []) ≡ returns segment
unfolding make_segment gather get_context
makes = refl

All-bytes : All (λ b. b < 256) segment
All-bytes = (
  omega arith,
  (
    omega arith,
    (
      omega arith,
      (
        omega arith,
        (
          omega arith,
          (
            omega arith,
            (
              omega arith,
              (
                omega arith,
                (
                  omega arith,
                  (
                    omega arith,
                    (
                      omega arith,
                      (
                        omega arith,
                        (
                          omega arith,
                          (
                            omega arith,
                            (
                              omega arith,
                              (
                                omega arith,
                                (
                                  omega arith,
                                  (omega arith, (omega arith, (omega arith, (omega arith, tt)))),
                                ),
                              ),
                            ),
                          ),
                        ),
                      ),
                    ),
                  ),
                ),
              ),
            ),
          ),
        ),
      ),
    ),
  ),
)

network_send-receive_example :
    (sent_packet : Bytes) × (v' : World) × (v'' : World) × (network_send end_world 0
        (0 ∷ 80 ∷ [])
        4
        (1, 2)
        (replicate 20 0 ∷ (5 ∷ []) ∷ [])
      ≡ returns sent_packet)
    × (take 16 sent_packet ≡ take 16 segment)
    × (drop 18 sent_packet ≡ drop 18 segment)
    × (network_round end_world 0 true 1 (some sent_packet) ≡ returns (v', true))
    × (network_receive v' 0 8 (2, 1) 100 ≡ returns (some (length sent_packet, sent_packet, v'')))
unfolding get_context
network_send-receive_example =
    network_send-receive end_world end_world 0 0 4 8 (1, 2) (0 ∷ 80 ∷ [])
      (replicate 20 0 ∷ (5 ∷ []) ∷ []) segment true end_context 1 100 makes
      (omega arith, omega arith, All-bytes, refl, omega arith, omega arith) refl refl refl refl
      (record { linked = tt; head_is = refl; tail_is = refl }) (λ e. omega arith) (omega arith)
      (omega arith)

-- A segment waits, longer than the buffer.
abbrev waiting_context : Context
waiting_context = record fresh_context { network_recv_queue = record { head = 1; tail = 1 } }

abbrev waiting_world : World
waiting_world = record {
  heap = update (λ p. none) 1 (some (record { data_bytes = segment; next = 0 }));
  global_ctx = some waiting_context ∷ [];
  listen_table = [] ∷ [];
  errno = 0;
}
