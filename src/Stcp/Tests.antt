-- ===== src/Stcp/Tests.antt =====
-- Runs of the mysocket layer on small inputs.
mod Listening
mod Sockets
mod Wire
use computer_networks.Prelude.{
  ℕ, zero, suc, ◌+◌, ◌≤◌, ◌%◌, ◌≡◌, ◌↔◌, List, [], ◌∷◌, ◌++◌, none, some, Bool, true, false,
  if◌then◌else◌, ◌==◌, refl, All, returns, length, get_or, take, drop, arith, Bytes,
}
use computer_networks.Stcp.HashTable.{Table, find, hash_delete}
use computer_networks.Stcp.HashTable.MapView.{view, IsTable, Updates, hash_delete-Updates}
use computer_networks.Stcp.HashTable.Laws.{Distinct}
use computer_networks.Stcp.PacketQueue.{
  Heap, State, update, copied, dequeue_buffer, free_queue, empty_queue,
}
use computer_networks.Stcp.PacketQueue.Segment.{Nodes, NotIn, Holds}
use computer_networks.Stcp.PacketQueue.Stream.{stream, dequeue-stream}
use computer_networks.Stcp.PacketQueue.Release.{free_queue_lem}
use computer_networks.Stcp.TcpSum.{af_inet, set_checksum, verify_checksum, verify-set_checksum}

abbrev packet : List ℕ
packet = 7 ∷ 8 ∷ 9 ∷ []

abbrev heap : Heap
heap = update (λ p. none) 1 (some (record { data_bytes = packet; next = 0 }))

abbrev state : State
state = (heap, record { head = 1; tail = 1 })

abbrev nodes : Nodes
nodes = (1, packet) ∷ []

state-Holds : Holds state nodes
state-Holds = record {
  linked = ((λ e. ground arith), refl, tt, tt);
  head_is = refl;
  tail_is = refl;
}

dequeue-stream_example :
    (n : ℕ) × (out : List ℕ) × (s' : State) × (ns' : Nodes) × (dequeue_buffer state 2 true
      ≡ returns (copied n out s'))
    × Holds s' ns'
    × (n ≡ length out)
    × (n ≤ 2)
    × (out ++ stream ns' ≡ stream nodes)
dequeue-stream_example = dequeue-stream state 1 packet [] 2 state-Holds (omega arith)

free_queue_lem_example :
    (heap' : Heap) × (result : Bool) × (free_queue 2 state
      ≡ returns (some (result, (heap', empty_queue))))
    × All (λ n. heap' n.0 ≡ none) nodes
    × ((q : ℕ) → NotIn q nodes → heap' q ≡ heap q)
    × ((result ≡ false) ↔ (nodes ≡ []))
free_queue_lem_example = free_queue_lem state nodes 2 state-Holds (omega arith)

abbrev table : Table ℕ
table = [] ∷ ((4, 40) ∷ (1, 10) ∷ []) ∷ [] ∷ []

chains-Distinct : (i : ℕ) → Distinct (get_or table i [])
unfolding find
chains-Distinct zero = tt
chains-Distinct (suc zero) = (refl, (refl, tt))
chains-Distinct (suc (suc zero)) = tt
chains-Distinct (suc (suc (suc i))) = tt

table-IsTable : IsTable table
table-IsTable = record { sized = omega arith; distinct = λ key. chains-Distinct (key % 3) }

hash_delete-Updates_example :
    Updates table (λ k. if 4 == k then none else view table k) (hash_delete table 4)
hash_delete-Updates_example = hash_delete-Updates table 4 table-IsTable

-- A SYN, from 10.0.0.1 to 10.0.0.2 in network byte order.
abbrev segment : Bytes
segment =
    4 ∷ 210 ∷ 0 ∷ 80 ∷ 0 ∷ 0 ∷ 0 ∷ 1 ∷ 0 ∷ 0 ∷ 0 ∷ 0 ∷ 80 ∷ 2 ∷ 12 ∷ 0 ∷ 0 ∷ 0 ∷ 0 ∷ 0 ∷ 65 ∷ []

abbrev ends : ℕ × ℕ
ends = (0x0100000a, 0x0200000a)

verify-set_checksum_example :
    (sent : Bytes) × (set_checksum af_inet 4096 ends segment ≡ returns sent)
    × (take 16 sent ≡ take 16 segment)
    × (drop 18 sent ≡ drop 18 segment)
    × (verify_checksum af_inet 8192 (0x0200000a, 0x0100000a) sent ≡ returns true)
verify-set_checksum_example = verify-set_checksum 4096 8192 ends segment (ground arith) refl
