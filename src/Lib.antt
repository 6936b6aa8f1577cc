-- ===== src/Lib.antt =====
-- Networking coursework in C: the logic of its router (Assignment2), of its socket layer over STCP with
-- the file transfer above it (Assignment3), of its proxy with the request library (Assignment1), and of
-- its echo programs (Assignment0), modelled and proved.
--
-- Parts, and how they work together
-- - Prelude: what all parts share. `Outcome` says what a run of a C function comes to (it returns,
--   an `assert` fails, its behaviour is undefined, it never ends); Memory has buffers of bytes and
--   `memcpy`; Words has the words of a little-endian host; Sockets what the stream sockets of the
--   proxy and the echo programs answer; Texts the strings of the source.
-- - Router: Assignment2/src/router. The server's messages (Vns, sr_vns_comm.c) set up the interfaces
--   (Interfaces, sr_if.c); the table of routes comes from a file (RoutingTable, sr_rt.c, and
--   `find_rt_dest` of sr_router.c); each frame goes to the handler (Handler, sr_router.c), which
--   reads it by the offsets of sr_protocol.h (Frame), asks and feeds the ARP cache (ArpCache,
--   sr_arpcache.c), checks IP headers (Checksum, sr_utils.c) and sends through Vns again. Server is
--   the loop around all this: it reads a message of the server and acts on it (sr_vns_comm.c, and
--   `sr_verify_routing_table` of sr_main.c). PacketLog is the file to which each packet that is sent
--   or received is written (sr_dumper.c, and `sr_log_packet` of sr_vns_comm.c); it stands by itself.
-- - Stcp: Assignment3/src. HashTable is mysock_hash.h, the table macros, generic in the value;
--   PacketQueue is the three functions on packet queues of mysock.c, on a heap of linked nodes;
--   TcpSum is tcp_sum.c. World is the state that the functions below share: the contexts of all
--   mysockets, the heap, the table of listen queues and `errno` (mysock_impl.h, mysock.c). Queues
--   puts the packet queues of a mysocket there; Backlog is connection_demux.c; Calls is
--   mysock_api.c, what the application calls; Transport is stcp_api.c and network.c, what the
--   transport layer calls, with the end of its thread (mysock.c) and a round of the receive thread
--   (network_io_socket.c); Framing is the packets over a stream of network_io_tcp.c. A packet goes
--   from `mywrite` to a queue, from there to the transport layer, to the wire, to the receive thread
--   of the peer, and into a queue there, or into the backlog of a listening socket.
-- - Transfer: the programs of Assignment3/src above mysockets. Lines is `get_nvt_line`, which both
--   have; Numbers is `printf` and `sscanf` of a length; Server is what server.c makes of the lines
--   it gets, Client the requests of client.c and its address; Whole puts the two together.
-- - Proxy: Assignment1/starter_code. Headers is the array of headers of proxy_parse.c, RequestLine
--   the request line and the request written out, Parse the parser of a request; Relay is proxy.c,
--   which reads a request, parses it, passes what it has read to the server of the host and sends
--   back the answer.
-- - Echo: client.c and server.c of Assignment0, which send what is typed and print what arrives.
-- Functions keep the names of the source, without the prefix `_mysock_`; the phases of a long function
-- (`sr_handlepacket`, `sr_arpcache_queuereq`, `ParsedRequest_unparse`) are functions of their own that
-- it calls in the order of the source. A function that changes a structure returns it changed. Each
-- module Tests holds runs on concrete inputs.
--
-- How the state is modelled
-- - A linked list that only its own functions touch (interfaces, routes, ARP requests) is a list;
--   the pointers to requests that are compared are the field `location`. The packet queues of STCP,
--   whose two pointers must agree, stand on an explicit heap instead.
-- - A pointer to a context or a listen queue is the descriptor under which it is found. The requests
--   of a listen queue have the address of their array, so that a pointer into an array that
--   `realloc` has moved is told from a good one.
-- - What `read`, `write`, `recv`, `bind`, `listen` and the files return is an argument, and so is
--   what calls of `myread` return to the programs of Transfer. A wait, on a condition variable or
--   for the network, is a result of its own. Whether `listen_lock` is held while a transport thread
--   is joined is an argument of the join: a thread that needs the lock then never gets it.
-- - Each function is one step. For the functions on listen queues this leaves runs out that the
--   source has: `_mysock_enqueue_connection` and `_mysock_dequeue_connection` hold `listen_lock`
--   only for reading, and may run at the same time. Backlog/Race has these two by single accesses.
--   `time(NULL)` is an argument. The memory that `malloc` returns is an argument where it matters (a
--   node, what a fresh structure holds), and `malloc` succeeds.
-- - The host is little-endian. `memcpy` of an area onto itself is taken to leave it.
--
-- Bounds and fuel
-- - `cksum` folds its sum at most three times, which is enough for every 32-bit sum. `free_queue`
--   takes a number of rounds, and one more than there are nodes is enough; so do the calls that
--   close a socket. The loops that read and write recur on the results of the calls. The digits of a
--   number are written in one round more than the number, which is enough.
-- - Wrap-around is written out where the source computes in 32 or 64 bits: the checksum, the length
--   of a message, the length of the headers, the growth of their array.
--
-- Not modelled
-- - What is only input and output: opening sockets, threads, processes, prompts, logs and printing
--   (most of sr_main.c, the rest of network_io*.c), the `main` functions with their options, and
--   sha1.c, a copy of another library.
-- - The calls that connect sockets (`_tcp_connect`, `sr_connect_to_server`); `mygetsockname`,
--   `mylocalip` and `local_name`, which ask the system for addresses. transport.c has a control loop
--   without a body.
-- - `inet_aton`, `strtol` and SHA-1 are parameters, of which nothing is assumed.
-- - Where the handler goes on behind a pointer that was never set, the model stops as undefined.
pub mod Prelude
pub mod Router
pub mod Stcp
pub mod Proxy
pub mod Transfer
pub mod Echo
