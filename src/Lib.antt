-- ===== src/Lib.antt =====
-- A model of the user-space TCP/IP stack of this repository (the C files of src/), which a program
-- loads in front of libc: the calls `socket`, `connect`, `send`, `recv` and `close` of its descriptors
-- are answered by the stack, which reads and writes Ethernet frames at a tap device.
--
-- The parts, and the modules that model them:
--   Base       words, C integers, tests and lists that the other modules share
--   Memory     blocks of bytes, with loads and stores of a little-endian host; a header is read and
--              written at its offset in the frame (Ethernet 0, IP 14, TCP, ICMP and ARP data behind)
--   Checksum   src/utilities.c: `do_csum`, `do_tcp_csum`
--   Linklist   src/linklist.h: lists with links in both directions, on a heap with freed nodes
--   Subuff     src/subuff.c, src/subuff.h: the packet buffer; Queue: the queue of buffers, on the heap
--   Netdev     src/anp_netdev.c: `netdev_transmit`, and the state of the lower layers
--   Arp        src/arp.c: Cache, requests, replies (Answer), `arp_rx`
--   Route      src/route.c: table and lookup
--   Ip         src/ip_tx.c: `ip_output`, `dst_neigh_output`
--   Timer      src/timer.c: the timer list and its tick
--   Tcp        src/tcp.h, src/tcp.c. Packet: `create_tcp_packet`, `add_msg_to_arr`; Transmit: `tcp_tx`;
--              Buffer: `save_data_and_ack`, `read_bytes`; Retransmit: `stop_retransmit`,
--              `close_connection`, `free_tcb`; Receive: `tcp_rx` from the control block on. Below it,
--              Progress, Order, GoBackN, Pieces and Signal are about a stream of segments
--   World      the global state, with `get_tcb` and `get_anp_socket` of src/anpwrapper.c
--   Socket     src/anpwrapper.c: the five calls, descriptors and ports; Lifetime: the steps of a connection;
--              Wait: the wait on `tcb_cond`; Stuck: the calls after a FIN; Stream: `recv` while frames
--              arrive;
--              Transfer: `tcp_tx` on one host and that call of `recv` on another
--   Icmp       src/icmp.c
--   Input      the receiving thread: `netdev_rx_loop`, `process_packet`, `ip_rx` and the first part of
--              `tcp_rx`. Below it, Frame, Transfer, Arrival and Roundtrip are about a packet on its
--              way from `ip_output` of one host to `tcp_rx` of another, Stream about the frames of a
--              stream, Parcels about those of the messages of `tcp_tx`, Pushed about their PSH flag
--   Sender     `tcp_retransmit_handler` of src/tcp.c, the sender thread; Repeat: the tries of a message
--   Start      src/init.c, src/tap_netdev.c, with the allocation of the devices in src/anp_netdev.c and
--              the addresses and commands of src/utilities.c; Mac: the rest of src/anp_netdev.c
--   Programs   server-client/: the two test programs. Pattern: common.c; Transfer, Client, Server: the
--              tests; Options, Main: the command lines and the threads
--   Examples   the theorems on concrete data (Arp; Connection: src/tcp.c; Delivery, Shipment: streams
--              and packets between hosts; Lists: src/linklist.h and the queue; Programs, Start: these
--              modules; Stack: the other files)
--
-- How the parts interact: `Input` decodes a frame and gives it to `Arp`, `Icmp` or `Tcp.Receive`; the
-- calls of `Socket` and the receiving thread put segments in the message list (`Tcp.Transmit`), from
-- which an acknowledgment takes them out (`Tcp.Retransmit`) and which the timer's sender thread sweeps
-- through `Ip` and `Netdev` (`Sender`). A function of tcp.c works on a `Conn`: one control block with
-- the message list and the timers.
--
-- Conventions. A value of a w-bit type is a natural number with the wrap-around written out. A mutex is
-- whether it is held, and a condition variable how often it was signalled. What other threads do while
-- a call waits is a function on the state, an argument of the model; `tcp_tx` takes a list of them. A
-- wait on `tcb_cond` is over only if this function signals it and leaves `tcb_lock` free (no wait ends
-- without a signal). The steps of the other threads are whole, so a `tcb_lock` that is held where a
-- call or a sweep takes it is one that was left locked, and the result says that it waits for ever;
-- `segment_arrives` starts where `tcp_rx` has got its two locks. The tap device is the function `tap_write`, what write(2) returns for a frame, and the list of the frames
-- written. An allocation whose result the code checks fails when `room` is used up.
--
-- Fuel. The loop of `do_csum` runs on three rounds, and `tcp_tx` on the size of the data plus the
-- number of wake-ups plus one. The repetition of a message in the sender thread runs on the list of
-- the ARP caches that the receiving thread leaves; when they are used up and the last try fails too,
-- the result says that the loop is spinning.
--
-- A loop over a linked list, and `sub_queue_free`, run on fuel: more than the length of the list is
-- enough. So do the two loops of the test programs, with more than the size of the buffer, since every
-- turn moves a byte at least.
--
-- Interfaces. What the test programs call is the record `Sockets`, with its laws in `Reliable` (a send
-- takes at least one byte, a receive gives at least one of those that wait, in order); the server's
-- `main` calls `ListenCalls`, and the start of the stack `Kernel`.
--
-- Lists. The queue of buffers works on the linked lists of `Linklist`. The other modules, which keep
-- messages, timers, routes and addresses in such lists, have them as plain lists; what the two kinds of
-- loops do when a node is freed is in `Linklist.Loops`.
--
-- Not modelled: freed memory outside of `Linklist` (a freed block keeps its contents); what only prints
-- or measures time; in src/init.c the environment, the seed and the signal handler; the unchecked
-- `calloc` of the thread arguments in server-client/tcp_server.c, which is taken to succeed.
mod Base
pub mod Memory
pub mod Checksum
pub mod Linklist
pub mod Subuff
pub mod Netdev
pub mod Arp
pub mod Route
pub mod Ip
pub mod Timer
pub mod Tcp
pub mod World
pub mod Socket
pub mod Icmp
pub mod Input
pub mod Sender
pub mod Start
pub mod Programs
pub mod Examples
