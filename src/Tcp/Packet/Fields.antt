-- ===== src/Tcp/Packet/Fields.antt =====
-- src/tcp.c, `create_tcp_packet`: the fields and the data of a segment.
use anp_netskeleton.Base.{
  ℕ, ◌+◌, ◌%◌, ◌<◌, ◌≡◌, u8, htons, htons-htons, htons-lt, htonl, htonl-htonl, arith,
}
use anp_netskeleton.Memory.{Mem, load8, load16, load32, store8, store16, store32, memcpy, bytes}
use anp_netskeleton.Memory.Laws.{bytes_ext}
use anp_netskeleton.Tcp.{Tcb}
use anp_netskeleton.Tcp.Packet.{create_tcp_packet}

module _ (t : Tcb) (source : Mem) (at n flags : ℕ) where
  -- The packet's block.
  abbrev pub packet_mem : Mem
  packet_mem = (create_tcp_packet t source at n flags).0.mem

  pub packet-seq : t.snd_nxt < 4294967296 → htonl (load32 packet_mem 38) ≡ t.snd_nxt
  unfolding create_tcp_packet load32 store32 store8 memcpy
  packet-seq h = htonl_of_stored
    where
      stored : load32 packet_mem 38 ≡ htonl (t.snd_nxt % 4294967296)
      stored = ground arith

      htonl_of_stored : htonl (load32 packet_mem 38) ≡ t.snd_nxt
      htonl_of_stored = omega (arith, stored, htonl-htonl t.snd_nxt h)

  pub packet-payload : bytes packet_mem 54 n ≡ bytes source at n
  unfolding create_tcp_packet store16 store8 memcpy
  packet-payload = bytes_ext packet_mem source 54 at n (λ i p. ground arith)

  pub packet-ack : t.rcv_nxt < 4294967296 → htonl (load32 packet_mem 42) ≡ t.rcv_nxt
  unfolding create_tcp_packet load32 store32 store8 memcpy
  packet-ack h = htonl_of_stored
    where
      stored : load32 packet_mem 42 ≡ htonl (t.rcv_nxt % 4294967296)
      stored = ground arith

      htonl_of_stored : htonl (load32 packet_mem 42) ≡ t.rcv_nxt
      htonl_of_stored = omega (arith, stored, htonl-htonl t.rcv_nxt h)

  pub packet-data_offset : load8 packet_mem 46 ≡ 0x50
  unfolding create_tcp_packet load8 store32 store16 store8 memcpy
  packet-data_offset = ground arith

  pub packet-flags : load8 packet_mem 47 ≡ u8 flags
  unfolding create_tcp_packet load8 store32 store16 store8 memcpy
  packet-flags = ground arith

  pub packet-window : htons (load16 packet_mem 48) ≡ 65535
  unfolding create_tcp_packet load16 load8 store32 store16 store8 memcpy
  packet-window = ground arith

  pub packet-local_port : t.local_port < 65536 → htons (load16 packet_mem 34) ≡ t.local_port
  unfolding create_tcp_packet load16 load8 store32 store16 store8 memcpy
  packet-local_port h =
      let stored : load16 packet_mem 34 ≡ htons t.local_port % 65536 = ground arith in
      omega (arith, stored, htons-lt t.local_port, htons-htons t.local_port h)

  pub packet-remote_port : t.remote_port < 65536 → htons (load16 packet_mem 36) ≡ t.remote_port
  unfolding create_tcp_packet load16 load8 store32 store16 store8 memcpy
  packet-remote_port h =
      let stored : load16 packet_mem 36 ≡ htons t.remote_port % 65536 = ground arith in
      omega (arith, stored, htons-lt t.remote_port, htons-htons t.remote_port h)

  -- The packet is `n` bytes of data behind a header of 20, at offset 34.
  pub packet-shape :
      n < 65536
      → ((create_tcp_packet t source at n flags).0.at ≡ 34)
        × ((create_tcp_packet t source at n flags).0.len ≡ 20 + n)
        × ((create_tcp_packet t source at n flags).0.dlen ≡ n)
  unfolding create_tcp_packet
  packet-shape h = omega arith
