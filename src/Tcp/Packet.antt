-- ===== src/Tcp/Packet.antt =====
-- src/tcp.c, `create_tcp_packet` and `add_msg_to_arr`: a segment in a buffer of its own, the TCP
-- header at offset 34 and the data at offset 54, and its place in the message list.
pub mod Fields
pub mod Verified
use anp_netskeleton.Base.{
  ℕ, zero, suc, ◌+◌, ◌-◌, ◌||◌, none, List, [], ◌∷◌, ◌++◌, ◌==◌, if◌then◌else◌, u32, htons, htonl,
  pos,
}
use anp_netskeleton.Memory.{Mem, load16, load32, store8, store16, store32, memcpy}
use anp_netskeleton.Checksum.{do_tcp_csum}
use anp_netskeleton.Subuff.{Subuff, alloc_sub, sub_reserve, sub_push}
use anp_netskeleton.Ip.{ipp_tcp}
use anp_netskeleton.Tcp.{Tcb, Message, Conn, tcp_fin, tcp_syn, has_flag}

-- The header fields, in network byte order, and the data; the checksum is still to come.
unfoldable pub fill_tcp_packet : Mem → Tcb → Mem → ℕ → ℕ → ℕ → Mem
unfolding htons htonl
fill_tcp_packet m tcb source at data_len flags =
    let m1 : Mem = store16 (store16 m 34 (htons tcb.local_port)) 36 (htons tcb.remote_port) in
    let m2 : Mem = store32 (store32 m1 38 tcb.snd_nxt) 42 tcb.rcv_nxt in
    let m3 : Mem = store8 (store8 m2 46 0x50) 47 flags in
    let m4 : Mem = store16 (store16 m3 48 (htons 65535)) 52 0 in
    let m5 : Mem = store32 m4 38 (htonl (load32 m4 38)) in
    let m6 : Mem = store32 m5 42 (htonl (load32 m5 42)) in
    let m7 : Mem = store16 m6 48 (htons (load16 m6 48)) in
    if data_len == 0 then m7 else memcpy m7 54 source at data_len

unfoldable pub put_tcp_csum : Mem → Tcb → ℕ → Mem
unfolding htons htonl
put_tcp_csum m tcb len =
    let m1 : Mem = store16 m 50 0 in
    store16 m1 50
      (do_tcp_csum m1 34 (pos len) (htons ipp_tcp) (htonl tcb.local_ip) (htonl tcb.remote_ip))

-- A SYN or a FIN takes a sequence number.
unfoldable pub count_control : Tcb → ℕ → Tcb
unfolding has_flag
count_control tcb flags =
    if has_flag flags tcp_syn || has_flag flags tcp_fin
    then record tcb { snd_nxt = u32 (tcb.snd_nxt + 1) }
    else tcb

-- The data is `data_len` bytes at offset `at` of `source`.
unfoldable pub create_tcp_packet : Tcb → Mem → ℕ → ℕ → ℕ → Subuff × Tcb
unfolding fill_tcp_packet put_tcp_csum count_control alloc_sub sub_reserve sub_push
create_tcp_packet tcb source at data_len flags =
    let sub : Subuff = sub_reserve (alloc_sub (54 + data_len)) (54 + data_len) in
    let pushed : Subuff = sub_push sub (20 + data_len) in
    let m : Mem = fill_tcp_packet pushed.mem tcb source at data_len flags in
    (
      record pushed {
        protocol = ipp_tcp;
        len = u32 (20 + data_len);
        dlen = data_len;
        mem = put_tcp_csum m tcb (u32 (20 + data_len));
      },
      count_control tcb flags,
    )

unfoldable pub new_message : ℕ → Subuff → ℕ → Message
new_message tcb sub retries = record {
  tcb = tcb;
  sub = sub;
  tcp_ptr = sub.at;
  stale = none;
  tcp_len = sub.len;
  tcp_data_len = sub.dlen;
  retries = retries;
}

-- If `calloc` fails the message is dropped, and the caller is not told.
unfoldable pub add_msg_to_arr : Conn → Subuff → ℕ → Conn
unfolding new_message
add_msg_to_arr c sub retries = if c.room == 0 then c else record c {
  messages = c.messages ++ (new_message c.ptr sub retries ∷ []);
  room = c.room - 1;
}
