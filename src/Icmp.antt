-- ===== src/Icmp.antt =====
-- src/icmp.c: echo requests are answered in place, at most four times. The ICMP header stands at
-- offset 34; `ip_rx` has put the lengths and the source address in host byte order.
pub mod Echo
use anp_netskeleton.Base.{
  ℕ, ◌+◌, ◌-◌, Bool, true, ◌==◌, ltb, if◌then◌else◌, not, ℤ, pos, negsuc, int_to_u16,
}
use anp_netskeleton.Memory.{Mem, load8, load16, load32, store8, store16}
use anp_netskeleton.Checksum.{do_csum}
use anp_netskeleton.Subuff.{Subuff, sub_reserve, sub_push}
use anp_netskeleton.Ip.{ip_payload_len, ip_output, is_eagain, ipp_icmp}
use anp_netskeleton.Timer.{timer_oneshot}
use anp_netskeleton.Tcp.{icmp_reply}
use anp_netskeleton.World.{World}

abbrev pub icmp_v4_reply : ℕ
icmp_v4_reply = 0

abbrev pub icmp_v4_echo : ℕ
icmp_v4_echo = 8

abbrev pub icmp_retry_count : ℕ
icmp_retry_count = 3

abbrev pub icmp_retry_wait_time : ℕ
icmp_retry_wait_time = 100

-- `IP_PAYLOAD_LEN (ip_ptr) < ICMP_HDR_SIZE`, both of type int
abbrev pub is_below : ℤ → ℕ → Bool
is_below (pos n) k = ltb n k
is_below (negsuc n) k = true

unfoldable pub icmp_reply_handler : World → Subuff → ℕ → ℕ → ℕ → World
icmp_reply_handler w sub dest_addr retries icmp_len =
    let (net, status, sent) = ip_output w.net dest_addr (record sub { len = icmp_len; at = 34 }) in
    if not (is_eagain status)
    then record w { net = net }
    else if retries == 0
    then record w { net = net }
    else record w {
      net = net;
      timers =
          timer_oneshot w.timers icmp_retry_wait_time
            (icmp_reply sent dest_addr (retries - 1) icmp_len);
    }

unfoldable pub icmp_reply_mem : Mem → ℕ → Mem
icmp_reply_mem m icmp_len =
    let m1 : Mem = store8 (store8 m 34 icmp_v4_reply) 35 0 in
    let m2 : Mem = store16 m1 36 0 in store16 m2 36 (do_csum m2 34 (pos icmp_len) 0)

unfoldable pub send_icmp_reply : World → Subuff → World
send_icmp_reply w sub =
    let icmp_len : ℕ = int_to_u16 (ip_payload_len sub.mem) in
    let placed : Subuff = sub_push (sub_reserve sub (34 + icmp_len)) icmp_len in
    let filled : Subuff = record placed {
      mem = icmp_reply_mem sub.mem icmp_len;
      protocol = ipp_icmp;
      len = icmp_len;
    } in
    if w.room == 0
    then w
    else icmp_reply_handler (record w { room = w.room - 1 }) filled (load32 filled.mem 26)
        icmp_retry_count icmp_len

-- The sum runs over `ip_ptr->len` bytes, more than the ICMP message has.
unfoldable pub icmp_rx : World → Subuff → World
icmp_rx w sub =
    if is_below (ip_payload_len sub.mem) 4
    then w
    else if not (do_csum sub.mem 34 (pos (load16 sub.mem 16)) 0 == 0)
    then w
    else if load8 sub.mem 34 == icmp_v4_echo
    then send_icmp_reply w sub
    else w
