-- ===== src/World/Update.antt =====
-- src/anpwrapper.c, `get_tcb`: the lookup of a connection, once the connection has changed.
use anp_netskeleton.Base.{
  ℕ, ◌≡◌, refl, true, Bool-cases, inl, inr, List, [], ◌∷◌, ◌==◌, update, arith,
}
use anp_netskeleton.Tcp.{Tcb, Conn}
use anp_netskeleton.Tcp.Receive.Peer.{SameEnds}
use anp_netskeleton.World.{
  AnpSocket, World, conn_at, put_conn, same_connection, get_tcb_in, get_tcb,
}

pub update-same : (tcbs : ℕ → Tcb) (p : ℕ) (t : Tcb) → update tcbs p t p ≡ t
update-same tcbs p t = let same : (p == p) ≡ true = ground arith in rw same refl

pub conn_at-put_conn : (w : World) (c : Conn) (p : ℕ) → c.ptr ≡ p → conn_at (put_conn w c) p ≡ c
conn_at-put_conn w c p e = rw (← e, update-same w.tcbs c.ptr c.tcb) refl

same_connection-update :
    (tcbs : ℕ → Tcb) (p : ℕ) (t : Tcb) (x local_port local_ip remote_port remote_ip : ℕ)
    → SameEnds (tcbs p) t
    → same_connection (update tcbs p t x) local_port local_ip remote_port remote_ip
      ≡ same_connection (tcbs x) local_port local_ip remote_port remote_ip
same_connection-update tcbs p t x local_port local_ip remote_port remote_ip same =
    elim (Bool-cases (x == p)) [
      | inl here ↦
          let e : x ≡ p = ground arith in
          rw (here, e, same.local_port, same.local_ip, same.remote_port, same.remote_ip) refl
      | inr other ↦ rw other refl
    ]

get_tcb_in-update :
    (sockets : List AnpSocket) (tcbs : ℕ → Tcb) (p : ℕ) (t : Tcb)
    (local_port local_ip remote_port remote_ip : ℕ)
    → SameEnds (tcbs p) t
    → get_tcb_in (update tcbs p t) sockets local_port local_ip remote_port remote_ip
      ≡ get_tcb_in tcbs sockets local_port local_ip remote_port remote_ip
unfolding get_tcb_in
get_tcb_in-update [] tcbs p t local_port local_ip remote_port remote_ip same = refl
get_tcb_in-update (sock ∷ rest) tcbs p t local_port local_ip remote_port remote_ip same =
    let later = get_tcb_in-update rest tcbs p t local_port local_ip remote_port remote_ip same in
    let here =
      same_connection-update tcbs p t sock.conn_info local_port local_ip remote_port remote_ip
        same in
    rw (later, here) refl

-- A connection that keeps its ends is found where it was.
pub get_tcb-put_conn :
    (w : World) (c : Conn) (local_port local_ip remote_port remote_ip : ℕ)
    → SameEnds (w.tcbs c.ptr) c.tcb
    → get_tcb (put_conn w c) local_port local_ip remote_port remote_ip
      ≡ get_tcb w local_port local_ip remote_port remote_ip
unfolding get_tcb
get_tcb-put_conn w c local_port local_ip remote_port remote_ip same =
    get_tcb_in-update w.sockets w.tcbs c.ptr c.tcb local_port local_ip remote_port remote_ip same
