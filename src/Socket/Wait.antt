-- ===== src/Socket/Wait.antt =====
-- src/anpwrapper.c and src/tcp.c: the wait on `tcb_cond`.
use anp_netskeleton.Base.{ℕ, ◌≡◌, ◌≢◌, refl, false, none, some, ◌==◌, arith}
use anp_netskeleton.World.{World}
use anp_netskeleton.Socket.{cond_wait}

pub cond_wait-signalled :
    (w : World) (p : ℕ) (wake : World → World)
    → ((wake w).tcbs p).tcb_cond ≢ (w.tcbs p).tcb_cond
    → ((wake w).tcbs p).tcb_lock ≡ false
    → cond_wait w p wake ≡ some (wake w)
unfolding cond_wait
cond_wait-signalled w p wake rung free =
    let other : (((wake w).tcbs p).tcb_cond == (w.tcbs p).tcb_cond) ≡ false = ground arith in
    rw (other, free) refl

pub cond_wait-unheard :
    (w : World) (p : ℕ) (wake : World → World)
    → ((wake w).tcbs p).tcb_cond ≡ (w.tcbs p).tcb_cond
    → cond_wait w p wake ≡ none
unfolding cond_wait
cond_wait-unheard w p wake quiet = ground arith
