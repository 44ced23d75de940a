-- ===== src/Examples/Arp.antt =====
-- The answer to an ARP request, on the client device.
use anp_netskeleton.Base.{◌≡◌, refl, ◌++◌, [], ◌∷◌, htons, htonl, arith}
use anp_netskeleton.Memory.{Mem, zeroed, bytes, load8, load16, load32, store8, store16, store32}
use anp_netskeleton.Subuff.{Subuff, alloc_sub}
use anp_netskeleton.Arp.{arp_rx}
use anp_netskeleton.Arp.Answer.{Answers, arp_rx-Answers}
use anp_netskeleton.Examples.{ext_dev, client_net}

-- The server asks for 10.0.0.4.
abbrev request : Mem
request =
    store32 (store16 (store16 (store16 (store32 zeroed 28 0x0500000a) 14 256) 16 8) 20 256) 38
      0x0400000a

abbrev request_packet : Subuff
request_packet = record (alloc_sub 1522) { mem = request }

arp_rx-Answers_example :
    (frame : Mem) × ((arp_rx client_net request_packet).wire ≡ [] ++ (bytes frame 0 42 ∷ []))
    × Answers request ext_dev frame
unfolding load32 load16 load8 store32 store16 store8 htons htonl alloc_sub
arp_rx-Answers_example =
    arp_rx-Answers client_net request_packet refl refl refl refl (omega arith) refl refl refl refl
