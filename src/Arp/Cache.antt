-- ===== src/Arp/Cache.antt =====
-- src/arp.c, `process_arp_entry` and `arp_get_hwaddr`: the cache as a map between addresses.
use anp_netskeleton.Base.{
  ℕ, ◌+◌, ◌<◌, ◌≡◌, ◌≢◌, ◌∙◌, sym, refl, Bool-cases, inl, inr, Option, some, List, [], ◌∷◌, All,
  ◌==◌, arith,
}
use anp_netskeleton.Memory.{Mem, zeroed, load32, memcpy}
use anp_netskeleton.Netdev.{ArpEntry}
use anp_netskeleton.Arp.{process_arp_entry, arp_get_hwaddr, arp_resolved, entry_ip}

-- Every entry that the receiving thread keeps is resolved.
abbrev pub AllResolved : List ArpEntry → Type 0
AllResolved cache = All (λ e. e.state ≡ arp_resolved) cache

-- `hw` is found, and starts with the sender's hardware address of the ARP packet.
abbrev FoundSender : Mem → Option Mem → Type 0
FoundSender m o = (hw : Mem) × (o ≡ some hw) × ((i : ℕ) → i < 6 → hw i ≡ m (22 + i))

overwritten_ip :
    (e : ArpEntry) (m : Mem) → load32 (memcpy e.arp_ipv4 0 m 22 6) 6 ≡ load32 e.arp_ipv4 6
unfolding memcpy load32
overwritten_ip e m = refl

new_ip : (m : Mem) → load32 (memcpy zeroed 0 m 22 20) 6 ≡ load32 m 28
unfolding memcpy load32
new_ip m = refl

memcpy_prefix : (dst m : Mem) (n i : ℕ) → i < n → memcpy dst 0 m 22 n i ≡ m (22 + i)
unfolding memcpy
memcpy_prefix dst m n i h = ground arith

-- The entry at the front of a cache, found and passed by.
front_found :
    (e : ArpEntry) (cache : List ArpEntry) (ip : ℕ)
    → e.state ≡ arp_resolved
    → entry_ip e ≡ ip
    → arp_get_hwaddr (e ∷ cache) ip ≡ some e.arp_ipv4
unfolding arp_get_hwaddr
front_found e cache ip h same = ground arith

front_passed :
    (e : ArpEntry) (cache : List ArpEntry) (ip : ℕ)
    → entry_ip e ≢ ip
    → arp_get_hwaddr (e ∷ cache) ip ≡ arp_get_hwaddr cache ip
unfolding arp_get_hwaddr
front_passed e cache ip other = ground arith

-- What the packet `m` has taught the cache: the sender's hardware address is found under the sender's
-- address, every other address gives what it gave, and every entry is still resolved.
pub record Learned (m : Mem) (cache cache' : List ArpEntry) : Type 0 where
  pub sender : FoundSender m (arp_get_hwaddr cache' (load32 m 28))
  pub others : (ip : ℕ) → ip ≢ load32 m 28 → arp_get_hwaddr cache' ip ≡ arp_get_hwaddr cache ip
  pub resolved : AllResolved cache'

new_entry-Learned : (m : Mem) → Learned m [] (process_arp_entry m [])
unfolding process_arp_entry
new_entry-Learned m =
    let e : ArpEntry = record { state = arp_resolved; arp_ipv4 = memcpy zeroed 0 m 22 20 } in
    record {
      sender = (
        memcpy zeroed 0 m 22 20,
        front_found e [] (load32 m 28) refl (new_ip m),
        λ i h. memcpy_prefix zeroed m 20 i (omega arith),
      );
      others = λ ip other. front_passed e [] ip (λ same. other (sym same ∙ new_ip m));
      resolved = (refl, tt);
    }

old_entry-Learned :
    (m : Mem) (e : ArpEntry) (cache : List ArpEntry)
    → e.state ≡ arp_resolved
    → AllResolved cache
    → entry_ip e ≡ load32 m 28
    → Learned m (e ∷ cache) (record e { arp_ipv4 = memcpy e.arp_ipv4 0 m 22 6 } ∷ cache)
old_entry-Learned m e cache h hs same =
    let e' : ArpEntry = record e { arp_ipv4 = memcpy e.arp_ipv4 0 m 22 6 } in
    let ip_kept : entry_ip e' ≡ entry_ip e = overwritten_ip e m in
    record {
      sender = (
        memcpy e.arp_ipv4 0 m 22 6,
        front_found e' cache (load32 m 28) h (ip_kept ∙ same),
        memcpy_prefix e.arp_ipv4 m 6,
      );
      others = λ ip other.
          front_passed e' cache ip (λ eq. other (sym eq ∙ ip_kept ∙ same))
          ∙ sym (front_passed e cache ip (λ eq. other (sym eq ∙ same)));
      resolved = (h, hs);
    }

passed :
    (e : ArpEntry) (cache cache' : List ArpEntry) (ip : ℕ)
    → arp_get_hwaddr cache' ip ≡ arp_get_hwaddr cache ip
    → arp_get_hwaddr (e ∷ cache') ip ≡ arp_get_hwaddr (e ∷ cache) ip
unfolding arp_get_hwaddr
passed e cache cache' ip eq = rw eq refl

rest-Learned :
    (m : Mem) (e : ArpEntry) (cache cache' : List ArpEntry)
    → e.state ≡ arp_resolved
    → entry_ip e ≢ load32 m 28
    → Learned m cache cache'
    → Learned m (e ∷ cache) (e ∷ cache')
rest-Learned m e cache cache' h other l = record {
  sender =
      let (hw, found, same) = l.sender in
      (hw, front_passed e cache' (load32 m 28) other ∙ found, same);
  others = λ ip ne. passed e cache cache' ip (l.others ip ne);
  resolved = (h, l.resolved);
}

-- A cache whose entries are all resolved learns the sender of an ARP packet: afterwards a lookup of
-- the sender's address gives the hardware address of the packet, and of any other address what it gave
-- before.
pub process_arp_entry-Learned :
    (m : Mem) (cache : List ArpEntry)
    → AllResolved cache
    → Learned m cache (process_arp_entry m cache)
unfolding process_arp_entry
process_arp_entry-Learned m [] h = new_entry-Learned m
process_arp_entry-Learned m (e ∷ cache) (h, hs) = elim (Bool-cases (entry_ip e == load32 m 28)) [
  | inl same ↦ rw same (old_entry-Learned m e cache h hs (ground arith))
  | inr other ↦ rw other (
      rest-Learned m e cache (process_arp_entry m cache) h (ground arith)
        (process_arp_entry-Learned m cache hs))
]
