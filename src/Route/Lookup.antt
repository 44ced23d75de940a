-- ===== src/Route/Lookup.antt =====
-- src/route.c, `route_lookup`: which entry of the table it returns.
use anp_netskeleton.Base.{
  ℕ, ◌≡◌, ◌≢◌, ◌⊎◌, ap, subst, refl, true, false, Bool-cases, inl, inr, Option, none, some, List,
  [], ◌∷◌, ◌++◌, All,
}
use anp_netskeleton.Netdev.{RtEntry}
use anp_netskeleton.Route.{route_matches, route_scan, route_lookup}

-- `rt` stands in the table behind entries that do not match, and matches itself unless it is the last.
pub record Selected (daddr : ℕ) (routes : List RtEntry) (rt : RtEntry) : Type 0 where
  pub before : List RtEntry
  pub after : List RtEntry
  pub place : routes ≡ before ++ (rt ∷ after)
  pub earlier : All (λ r. route_matches daddr r ≡ false) before
  pub matches : (route_matches daddr rt ≡ true) ⊎ (after ≡ [])

data Scanned (daddr : ℕ) (last : Option RtEntry) (routes : List RtEntry) : Type 0 where
  nothing_read : routes ≡ [] → route_scan daddr last routes ≡ last → Scanned daddr last routes
  selected :
      (rt : RtEntry)
      → Selected daddr routes rt
      → route_scan daddr last routes ≡ some rt
      → Scanned daddr last routes

scanned : (daddr : ℕ) (last : Option RtEntry) (routes : List RtEntry) → Scanned daddr last routes
unfolding route_scan
scanned daddr last [] = nothing_read refl refl
scanned daddr last (entry ∷ rest) = elim (Bool-cases (route_matches daddr entry)) [
  | inl hit ↦
      selected entry
        (record { before = []; after = rest; place = refl; earlier = tt; matches = inl hit })
        (rw hit refl)
  | inr miss ↦ elim (scanned daddr (some entry) rest) [
    | nothing_read e last_ ↦
        selected entry
          (record { before = []; after = rest; place = refl; earlier = tt; matches = inr e })
          (rw miss last_)
    | selected rt s e ↦
        selected rt
          (record {
            before = entry ∷ s.before;
            after = s.after;
            place = ap (λ l. entry ∷ l) s.place;
            earlier = (miss, s.earlier);
            matches = s.matches;
          })
          (rw miss e)
  ]
]

-- A lookup in a table with an entry returns one: the first that matches the address, and, where none
-- does, the last one.
pub route_lookup-Selected :
    (routes : List RtEntry) (daddr : ℕ)
    → routes ≢ []
    → (rt : RtEntry) × (route_lookup routes daddr ≡ some rt) × Selected daddr routes rt
unfolding route_lookup
route_lookup-Selected routes daddr some_ = elim (scanned daddr none routes) [
  | nothing_read e _ ↦ elim (some_ e) [ ]
  | selected rt s e ↦ (rt, e, s)
]

All-middle :
    (P : RtEntry → Type 0) (before : List RtEntry) (rt : RtEntry) (after : List RtEntry)
    → All P (before ++ (rt ∷ after))
    → P rt
All-middle P [] rt after all = all.0
All-middle P (entry ∷ before) rt after all = All-middle P before rt after all.1

-- What holds for all entries of a table holds for the one that a lookup returns.
pub route_lookup-All :
    (P : RtEntry → Type 0) (routes : List RtEntry) (daddr : ℕ) (rt : RtEntry)
    → All P routes
    → route_lookup routes daddr ≡ some rt
    → P rt
unfolding route_lookup
route_lookup-All P routes daddr rt all found = elim (scanned daddr none routes) [
  | nothing_read e last_ ↦ cc
  | selected rt' s e ↦
      let same : rt' ≡ rt = cc in
      subst P same (All-middle P s.before rt' s.after (subst (All P) s.place all))
]
