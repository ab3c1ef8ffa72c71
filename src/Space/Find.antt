-- ===== src/Space/Find.antt =====
-- `Find` of internal/memory/memory.go: binary search for the region that holds an address.
use gonidbg.Base.{
  ℕ, zero, suc, ◌+◌, ◌<◌, ◌≡◌, refl, ap, ◌∙◌, inl, inr, true, Option, none, some, List, [], ◌∷◌,
  arith, ltb, leb, length, get_elem?, Bool-cases, if◌then◌else◌,
}
use gonidbg.Space.{Region, Space, end, ends_above, find}
use gonidbg.Space.Search.{sort_search, Rises, Turns, Turns-unique, sort_search-Turns}
use gonidbg.Space.Chain.{Chain, IsValid}
use gonidbg.Space.View.{region_at, region_at_below}

-- The index that the search is after, found from the front.
first_above : ℕ → List Region → ℕ
first_above a [] = 0
first_above a (r ∷ rs) = let rest = first_above a rs in if ltb a (end r) then 0 else suc rest

-- What a chain that starts above `a` says of every index.
above_all :
    (lo a : ℕ) (rs : List Region) (i : ℕ)
    → Chain lo rs
    → a < lo
    → i < length rs
    → ends_above a rs i ≡ true
above_all lo a [] i c h p = absurd (omega arith)
above_all lo a (r ∷ rs) zero c h p = ground arith
above_all lo a (r ∷ rs) (suc i) c h p =
    above_all (r.addr + r.size) a rs i c.2 (omega arith) (omega arith)

ends_above-Rises : (lo a : ℕ) (rs : List Region) → Chain lo rs → Rises (ends_above a rs) (length rs)
ends_above-Rises lo a [] c i j ij p h = absurd (omega arith)
ends_above-Rises lo a (r ∷ rs) c zero zero ij p h = h
ends_above-Rises lo a (r ∷ rs) c zero (suc j) ij p h =
    above_all (r.addr + r.size) a rs j c.2 (ground arith) (omega arith)
ends_above-Rises lo a (r ∷ rs) c (suc i) zero ij p h = absurd (omega arith)
ends_above-Rises lo a (r ∷ rs) c (suc i) (suc j) ij p h =
    ends_above-Rises (r.addr + r.size) a rs c.2 i j (omega arith) (omega arith) h

first_above-Turns :
    (a : ℕ) (rs : List Region) → Turns (ends_above a rs) (length rs) (first_above a rs)
unfolding first_above
first_above-Turns a [] = record {
  bounded = omega arith;
  below = λ i p. refl;
  here = λ p. absurd (omega arith);
}
first_above-Turns a (r ∷ rs) =
    let rest = first_above-Turns a rs in
    elim (Bool-cases (ltb a (end r))) [
      | inl up ↦ rw up (record { bounded = omega arith; below = λ i p. elim p [ ]; here = λ p. up })
      | inr down ↦ rw down (record {
        bounded = omega (arith, rest.bounded);
        below = elim [ zero ↦ λ p. down | suc i ↦ λ p. rest.below i (omega arith) ];
        here = λ p. rest.here (omega arith);
      })
    ]

-- The region at that index, if it starts low enough, is the one that holds `a`.
pick_first : ℕ → List Region → ℕ → Option Region
pick_first a rs i = elim (get_elem? rs i) [
  | none ↦ none
  | some r ↦ if leb r.addr a then some r else none
]

pick_first-region_at :
    (lo a : ℕ) (rs : List Region)
    → Chain lo rs
    → pick_first a rs (first_above a rs) ≡ region_at rs a
unfolding pick_first first_above
pick_first-region_at lo a [] c = refl
pick_first-region_at lo a (r ∷ rs) c = ground (
  arith,
  pick_first-region_at (r.addr + r.size) a rs c.2,
  region_at_below (r.addr + r.size) rs a c.2,
)

-- On a well-formed table, `Find` returns the region that holds the address, and none when no
-- region does.
pub find-region_at : (s : Space) (a : ℕ) → IsValid s → find s a ≡ region_at s.regions a
unfolding find pick_first
find-region_at s a v = ap (pick_first a s.regions) same ∙ pick_first-region_at 0 a s.regions v
  where
    same : sort_search (length s.regions) (ends_above a s.regions) ≡ first_above a s.regions
    same =
        Turns-unique (ends_above a s.regions) (length s.regions) _ _
          (sort_search-Turns _ _ (ends_above-Rises 0 a s.regions v)) (first_above-Turns a s.regions)
