-- ===== src/Arm64/Flags/Meaning.antt =====
-- The condition table of internal/arm64/cpu.go against the meaning of the conditions.
use gonidbg.Base.{
  ℕ, ◌/◌, ◌%◌, ◌<◌, ◌≡◌, refl, ◌∙◌, Bool, true, not, ◌&&◌, ◌||◌, ◌==◌, if◌then◌else◌, arith, shr,
  all_below, all_below_pairs, same, same→eq,
}
use gonidbg.Arm64.Cpu.{Cpu}
use gonidbg.Arm64.Flags.{entry, cond}
use gonidbg.Arm64.Flags.Laws.{cond-entry, nzcv_word}
use gonidbg.Arm64.Flags.Compare.{nibble_digits}

-- What each condition asks of the four flags: EQ, NE, HS, LO, MI, PL, VS, VC, HI, LS, GE, LT, GT,
-- LE, and twice AL.
abbrev pub meaning : ℕ → ℕ → ℕ → ℕ → ℕ → Bool
meaning n z c v cc =
    if cc == 0
    then z == 1
    else if cc == 1
    then z == 0
    else if cc == 2
    then c == 1
    else if cc == 3
    then c == 0
    else if cc == 4
    then n == 1
    else if cc == 5
    then n == 0
    else if cc == 6
    then v == 1
    else if cc == 7
    then v == 0
    else if cc == 8
    then (c == 1) && (z == 0)
    else if cc == 9
    then (c == 0) || (z == 1)
    else if cc == 10
    then n == v
    else if cc == 11
    then not (n == v)
    else if cc == 12
    then (z == 0) && (n == v)
    else if cc == 13
    then (z == 1) || not (n == v)
    else true

meaning_table :
    all_below 16 (λ cc.
      all_below 16
        (λ f. same (entry f cc) (meaning (f / 8 % 2) (f / 4 % 2) (f / 2 % 2) (f / 1 % 2) cc)))
    ≡ true
unfolding all_below
meaning_table = refl

-- With the flags N, Z, C and V in the flags word, each of the 16 conditions holds exactly where
-- the architecture says: EQ with Z, HS with C, MI with N, VS with V, HI with C and not Z, GE where
-- N is V, GT where besides not Z, the odd ones where the even one before them does not, and 14
-- and 15 always.
pub cond-meaning :
    (c : Cpu) (k n z cf v : ℕ)
    → n < 2
    → z < 2
    → cf < 2
    → v < 2
    → c.nzcv ≡ nzcv_word n z cf v
    → k < 16
    → cond c k ≡ meaning n z cf v k
cond-meaning c k n z cf v hn hz hc hv word in_range =
    let (dn, dz, dc, dv, small) = nibble_digits c.nzcv n z cf v word (hn, hz, hc, hv) in
    cond-entry c k small in_range
    ∙ same→eq _ _ (
        all_below_pairs 16 16
          (λ j f. same (entry f j) (meaning (f / 8 % 2) (f / 4 % 2) (f / 2 % 2) (f / 1 % 2) j)) k
          (shr c.nzcv 28) meaning_table in_range (omega arith))
    ∙ rw (dn, dz, dc, dv) refl
