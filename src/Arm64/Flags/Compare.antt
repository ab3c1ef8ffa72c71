-- ===== src/Arm64/Flags/Compare.antt =====
-- The conditions of internal/arm64/cpu.go after a comparison: what B.cond, CSEL and CCMP test.
use gonidbg.Base.{
  ℕ, ◌+◌, ◌*◌, ◌/◌, ◌%◌, ◌^◌, ◌≤◌, ◌<◌, ◌≡◌, ◌↔◌, refl, ap, ◌∙◌, sym, true, not, ltb, leb, ◌==◌,
  arith, shr, not64, not32, all_below, all_below_pairs, same, same→eq, signed64, signed32, ◌≤ℤ◌,
  ◌<ℤ◌,
}
use gonidbg.Arm64.Cpu.{Cpu}
use gonidbg.Arm64.Flags.{entry, cond, add_flags64, add_flags32}
use gonidbg.Arm64.Flags.Laws.{
  cond-entry, nzcv_word, digit, overflow, add_flags64_lem, add_flags32_lem,
}

opposite_table :
    all_below 7 (λ k. all_below 16 (λ f. same (entry f (2 * k + 1)) (not (entry f (2 * k))))) ≡ true
unfolding all_below
opposite_table = refl

-- For a 32-bit flags word, each of the seven odd conditions below 15 is the negation of the even
-- one before it.
pub cond_opposite :
    (c : Cpu) (k : ℕ) → c.nzcv < 2 ^ 32 → k < 7 → cond c (2 * k + 1) ≡ not (cond c (2 * k))
cond_opposite c k small h =
    cond-entry c (2 * k + 1) small (omega arith)
    ∙ same→eq _ _ (
        all_below_pairs 7 16 (λ k f. same (entry f (2 * k + 1)) (not (entry f (2 * k)))) k
          (shr c.nzcv 28) opposite_table h (omega arith))
    ∙ ap not (sym (cond-entry c (2 * k) small (omega arith)))

-- The four flags of a flags word, one by one.
module _ (w n z c v : ℕ) (parts : w ≡ nzcv_word n z c v)
    (digits : (n < 2) × (z < 2) × (c < 2) × (v < 2)) where
  pub nibble_digits :
      (shr w 28 / 8 % 2 ≡ n)
      × (shr w 28 / 4 % 2 ≡ z)
      × (shr w 28 / 2 % 2 ≡ c)
      × (shr w 28 / 1 % 2 ≡ v)
      × (w < 2 ^ 32)
  nibble_digits = omega arith

-- What the comparison of `a` with `b` leaves in NZCV.
abbrev pub Compared64 : Cpu → ℕ → ℕ → Type 0
Compared64 c a b = c.nzcv ≡ (add_flags64 a (not64 b) 1).flags

module _ (c : Cpu) (a b : ℕ) (small_a : a < 2 ^ 64) (small_b : b < 2 ^ 64)
    (compared : Compared64 c a b) where
  abbrev difference64 : ℕ
  difference64 = (a + not64 b + 1) % 2 ^ 64

  facts64 :
      (shr c.nzcv 28 / 8 % 2 ≡ difference64 / 2 ^ 63)
      × (shr c.nzcv 28 / 4 % 2 ≡ digit (difference64 == 0))
      × (shr c.nzcv 28 / 2 % 2 ≡ (a + not64 b + 1) / 2 ^ 64)
      × (shr c.nzcv 28 / 1 % 2 ≡ overflow (a / 2 ^ 63) (not64 b / 2 ^ 63) (difference64 / 2 ^ 63))
      × (c.nzcv < 2 ^ 32)
  facts64 =
      nibble_digits c.nzcv _ _ _ _
        (compared
          ∙ ap (λ p. p.flags) (add_flags64_lem a (not64 b) 1 small_a (omega arith) (omega arith)))
        (omega arith, ground arith, omega arith, ground arith)

  eq64 : cond c 0 ≡ (a == b)
  eq64 = cond-entry c 0 facts64.4 (omega arith) ∙ ground (arith, facts64)

  hs64 : cond c 2 ≡ leb b a
  hs64 = cond-entry c 2 facts64.4 (omega arith) ∙ ground (arith, facts64)

  hi64 : cond c 8 ≡ ltb b a
  hi64 = cond-entry c 8 facts64.4 (omega arith) ∙ ground (arith, facts64)

  ge64 : (cond c 10 ≡ true) ↔ (signed64 b ≤ℤ signed64 a)
  ge64 = rw (cond-entry c 10 facts64.4 (omega arith)) (ground (arith, facts64))

  gt64 : (cond c 12 ≡ true) ↔ (signed64 b <ℤ signed64 a)
  gt64 = rw (cond-entry c 12 facts64.4 (omega arith)) (ground (arith, facts64))

  -- After SUBS or CMP of two 64-bit words, EQ is equality, HS and HI are the unsigned orders, and
  -- GE and GT the signed ones.
  pub cond-compared64 :
      ((cond c 0 ≡ true) ↔ (a ≡ b))
      × ((cond c 2 ≡ true) ↔ (b ≤ a))
      × ((cond c 8 ≡ true) ↔ (b < a))
      × ((cond c 10 ≡ true) ↔ (signed64 b ≤ℤ signed64 a))
      × ((cond c 12 ≡ true) ↔ (signed64 b <ℤ signed64 a))
  cond-compared64 = (
    (λ h. ground (arith, eq64), λ h. ground (arith, eq64)),
    (λ h. ground (arith, hs64), λ h. ground (arith, hs64)),
    (λ h. ground (arith, hi64), λ h. ground (arith, hi64)),
    ge64,
    gt64,
  )

-- What the comparison of `a` with `b` leaves in NZCV.
abbrev pub Compared32 : Cpu → ℕ → ℕ → Type 0
Compared32 c a b = c.nzcv ≡ (add_flags32 a (not32 b) 1).flags

module _ (c : Cpu) (a b : ℕ) (small_a : a < 2 ^ 32) (small_b : b < 2 ^ 32)
    (compared : Compared32 c a b) where
  abbrev difference32 : ℕ
  difference32 = (a + not32 b + 1) % 2 ^ 32

  facts32 :
      (shr c.nzcv 28 / 8 % 2 ≡ difference32 / 2 ^ 31)
      × (shr c.nzcv 28 / 4 % 2 ≡ digit (difference32 == 0))
      × (shr c.nzcv 28 / 2 % 2 ≡ (a + not32 b + 1) / 2 ^ 32)
      × (shr c.nzcv 28 / 1 % 2 ≡ overflow (a / 2 ^ 31) (not32 b / 2 ^ 31) (difference32 / 2 ^ 31))
      × (c.nzcv < 2 ^ 32)
  facts32 =
      nibble_digits c.nzcv _ _ _ _
        (compared
          ∙ ap (λ p. p.flags) (add_flags32_lem a (not32 b) 1 small_a (omega arith) (omega arith)))
        (omega arith, ground arith, omega arith, ground arith)

  eq32 : cond c 0 ≡ (a == b)
  eq32 = cond-entry c 0 facts32.4 (omega arith) ∙ ground (arith, facts32)

  hs32 : cond c 2 ≡ leb b a
  hs32 = cond-entry c 2 facts32.4 (omega arith) ∙ ground (arith, facts32)

  hi32 : cond c 8 ≡ ltb b a
  hi32 = cond-entry c 8 facts32.4 (omega arith) ∙ ground (arith, facts32)

  ge32 : (cond c 10 ≡ true) ↔ (signed32 b ≤ℤ signed32 a)
  ge32 = rw (cond-entry c 10 facts32.4 (omega arith)) (ground (arith, facts32))

  gt32 : (cond c 12 ≡ true) ↔ (signed32 b <ℤ signed32 a)
  gt32 = rw (cond-entry c 12 facts32.4 (omega arith)) (ground (arith, facts32))

  -- After SUBS or CMP of two 32-bit words, EQ is equality, HS and HI are the unsigned orders, and
  -- GE and GT the signed ones.
  pub cond-compared32 :
      ((cond c 0 ≡ true) ↔ (a ≡ b))
      × ((cond c 2 ≡ true) ↔ (b ≤ a))
      × ((cond c 8 ≡ true) ↔ (b < a))
      × ((cond c 10 ≡ true) ↔ (signed32 b ≤ℤ signed32 a))
      × ((cond c 12 ≡ true) ↔ (signed32 b <ℤ signed32 a))
  cond-compared32 = (
    (λ h. ground (arith, eq32), λ h. ground (arith, eq32)),
    (λ h. ground (arith, hs32), λ h. ground (arith, hs32)),
    (λ h. ground (arith, hi32), λ h. ground (arith, hi32)),
    ge32,
    gt32,
  )
