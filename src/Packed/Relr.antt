-- ===== src/Packed/Relr.antt =====
-- `decodeRELR` and `decodeREL` of internal/loader/packed.go.
use gonidbg.Base.{
  ℕ, zero, suc, ◌+◌, ◌*◌, ◌/◌, ◌%◌, ◌^◌, ◌≤◌, ◌<◌, ◌≡◌, refl, ap, sym, arith, ◌==◌, if◌then◌else◌,
  add64, shr, u32, List, [], ◌∷◌, ◌++◌, Bool-cases, inl, inr, ==→eq,
}
use native.Mathlib.Nat.{pow-suc}
use gonidbg.Base.Bits.{bit, div-pow-suc, bit-zero}
use gonidbg.Packed.{Reloc, Implicit}
use gonidbg.Packed.Groups.{implicit_at}

-- `R_AARCH64_RELATIVE`
abbrev pub relative : ℕ
relative = 1027

-- The little-endian words of eight bytes, without the rest: `word` holds the first `n` bytes.
pub words_from : ℕ → ℕ → List ℕ → List ℕ
words_from n word [] = []
words_from n word (b ∷ bs) =
    let more = word + b * 2 ^ (8 * n) in
    let ended = words_from 0 0 bs in
    let later = words_from (n + 1) more bs in if n == 7 then more ∷ ended else later

unfoldable pub words64 : List ℕ → List ℕ
unfolding words_from
words64 bytes = words_from 0 0 bytes

-- The loop on the bits of a bitmap: the addresses that it emits.
pub bitmap_loop : ℕ → ℕ → ℕ → List ℕ
bitmap_loop zero bits at = []
bitmap_loop (suc fuel) bits at =
    let rest = bitmap_loop fuel (shr bits 1) (add64 at 8) in
    if bits == 0 then [] else if bits % 2 == 1 then at ∷ rest else rest

-- The loop on the words. A bitmap has 63 bits.
pub relr_loop : List ℕ → ℕ → List ℕ
unfolding bitmap_loop
relr_loop [] at = []
relr_loop (e ∷ es) at =
    if e % 2 == 0
    then e ∷ relr_loop es (add64 e 8)
    else bitmap_loop 63 (shr e 1) at ++ relr_loop es (add64 at (63 * 8))

abbrev relative_at : Implicit → ℕ → Reloc
relative_at implicit at = record {
  offset = at;
  kind = relative;
  sym = 0;
  addend = implicit_at implicit at;
}

abbrev emit_all : Implicit → List ℕ → List Reloc
emit_all implicit [] = []
emit_all implicit (at ∷ ats) = relative_at implicit at ∷ emit_all implicit ats

unfoldable pub decode_relr : List ℕ → Implicit → List Reloc
unfolding words64 relr_loop
decode_relr bytes implicit = emit_all implicit (relr_loop (words64 bytes) 0)

-- The loop of `decodeREL` on pairs of words: an offset and an info.
abbrev rel_loop : Implicit → List ℕ → List Reloc
rel_loop implicit [] = []
rel_loop implicit (off ∷ []) = []
rel_loop implicit (off ∷ info ∷ ws) =
    record { offset = off; kind = u32 info; sym = shr info 32; addend = implicit_at implicit off }
    ∷ rel_loop implicit ws

unfoldable pub decode_rel : List ℕ → Implicit → List Reloc
unfolding words64
decode_rel bytes implicit = rel_loop implicit (words64 bytes)

-- The slots of eight bytes from `at` on that the digits `k .. k + n - 1` of `bits` select, in order.
abbrev pub selected : ℕ → ℕ → ℕ → ℕ → List ℕ
selected zero k bits at = []
selected (suc n) k bits at =
    let rest = selected n (suc k) bits at in
    if bit bits k == 1 then (at + 8 * k) % 2 ^ 64 ∷ rest else rest

none-selected : (n k at : ℕ) → selected n k 0 at ≡ []
none-selected zero k at = refl
none-selected (suc n) k at = rw (bit-zero k) (none-selected n (suc k) at)

-- Dropping a digit and moving on by a slot.
selected-half :
    (n k bits at : ℕ) → selected n k (bits / 2) ((at + 8) % 2 ^ 64) ≡ selected n (suc k) bits at
selected-half zero k bits at = refl
selected-half (suc n) k bits at =
    let digit : bit (bits / 2) k ≡ bit bits (suc k) = ap (λ t. t % 2) (sym (div-pow-suc bits k)) in
    let slot : ((at + 8) % 2 ^ 64 + 8 * k) % 2 ^ 64 ≡ (at + 8 * suc k) % 2 ^ 64 = omega arith in
    rw (digit, slot, selected-half n (suc k) bits at) refl

-- From an address within 64 bits, the bitmap loop emits the slots that the digits select, in
-- order, and ends: for a bitmap of `n` digits, `n` rounds of fuel or more give that result.
pub bitmap_loop-selected :
    (n fuel bits at : ℕ)
    → n ≤ fuel
    → bits < 2 ^ n
    → at < 2 ^ 64
    → bitmap_loop fuel bits at ≡ selected n 0 bits at
unfolding bitmap_loop
bitmap_loop-selected zero zero bits at h small fits = refl
bitmap_loop-selected zero (suc fuel) bits at h small fits = ground arith
bitmap_loop-selected (suc n) zero bits at h small fits = absurd (omega arith)
bitmap_loop-selected (suc n) (suc fuel) bits at h small fits = elim (Bool-cases (bits == 0)) [
  | inl empty ↦
      let none : bits ≡ 0 = ==→eq bits 0 empty in rw none (sym (none-selected (suc n) 0 at))
  | inr some ↦
      let first : (at + 8 * 0) % 2 ^ 64 ≡ at = omega arith in
      let lowest : bit bits 0 ≡ bits % 2 = omega arith in
      rw
        (
          some,
          first,
          lowest,
          bitmap_loop-selected n fuel (shr bits 1) (add64 at 8) (omega arith)
              (omega (arith, pow-suc 2 n)) (omega arith),
          selected-half n 0 bits at,
        )
        refl
]
