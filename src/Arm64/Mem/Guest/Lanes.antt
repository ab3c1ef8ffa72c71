-- ===== src/Arm64/Mem/Guest/Lanes.antt =====
-- Little-endian numbers in an array of bytes: `loadN` and `storeN` of internal/arm64/mem.go over
-- `encoding/binary`.
use mathlib.Core.Path.{subst}
use gonidbg.Base.{
  ℕ, zero, suc, ◌+◌, ◌-◌, ◌*◌, ◌/◌, ◌%◌, ◌^◌, Bool, ◌&&◌, ltb, leb, ◌==◌, if◌then◌else◌, true, ◌||◌,
  ◌≡◌, sym, Bool-cases, ==→eq, inl, inr, arith,
}

-- `n` bytes from `off` on, lowest first.
unfoldable pub le_load : (ℕ → ℕ) → ℕ → ℕ → ℕ
le_load b off zero = 0
le_load b off (suc n) = b off + 2 ^ 8 * le_load b (off + 1) n

abbrev pub le_store : (ℕ → ℕ) → ℕ → ℕ → ℕ → ℕ → ℕ
le_store b off n v i = if leb off i && ltb i (off + n) then v / 2 ^ (8 * (i - off)) % 2 ^ 8 else b i

-- The sizes that the two switches know; the default is 8.
abbrev pub width : ℕ → ℕ
width size = if size == 1 then 1 else if size == 2 then 2 else if size == 4 then 4 else 8

unfoldable pub load_n : (ℕ → ℕ) → ℕ → ℕ → ℕ
unfolding le_load
load_n b off size = le_load b off (width size)

unfoldable pub store_n : (ℕ → ℕ) → ℕ → ℕ → ℕ → ℕ → ℕ
store_n b off size v = le_store b off (width size) v

-- The sizes of an access, and a proof for each of them.
abbrev pub is_size : ℕ → Bool
is_size n = (n == 1) || (n == 2) || (n == 4) || (n == 8)

pub by_size : (P : ℕ → Type 0) → P 1 → P 2 → P 4 → P 8 → (n : ℕ) → is_size n ≡ true → P n
by_size P p1 p2 p4 p8 n sized = elim (Bool-cases (n == 1)) [
  | inl e ↦ subst P (sym (==→eq n 1 e)) p1
  | inr e ↦ elim (Bool-cases (n == 2)) [
    | inl e2 ↦ subst P (sym (==→eq n 2 e2)) p2
    | inr e2 ↦ elim (Bool-cases (n == 4)) [
      | inl e4 ↦ subst P (sym (==→eq n 4 e4)) p4
      | inr e4 ↦ subst P (sym (==→eq n 8 (ground (arith, e, e2, e4, sized)))) p8
    ]
  ]
]
