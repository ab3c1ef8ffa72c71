-- ===== src/Arm64/Flags/Laws.antt =====
-- What the flags word of internal/arm64/cpu.go says of a sum, and what a condition reads from it.
use gonidbg.Base.{
  ℕ, ◌+◌, ◌*◌, ◌/◌, ◌%◌, ◌^◌, ◌<◌, ◌≡◌, refl, ap, ap₂, ◌∙◌, Bool, true, false, not, bit_and, bit_or,
  bit_xor, ◌==◌, if◌then◌else◌, arith, shr, field, all_below, all_below_sound, all_below_pairs,
  ==→eq, ◌&&◌, same, same→eq,
}
use gonidbg.Base.Bits.{bit_and-div, bit_xor-div}
use gonidbg.Arm64.Cpu.{Cpu}
use gonidbg.Arm64.Flags.{
  flag_z, entry, cond_tab, cond, add_flags64, add_flags32, logic_flags64, logic_flags32,
}

cond_table :
    all_below 16 (λ cc.
      all_below 16
        (λ f. same (not (field (shr (cond_tab (field cc 0 4)) f) 0 1 == 0)) (entry f cc)))
    ≡ true
unfolding all_below cond_tab
cond_table = refl

-- The table that `init` builds says of each of the 16 conditions and of each 32-bit flags word
-- what the formula that it is built from says.
pub cond-entry :
    (c : Cpu) (cc : ℕ) → c.nzcv < 2 ^ 32 → cc < 16 → cond c cc ≡ entry (shr c.nzcv 28) cc
unfolding cond
cond-entry c cc small in_range = same→eq _ _ (
    all_below_pairs 16 16
      (λ k f. same (not (field (shr (cond_tab (field k 0 4)) f) 0 1 == 0)) (entry f k)) cc
      (shr c.nzcv 28) cond_table in_range (omega arith))

-- The flags word with the four flags in their places.
abbrev pub nzcv_word : ℕ → ℕ → ℕ → ℕ → ℕ
nzcv_word n z c v = n * 2 ^ 31 + z * 2 ^ 30 + c * 2 ^ 29 + v * 2 ^ 28

abbrev pub digit : Bool → ℕ
digit b = if b then 1 else 0

-- How the code packs them: Z last, where the others leave room for it.
abbrev packed : ℕ → ℕ → ℕ → Bool → ℕ
packed n c v z =
    let f = bit_or (bit_or (n * 2 ^ 31) (c * 2 ^ 29)) (v * 2 ^ 28) in
    if z then bit_or f flag_z else f

packed_digits :
    (n c v z : Bool)
    → packed (digit n) (digit c) (digit v) z ≡ nzcv_word (digit n) (digit z) (digit c) (digit v)
packed_digits true true true true = refl
packed_digits true true true false = refl
packed_digits true true false true = refl
packed_digits true true false false = refl
packed_digits true false true true = refl
packed_digits true false true false = refl
packed_digits true false false true = refl
packed_digits true false false false = refl
packed_digits false true true true = refl
packed_digits false true true false = refl
packed_digits false true false true = refl
packed_digits false true false false = refl
packed_digits false false true true = refl
packed_digits false false true false = refl
packed_digits false false false true = refl
packed_digits false false false false = refl

digit_of : (x : ℕ) → x < 2 → x ≡ digit (x == 1)
digit_of x h = ground arith

packed_word :
    (n c v : ℕ) (z : Bool) → n < 2 → c < 2 → v < 2 → packed n c v z ≡ nzcv_word n (digit z) c v
packed_word n c v z hn hc hv =
    go (n == 1) (c == 1) (v == 1) (digit_of n hn) (digit_of c hc) (digit_of v hv)
  where
    go :
        (bn bc bv : Bool)
        → n ≡ digit bn
        → c ≡ digit bc
        → v ≡ digit bv
        → packed n c v z ≡ nzcv_word n (digit z) c v
    go bn bc bv en ec ev = rw (en, ec, ev) (packed_digits bn bc bv z)

-- Signed overflow, from the sign digits of the operands and of the sum.
abbrev pub overflow : ℕ → ℕ → ℕ → ℕ
overflow x y z = if (x == y) && not (x == z) then 1 else 0

overflow_table :
    all_below 2 (λ x.
      all_below 2 (λ y. all_below 2 (λ z. bit_and (bit_xor x z) (bit_xor y z) == overflow x y z)))
    ≡ true
unfolding all_below
overflow_table = refl

overflow_bits :
    (x y z : ℕ) → x < 2 → y < 2 → z < 2 → bit_and (bit_xor x z) (bit_xor y z) ≡ overflow x y z
overflow_bits x y z hx hy hz = ==→eq _ _ (
    all_below_sound 2 _ z
      (all_below_pairs 2 2
        (λ x y. all_below 2 (λ z. bit_and (bit_xor x z) (bit_xor y z) == overflow x y z)) x y
        overflow_table hx hy)
      hz)

sign_bits :
    (k a b r : ℕ)
    → a / 2 ^ k < 2
    → b / 2 ^ k < 2
    → r / 2 ^ k < 2
    → bit_and (bit_xor a r) (bit_xor b r) / 2 ^ k ≡ overflow (a / 2 ^ k) (b / 2 ^ k) (r / 2 ^ k)
sign_bits k a b r ha hb hr =
    bit_and-div k (bit_xor a r) (bit_xor b r)
    ∙ ap₂ bit_and (bit_xor-div k a r) (bit_xor-div k b r)
    ∙ overflow_bits _ _ _ ha hb hr

-- For two 64-bit words and a carry in of 0 or 1, `addFlags64` returns their sum modulo 2^64,
-- with N its top digit, Z whether it is 0, C whether the sum reaches 2^64, and V whether the
-- operands have one sign and the result the other.
pub add_flags64_lem :
    (a b cin : ℕ)
    → a < 2 ^ 64
    → b < 2 ^ 64
    → cin < 2
    → let r = (a + b + cin) % 2 ^ 64 in
      add_flags64 a b cin ≡ record {
        value = r;
        flags =
            nzcv_word
              (r / 2 ^ 63)
              (digit (r == 0))
              ((a + b + cin) / 2 ^ 64)
              (overflow (a / 2 ^ 63) (b / 2 ^ 63) (r / 2 ^ 63));
      }
unfolding add_flags64
add_flags64_lem a b cin ha hb hc =
    ap (λ f. record { value = (a + b + cin) % 2 ^ 64; flags = f })
      (ap
          (λ v.
            packed ((a + b + cin) % 2 ^ 64 / 2 ^ 63) ((a + b + cin) / 2 ^ 64) v
              ((a + b + cin) % 2 ^ 64 == 0))
          (sign_bits 63 a b ((a + b + cin) % 2 ^ 64) (omega arith) (omega arith) (omega arith))
        ∙ packed_word _ _ _ _ (omega arith) (omega arith) (ground arith))

-- For two 32-bit words and a carry in of 0 or 1, `addFlags32` returns their sum modulo 2^32,
-- with N its top digit, Z whether it is 0, C whether the sum reaches 2^32, and V whether the
-- operands have one sign and the result the other.
pub add_flags32_lem :
    (a b cin : ℕ)
    → a < 2 ^ 32
    → b < 2 ^ 32
    → cin < 2
    → let r = (a + b + cin) % 2 ^ 32 in
      add_flags32 a b cin ≡ record {
        value = r;
        flags =
            nzcv_word
              (r / 2 ^ 31)
              (digit (r == 0))
              ((a + b + cin) / 2 ^ 32)
              (overflow (a / 2 ^ 31) (b / 2 ^ 31) (r / 2 ^ 31));
      }
unfolding add_flags32
add_flags32_lem a b cin ha hb hc =
    ap (λ f. record { value = (a + b + cin) % 2 ^ 32; flags = f })
      (ap
          (λ v.
            packed ((a + b + cin) % 2 ^ 32 / 2 ^ 31) ((a + b + cin) / 2 ^ 32) v
              ((a + b + cin) % 2 ^ 32 == 0))
          (sign_bits 31 a b ((a + b + cin) % 2 ^ 32) (omega arith) (omega arith) (omega arith))
        ∙ packed_word _ _ _ _ (omega arith) (omega arith) (ground arith))

-- A logical result sets N and Z, and clears C and V.
pub logic_flags64_lem :
    (r : ℕ) → r < 2 ^ 64 → logic_flags64 r ≡ nzcv_word (r / 2 ^ 63) (digit (r == 0)) 0 0
unfolding logic_flags64
logic_flags64_lem r h = ground arith

pub logic_flags32_lem :
    (r : ℕ) → r < 2 ^ 32 → logic_flags32 r ≡ nzcv_word (r / 2 ^ 31) (digit (r == 0)) 0 0
unfolding logic_flags32
logic_flags32_lem r h = ground arith
