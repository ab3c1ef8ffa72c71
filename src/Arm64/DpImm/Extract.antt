-- ===== src/Arm64/DpImm/Extract.antt =====
-- UBFM of internal/arm64/decode.go as LSR and UBFX.
use gonidbg.Base.{
  ℕ, ◌+◌, ◌-◌, ◌*◌, ◌/◌, ◌%◌, ◌^◌, ◌≤◌, ◌<◌, ◌≡◌, refl, ap, ap₂, ◌∙◌, arith, some, bit_and, bit_or,
  shl64, ror64, field,
}
use native.Mathlib.Nat.{mod-mod_of_dvd, mod-eq-zero_of_dvd, dvd-mul_left, dvd-mul_left_of_dvd}
use Prim.Native.Nat.{◌∣◌}
use gonidbg.Base.Bits.{bit_and_mask, bit_or-mod, bit_or-zero, two-pow-add}
use gonidbg.Arm64.Cpu.{Cpu, xr, xw}
use gonidbg.Arm64.Inst.{Inst, of_imm, ubfm64, zero_inst, pick4x2}
use gonidbg.Arm64.BitMasks.{masks_of}
use gonidbg.Arm64.BitMasks.Tables.{decode_bit_masks-whole, masks_join, bit_and_assoc}
use gonidbg.Arm64.DpImm.{exec_imm}
use gonidbg.Arm64.DpImm.Decode.{decode_dp_imm, decode_bitfield, if_masks}
use gonidbg.Arm64.Step.{decode, exec, step, next, run_decoded}
use gonidbg.Arm64.Step.Programs.{wrote}

pow-dvd : (k m : ℕ) → k ≤ m → 2 ^ k ∣ 2 ^ m
pow-dvd k m h = rw split (dvd-mul_left (2 ^ k) (2 ^ (m - k)))
  where
    split : 2 ^ m ≡ 2 ^ (m - k) * 2 ^ k
    split = ap (λ t. 2 ^ t) (omega arith) ∙ two-pow-add (m - k) k

shifted-mod : (x k m : ℕ) → k ≤ m → m ≤ 64 → shl64 x m % 2 ^ k ≡ 0
shifted-mod x k m h1 h2 =
    mod-mod_of_dvd (2 ^ k) (x * 2 ^ m) (pow-dvd k 64 (omega arith))
    ∙ mod-eq-zero_of_dvd (2 ^ k) (dvd-mul_left_of_dvd (2 ^ k) (pow-dvd k m h1) x)

extract_value :
    (x r s : ℕ)
    → r ≤ s
    → s < 64
    → let m = masks_of 6 s r 64 in
      bit_and (bit_and (ror64 x r) m.wmask) m.tmask ≡ x / 2 ^ r % 2 ^ (s - r + 1)
extract_value x r s h1 h2 =
    let m = masks_of 6 s r 64 in
    bit_and_assoc (ror64 x r) m.wmask m.tmask
    ∙ ap (bit_and (ror64 x r)) (masks_join r s h1 h2)
    ∙ bit_and_mask (s - r + 1) (ror64 x r)
    ∙ bit_or-mod (s - r + 1) (x / 2 ^ (r % 64)) (shl64 x (64 - r % 64))
    ∙ ap₂ bit_or (ap (λ t. x / 2 ^ t % 2 ^ (s - r + 1)) (omega arith))
        (shifted-mod x (s - r + 1) (64 - r % 64) (omega arith) (omega arith))
    ∙ bit_or-zero (x / 2 ^ r % 2 ^ (s - r + 1))

-- The word for UBFM, 64-bit: digits `r .. s` of `rn` to `rd`.
abbrev pub ubfm_word : ℕ → ℕ → ℕ → ℕ → ℕ
ubfm_word rd rn r s = 0xd340_0000 + r * 2 ^ 16 + s * 2 ^ 10 + rn * 2 ^ 5 + rd

module _ (rd rn r s : ℕ) (hd : rd < 31) (hn : rn < 32) (hr : r < 64) (hs : s < 64) where
  abbrev word : ℕ
  word = ubfm_word rd rn r s

  fields :
      (word / 2 ^ 31 ≡ 1)
      × (field word 29 2 ≡ 2)
      × (field word 22 1 ≡ 1)
      × (field word 16 6 ≡ r)
      × (field word 10 6 ≡ s)
      × (xw (field word 0 5) ≡ rd)
      × (xr (field word 5 5) ≡ rn)
  unfolding xw xr
  fields = ground arith

  group : (field word 25 4 ≡ 9) × (field word 23 3 ≡ 6)
  group = omega arith

  abbrev decoded : Inst
  decoded = record zero_inst {
    rd = rd;
    rn = rn;
    imm = (masks_of 6 s r 64).wmask;
    imm2 = (masks_of 6 s r 64).tmask;
    amt = r;
    sh = s;
    fn = some (of_imm ubfm64);
  }

  decode_bitfield-word : decode_bitfield zero_inst word ≡ decoded
  unfolding decode_bitfield if_masks pick4x2
  decode_bitfield-word =
      rw
        (
          fields.0,
          fields.1,
          fields.2,
          fields.3,
          fields.4,
          fields.5,
          fields.6,
          decode_bit_masks-whole s r hs,
        )
        refl

  decode-word : (pc : ℕ) → decode zero_inst word pc ≡ some decoded
  unfolding decode decode_dp_imm
  decode-word pc = rw (group.0, group.1) (ap some decode_bitfield-word)

-- A word that encodes UBFM with the digits `r` to `s` of a 64-bit register, `r` at most `s`, and
-- a destination among X0 to X30, writes those digits of the source to the destination, with
-- zeros above: it is UBFX, and LSR where `s` is 63. The state goes on by one instruction and is
-- else as it was.
pub step-ubfm_word :
    (c : Cpu) (rd rn r s : ℕ)
    → rd < 31
    → rn < 32
    → r ≤ s
    → s < 64
    → step c (ubfm_word rd rn r s) ≡ next (wrote c rd (c.r rn / 2 ^ r % 2 ^ (s - r + 1)))
unfolding step exec exec_imm
step-ubfm_word c rd rn r s hd hn h hs =
    ap (run_decoded c (ubfm_word rd rn r s)) (decode-word rd rn r s hd hn (omega arith) hs c.pc)
    ∙ ap (λ v. next (wrote c rd v)) (extract_value (c.r rn) r s h hs)
