-- ===== src/Arm64/LdSt/Agree.antt =====
-- The specialised loads of internal/arm64/ldst.go against the generic ones.
use gonidbg.Base.{
  ℕ, ◌^◌, ◌<◌, ◌≡◌, refl, arith, Bool, true, false, not, ◌&&◌, Bool-cases, inl, inr, ◌==◌, ==→eq,
  if◌then◌else◌, u8, u32, ap, sym, ◌∙◌, [], none, some,
}
use gonidbg.Arm64.Cpu.{Cpu}
use gonidbg.Arm64.Inst.{
  Inst, LdStOp, load_off, load_wb, load_reg, ldr64_off, ldr32_off, ldrb64_off, ldr64_reg, ldr32_reg,
  ldrb64_reg,
}
use gonidbg.Arm64.Mem.{Memory}
use gonidbg.Arm64.Mem.Guest.{HookCode, mem_read, Got, got, fault, then_got, read_slow}
use gonidbg.Arm64.Mem.Guest.Access.{hit, fits, fast_load, read8, read32, read64, read_n}
use gonidbg.Arm64.Mem.Coherent.{IsCoherent}
use gonidbg.Arm64.Mem.View.{
  view, byte_at, word_at, Answer, answer, refused, answer_of, refusal, flat_read,
}
use gonidbg.Arm64.Mem.Reads.{map_answer, same_answer, read_slow-IsRead}
use gonidbg.Arm64.Mem.ReadSizes.{narrow8, narrow32}
use gonidbg.Arm64.LdSt.{Ran, ran, on_got, then_ran, mode_off, mode_reg, ext_zero}
use gonidbg.Arm64.LdSt.Access.{addr_off, addr_reg, extended, ld_int, at_off, at_reg, set_r, done}
use gonidbg.Arm64.LdSt.Hot.{hot_load, hot_load_byte}
use gonidbg.Arm64.LdSt.Decode.{by_mode, hot_or, hot_ldst, hot_ldst_reg, ldst_op}
use gonidbg.Arm64.LdSt.Exec.{exec_ldst}

value_of : Answer ℕ → ℕ
value_of (answer v) = v
value_of (refused e) = 0

-- A cut that keeps the word of the view changes nothing.
uncut :
    (pc : ℕ) (m : Memory) (a size : ℕ) (k : ℕ → ℕ) (r : Got ℕ)
    → k (word_at (byte_at m) a 0 size) ≡ word_at (byte_at m) a 0 size
    → answer_of r ≡ flat_read pc (view m) a size
    → then_got r (λ v m. got (k v) m) ≡ r
unfolding value_of map_answer
uncut pc m a size k (got v n) same e =
    ap (λ t. got t n)
      (ap value_of
        (ap (map_answer k) e ∙ same_answer (refusal pc (view m) mem_read a size) k _ same ∙ sym e))
uncut pc m a size k (fault f n) same e = refl

module _ (code : HookCode) (c : Cpu) (m : Memory) (co : IsCoherent m) (silent : m.invalid ≡ [])
    (free : m.rhooks ≡ []) (i : Inst) (plain : (i.sh == ext_zero) ≡ true) (a : ℕ)
    (ha : a < 2 ^ 64) where
  -- A generic load that does not extend.
  loads :
      (r : Got ℕ)
      → then_ran (on_got r c (λ v n. ran (set_r c i.rd (extended i v)) n)) done
        ≡ on_got r c (λ v n. done (set_r c i.rd v) n)
  unfolding extended
  loads (got v n) = ap (λ t. done (set_r c i.rd t) n) (ground (arith, plain))
  loads (fault e n) = refl

  read32-hot :
      read32 code c.pc a m
      ≡ (if hit m.rtlb a && fits a 4 then fast_load a 4 m else read_slow code c.pc a 4 m)
  unfolding read32
  read32-hot =
      ap (λ t. if hit m.rtlb a && fits a 4 then fast_load a 4 m else t)
        (uncut c.pc m a 4 u32 _ (narrow32 code c.pc m co silent free a ha)
          (read_slow-IsRead code c.pc m co silent free a ha 4 refl).result)

  read8-hot :
      read8 code c.pc a m ≡ (if hit m.rtlb a then fast_load a 1 m else read_slow code c.pc a 1 m)
  unfolding read8
  read8-hot =
      ap (λ t. if hit m.rtlb a then fast_load a 1 m else t)
        (uncut c.pc m a 1 u8 _ (narrow8 code c.pc m co silent free a ha)
          (read_slow-IsRead code c.pc m co silent free a ha 1 refl).result)

  -- What follows the read of a specialised load.
  abbrev assign : Got ℕ → Ran
  assign r = on_got r c (λ v n. done (set_r c i.rd v) n)

  of_size :
      (n : ℕ) (r : Got ℕ)
      → i.sz ≡ n
      → read_n code c.pc a n m ≡ r
      → assign r ≡ then_ran (ld_int code c i a m) done
  unfolding ld_int
  of_size n r e h = sym (
      loads (read_n code c.pc a i.sz m) ∙ ap (λ s. assign (read_n code c.pc a s m)) e ∙ ap assign h)

  pub hot64 : i.sz ≡ 8 → hot_load code 8 c i a m ≡ then_ran (ld_int code c i a m) done
  unfolding hot_load read_n read64
  hot64 e = of_size 8 _ e refl

  pub hot32 : i.sz ≡ 4 → hot_load code 4 c i a m ≡ then_ran (ld_int code c i a m) done
  unfolding hot_load read_n
  hot32 e = of_size 4 _ e read32-hot

  pub hot8 : i.sz ≡ 1 → hot_load_byte code c i a m ≡ then_ran (ld_int code c i a m) done
  unfolding hot_load_byte read_n
  hot8 e = of_size 1 _ e read8-hot

-- The choice of a handler by the extension and the size, over any claim on handlers.
picks :
    (P : LdStOp → Type 0) (a8 a4 a1 generic : LdStOp) (plain b8 b4 b1 : Bool)
    → (plain ≡ true → b8 ≡ true → P a8)
    → (plain ≡ true → b4 ≡ true → P a4)
    → (plain ≡ true → b1 ≡ true → P a1)
    → P generic
    → P (
        hot_or
          (if not plain
            then none
            else if b8
            then some a8
            else if b4
            then some a4
            else if b1
            then some a1
            else none)
          generic)
picks P a8 a4 a1 generic false b8 b4 b1 h8 h4 h1 g = g
picks P a8 a4 a1 generic true true b4 b1 h8 h4 h1 g = h8 refl refl
picks P a8 a4 a1 generic true false true b1 h8 h4 h1 g = h4 refl refl
picks P a8 a4 a1 generic true false false true h8 h4 h1 g = h1 refl refl
picks P a8 a4 a1 generic true false false false h8 h4 h1 g = g

module _ (code : HookCode) (c : Cpu) (m : Memory) (co : IsCoherent m) (silent : m.invalid ≡ [])
    (free : m.rhooks ≡ []) (i : Inst) where
  off_case :
      exec_ldst code (hot_or (hot_ldst true i.sz i.sh) load_off) c i m
      ≡ exec_ldst code load_off c i m
  unfolding exec_ldst hot_ldst at_off
  off_case =
      let a = addr_off c i in
      picks (λ op. exec_ldst code op c i m ≡ exec_ldst code load_off c i m) ldr64_off ldr32_off
        ldrb64_off load_off (i.sh == ext_zero) (i.sz == 8) (i.sz == 4) (i.sz == 1)
        (λ p e. hot64 code c m co silent free i p a (omega arith) (==→eq _ _ e))
        (λ p e. hot32 code c m co silent free i p a (omega arith) (==→eq _ _ e))
        (λ p e. hot8 code c m co silent free i p a (omega arith) (==→eq _ _ e)) refl

  reg_case :
      exec_ldst code (hot_or (hot_ldst_reg true i.sz i.sh) load_reg) c i m
      ≡ exec_ldst code load_reg c i m
  unfolding exec_ldst hot_ldst_reg at_reg
  reg_case =
      let a = addr_reg c i in
      picks (λ op. exec_ldst code op c i m ≡ exec_ldst code load_reg c i m) ldr64_reg ldr32_reg
        ldrb64_reg load_reg (i.sh == ext_zero) (i.sz == 8) (i.sz == 4) (i.sz == 1)
        (λ p e. hot64 code c m co silent free i p a (omega arith) (==→eq _ _ e))
        (λ p e. hot32 code c m co silent free i p a (omega arith) (==→eq _ _ e))
        (λ p e. hot8 code c m co silent free i p a (omega arith) (==→eq _ _ e)) refl

-- What `setLdSt` picks for an integer load, by mode.
op_off :
    (i : Inst)
    → (i.cond == mode_off) ≡ true
    → ldst_op i false true ≡ hot_or (hot_ldst true i.sz i.sh) load_off
unfolding ldst_op
op_off i e = ground (arith, e)

op_reg :
    (i : Inst)
    → (i.cond == mode_off) ≡ false
    → (i.cond == mode_reg) ≡ true
    → ldst_op i false true ≡ hot_or (hot_ldst_reg true i.sz i.sh) load_reg
unfolding ldst_op
op_reg i e f = ground (arith, e, f)

op_wb :
    (i : Inst)
    → (i.cond == mode_off) ≡ false
    → (i.cond == mode_reg) ≡ false
    → ldst_op i false true ≡ by_mode i.cond load_off load_wb load_reg
unfolding ldst_op
op_wb i e f = ground (arith, e, f)

-- On coherent caches, without hooks, the handler that `setLdSt` picks for an integer load, which
-- may be a specialised one with the TLB inline, ends as the generic handler of the addressing mode
-- does: with the same registers and memory, or the same fault.
pub exec_ldst-ldst_op :
    (code : HookCode) (c : Cpu) (m : Memory) (i : Inst)
    → IsCoherent m
    → m.invalid ≡ []
    → m.rhooks ≡ []
    → exec_ldst code (ldst_op i false true) c i m
      ≡ exec_ldst code (by_mode i.cond load_off load_wb load_reg) c i m
exec_ldst-ldst_op code c m i co silent free = elim (Bool-cases (i.cond == mode_off)) [
  | inl e ↦
      ap (λ op. exec_ldst code op c i m) (op_off i e)
      ∙ off_case code c m co silent free i
      ∙ ap (λ op. exec_ldst code op c i m) (ground (arith, e))
  | inr e ↦ elim (Bool-cases (i.cond == mode_reg)) [
    | inl f ↦
        ap (λ op. exec_ldst code op c i m) (op_reg i e f)
        ∙ reg_case code c m co silent free i
        ∙ ap (λ op. exec_ldst code op c i m) (ground (arith, e, f))
    | inr f ↦ ap (λ op. exec_ldst code op c i m) (op_wb i e f)
  ]
]
