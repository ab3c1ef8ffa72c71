-- ===== src/Arm64/Inst.antt =====
-- internal/arm64/cpu.go, decode.go and dpreg.go: decoded instructions. A handler, which Go stores
-- as a function, is named by a constructor of `Op`, and its meaning is given by the `exec` functions.
use gonidbg.Base.{ℕ, Bool, ◌==◌, if◌then◌else◌, Option, none, field}

-- Handlers of decode.go for immediates.
pub data ImmOp : Type 0 where
  mov_imm : ImmOp
  add_imm64 adds_imm64 sub_imm64 subs_imm64 : ImmOp
  add_imm32 adds_imm32 sub_imm32 subs_imm32 : ImmOp
  and_imm64 orr_imm64 eor_imm64 ands_imm64 : ImmOp
  and_imm32 orr_imm32 eor_imm32 ands_imm32 : ImmOp
  movk64 movk32 : ImmOp
  sbfm64 bfm64 ubfm64 sbfm32 bfm32 ubfm32 : ImmOp
  extr64 extr32 : ImmOp

-- Handlers of dpreg.go with shifted or extended operands, or with the carry.
pub data ArithOp : Type 0 where
  mov_reg64 mov_reg32 : ArithOp
  and_reg64 bic_reg64 orr_reg64 orn_reg64 eor_reg64 eon_reg64 ands_reg64 bics_reg64 : ArithOp
  and_reg32 bic_reg32 orr_reg32 orn_reg32 eor_reg32 eon_reg32 ands_reg32 bics_reg32 : ArithOp
  add_reg64 adds_reg64 sub_reg64 subs_reg64 add_reg32 adds_reg32 sub_reg32 subs_reg32 : ArithOp
  add_ext64 adds_ext64 sub_ext64 subs_ext64 add_ext32 adds_ext32 sub_ext32 subs_ext32 : ArithOp
  adc64 adcs64 sbc64 sbcs64 adc32 adcs32 sbc32 sbcs32 : ArithOp

-- Handlers of dpreg.go that test a condition.
pub data CondOp : Type 0 where
  ccmn_reg64 ccmn_imm64 ccmp_reg64 ccmp_imm64 ccmn_reg32 ccmn_imm32 ccmp_reg32 ccmp_imm32 : CondOp
  csel64 csinc64 csinv64 csneg64 csel32 csinc32 csinv32 csneg32 : CondOp

-- The other handlers of dpreg.go: one, two and three sources.
pub data SourceOp : Type 0 where
  udiv64 udiv32 sdiv64 sdiv32 shift_v64 shift_v32 crc32 crc32c : SourceOp
  rbit64 rbit32 rev64 rev32 rev32_64 rev16_64 rev16_32 clz64 clz32 cls64 cls32 : SourceOp
  madd64 madd32 msub64 msub32 smaddl smsubl umaddl umsubl umulh smulh : SourceOp

-- Handlers of decode.go for branches and for the system registers.
pub data BranchOp : Type 0 where
  b_always bl b_cond cbz64 cbnz64 cbz32 cbnz32 tbz tbnz br blr : BranchOp

pub data SystemOp : Type 0 where
  nop clrex mov_imm2 mrs msr : SystemOp

-- Handlers that leave the register state: exceptions for the interrupt hooks, and `opDcZva`,
-- which clears memory. The decoder names them; what they do is outside this model.
pub data TrapOp : Type 0 where
  svc brk hlt dc_zva : TrapOp

-- Handlers of ldst.go.
pub data LdStOp : Type 0 where
  load_off load_wb load_reg store_off store_wb store_reg : LdStOp
  v_load_off v_load_wb v_load_reg v_store_off v_store_wb v_store_reg : LdStOp
  load_pair store_pair v_load_pair v_store_pair : LdStOp
  ldxr ldxp stxr stxp cas swp ld_atomic : LdStOp
  simd_load_multi simd_store_multi : LdStOp
  ldr64_off ldr32_off ldrb64_off str64_off str32_off strb64_off : LdStOp
  ldr64_reg ldr32_reg ldrb64_reg str64_reg str32_reg strb64_reg : LdStOp
  ldp64_off stp64_off : LdStOp

pub data Op : Type 0 where
  of_imm : ImmOp → Op
  of_arith : ArithOp → Op
  of_cond : CondOp → Op
  of_source : SourceOp → Op
  of_branch : BranchOp → Op
  of_system : SystemOp → Op
  of_trap : TrapOp → Op
  of_ldst : LdStOp → Op

-- `fn` is `none` where Go has nil.
pub record Inst : Type 0 where
  pub fn : Option Op
  pub imm : ℕ
  pub imm2 : ℕ
  pub rd : ℕ
  pub rn : ℕ
  pub rm : ℕ
  pub ra : ℕ
  pub cond : ℕ
  pub sh : ℕ
  pub amt : ℕ
  pub sz : ℕ

-- `*in = inst{}`
abbrev pub zero_inst : Inst
zero_inst = record {
  fn = none;
  imm = 0;
  imm2 = 0;
  rd = 0;
  rn = 0;
  rm = 0;
  ra = 0;
  cond = 0;
  sh = 0;
  amt = 0;
  sz = 0;
}

-- One of four by a 2-bit selector, out of the 64-bit or the 32-bit row.
unfoldable pub pick4x2 {ℓ} : {A : Type ℓ} → Bool → ℕ → A → A → A → A → A → A → A → A → A
pick4x2 sf sel a b c d a32 b32 c32 d32 =
    let k = field sel 0 2 in
    if sf
    then (if k == 0 then a else if k == 1 then b else if k == 2 then c else d)
    else (if k == 0 then a32 else if k == 1 then b32 else if k == 2 then c32 else d32)

unfoldable pub pick {ℓ} : {A : Type ℓ} → Bool → A → A → A
pick sf a b = if sf then a else b
