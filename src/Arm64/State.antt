-- ===== src/Arm64/State.antt =====
-- What holds of the register state of internal/arm64 between two instructions, and what the
-- decoder promises of an instruction.
pub mod Frame
pub mod Sets
pub mod Imm
pub mod Arith
pub mod Conditional
pub mod Sources
pub mod Control
use gonidbg.Base.{
  ℕ, ◌+◌, ◌-◌, ◌*◌, ◌/◌, ◌%◌, ◌^◌, ◌≤◌, ◌<◌, ◌≡◌, ◌≢◌, refl, ◌==◌, arith, if◌then◌else◌,
}
use gonidbg.Arm64.Cpu.{Cpu, r_zr, r_sink, update}
use gonidbg.Arm64.Inst.{Inst}
use gonidbg.Arm64.Flags.{add_flags64, add_flags32, logic_flags64, logic_flags32, Flagged}
use gonidbg.Arm64.Flags.Laws.{
  nzcv_word, add_flags64_lem, add_flags32_lem, logic_flags64_lem, logic_flags32_lem,
}
use gonidbg.Arm64.DpImm.{put, put_flags, put_flagged}

-- A flags word holds nothing below its four flags.
abbrev pub IsFlags : ℕ → Type 0
IsFlags f = (f < 2 ^ 32) × (f % 2 ^ 28 ≡ 0)

-- The zero register holds 0, and every word fits its type.
pub record IsCpu (c : Cpu) : Type 0 where
  pub zero_register : c.r r_zr ≡ 0
  pub registers : (n : ℕ) → c.r n < 2 ^ 64
  pub flags : IsFlags c.nzcv
  pub pc_fits : c.pc < 2 ^ 64
  pub fpcr_fits : c.fpcr < 2 ^ 32
  pub fpsr_fits : c.fpsr < 2 ^ 32
  pub tpidr_fits : c.tpidr < 2 ^ 64
  pub tpidrro_fits : c.tpidrro < 2 ^ 64
  pub icount_fits : c.icount < 2 ^ 64

-- No instruction names the zero register as a destination, and every field fits its use.
pub record IsInst (i : Inst) : Type 0 where
  pub rd_writable : i.rd ≢ r_zr
  pub rd_slot : i.rd ≤ r_sink
  pub rn_slot : i.rn ≤ r_sink
  pub rm_slot : i.rm ≤ r_sink
  pub ra_slot : i.ra ≤ r_sink
  pub cond_fits : i.cond < 16
  pub sh_fits : i.sh < 64
  pub amt_fits : i.amt < 64
  pub imm_fits : i.imm < 2 ^ 64
  pub imm2_fits : i.imm2 < 2 ^ 64

module _ {c : Cpu} {i : Inst} (wf : IsCpu c) (ok : IsInst i) where
  pub put-IsCpu : (v : ℕ) → v < 2 ^ 64 → IsCpu (put c i v)
  put-IsCpu v fits = record {
    zero_register = ground (arith, wf, ok);
    registers = λ n. ground (arith, wf.registers n);
    flags = wf.flags;
    pc_fits = omega arith;
    fpcr_fits = wf.fpcr_fits;
    fpsr_fits = wf.fpsr_fits;
    tpidr_fits = wf.tpidr_fits;
    tpidrro_fits = wf.tpidrro_fits;
    icount_fits = wf.icount_fits;
  }

  pub put_flags-IsCpu : (v f : ℕ) → v < 2 ^ 64 → IsFlags f → IsCpu (put_flags c i v f)
  put_flags-IsCpu v f fits good = record {
    zero_register = ground (arith, wf, ok);
    registers = λ n. ground (arith, wf.registers n);
    flags = good;
    pc_fits = omega arith;
    fpcr_fits = wf.fpcr_fits;
    fpsr_fits = wf.fpsr_fits;
    tpidr_fits = wf.tpidr_fits;
    tpidrro_fits = wf.tpidrro_fits;
    icount_fits = wf.icount_fits;
  }

  pub put_flagged-IsCpu :
      (p : Flagged) → p.value < 2 ^ 64 → IsFlags p.flags → IsCpu (put_flagged c i p)
  put_flagged-IsCpu p fits good = put_flags-IsCpu p.value p.flags fits good

nzcv_word-IsFlags : (n z c v : ℕ) → n < 2 → z < 2 → c < 2 → v < 2 → IsFlags (nzcv_word n z c v)
nzcv_word-IsFlags n z c v hn hz hc hv = omega arith

-- A sum with its flags is a word with a flags word.
abbrev pub IsFlagged : ℕ → Flagged → Type 0
IsFlagged w p = (p.value < 2 ^ w) × IsFlags p.flags

pub add_flags64-IsFlagged :
    (a b cin : ℕ) → a < 2 ^ 64 → b < 2 ^ 64 → cin < 2 → IsFlagged 64 (add_flags64 a b cin)
add_flags64-IsFlagged a b cin ha hb hc = rw (add_flags64_lem a b cin ha hb hc) (
  omega arith,
  nzcv_word-IsFlags _ _ _ _ (omega arith) (ground arith) (omega arith) (ground arith),
)

pub add_flags32-IsFlagged :
    (a b cin : ℕ) → a < 2 ^ 32 → b < 2 ^ 32 → cin < 2 → IsFlagged 32 (add_flags32 a b cin)
add_flags32-IsFlagged a b cin ha hb hc = rw (add_flags32_lem a b cin ha hb hc) (
  omega arith,
  nzcv_word-IsFlags _ _ _ _ (omega arith) (ground arith) (omega arith) (ground arith),
)

pub logic_flags64-IsFlags : (r : ℕ) → r < 2 ^ 64 → IsFlags (logic_flags64 r)
logic_flags64-IsFlags r h =
    rw (logic_flags64_lem r h)
      (nzcv_word-IsFlags _ _ 0 0 (omega arith) (ground arith) (omega arith) (omega arith))

pub logic_flags32-IsFlags : (r : ℕ) → r < 2 ^ 32 → IsFlags (logic_flags32 r)
logic_flags32-IsFlags r h =
    rw (logic_flags32_lem r h)
      (nzcv_word-IsFlags _ _ 0 0 (omega arith) (ground arith) (omega arith) (omega arith))
