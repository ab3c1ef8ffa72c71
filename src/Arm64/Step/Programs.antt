-- ===== src/Arm64/Step/Programs.antt =====
-- Short instruction sequences of internal/arm64, decoded and executed word by word.
use gonidbg.Base.{
  ℕ, zero, suc, ◌+◌, ◌*◌, ◌/◌, ◌%◌, ◌^◌, ◌<◌, ◌≡◌, refl, ap, ◌∙◌, arith, add64, List, [], ◌∷◌,
}
use mathlib.Core.Path.{fun_ext}
use gonidbg.Arm64.Cpu.{Cpu, update}
use gonidbg.Arm64.DpImm.{exec_imm}
use gonidbg.Arm64.DpImm.Moves.{
  with_part, movk_value, movz_word, movk_word, decode-movz, decode-movk,
}
use gonidbg.Arm64.Step.{exec, step, Outcome, next, undefined, outside, run_decoded}

-- What a step leaves that writes `v` to the register `rd` and goes on to the next word.
abbrev pub wrote : Cpu → ℕ → ℕ → Cpu
wrote c rd v = record c { r = update c.r rd v; pc = add64 c.pc 4; icount = add64 c.icount 1 }

step-movz_word :
    (c : Cpu) (rd imm : ℕ)
    → rd < 31
    → imm < 2 ^ 16
    → step c (movz_word rd imm) ≡ next (wrote c rd imm)
unfolding step exec exec_imm
step-movz_word c rd imm h1 h2 =
    ap (run_decoded c (movz_word rd imm)) (decode-movz rd imm c.pc h1 h2)

-- A word that encodes MOVK for one of X0 to X30, if that holds a 64-bit number, replaces one
-- 16-bit part of the register and keeps the other three, for every part and value. The state
-- goes on by one instruction and is else as it was.
pub step-movk_word :
    (c : Cpu) (rd hw imm : ℕ)
    → c.r rd < 2 ^ 64
    → rd < 31
    → hw < 4
    → imm < 2 ^ 16
    → step c (movk_word rd hw imm) ≡ next (wrote c rd (with_part (c.r rd) hw imm))
unfolding step exec exec_imm
step-movk_word c rd hw imm fits h1 h2 h3 =
    ap (run_decoded c (movk_word rd hw imm)) (decode-movk rd hw imm c.pc h1 h2 h3)
    ∙ ap (λ v. next (wrote c rd v)) (movk_value hw (c.r rd) imm h2 fits h3)

-- Executing one word after another, for as long as there is a state to go on with.
abbrev pub then_word : Outcome → ℕ → Outcome
then_word (next c) raw = step c raw
then_word (undefined pc bad) raw = undefined pc bad
then_word outside raw = outside

abbrev pub run_words : List ℕ → Outcome → Outcome
run_words [] o = o
run_words (raw ∷ raws) o = run_words raws (then_word o raw)

-- `c` with `v` in register `rd`, `n` instructions later.
abbrev pub loaded : Cpu → ℕ → ℕ → ℕ → Cpu
loaded c rd v n = record c {
  r = update c.r rd v;
  pc = (c.pc + 4 * n) % 2 ^ 64;
  icount = (c.icount + n) % 2 ^ 64;
}

abbrev part : ℕ → ℕ → ℕ
part v hw = v / 2 ^ (16 * hw) % 2 ^ 16

movz-loaded :
    (c : Cpu) (rd imm : ℕ)
    → rd < 31
    → imm < 2 ^ 16
    → step c (movz_word rd imm) ≡ next (loaded c rd imm 1)
movz-loaded c rd imm h1 h2 = step-movz_word c rd imm h1 h2 ∙ refl

update-update : (f : ℕ → ℕ) (k v w : ℕ) → update (update f k v) k w ≡ update f k w
update-update f k v w = fun_ext (λ n. ground arith)

wrote-loaded : (c : Cpu) (rd v w n : ℕ) → wrote (loaded c rd v n) rd w ≡ loaded c rd w (suc n)
wrote-loaded c rd v w n = rw (update-update c.r rd v w, next_pc, next_count) refl
  where
    next_pc : add64 ((c.pc + 4 * n) % 2 ^ 64) 4 ≡ (c.pc + 4 * suc n) % 2 ^ 64
    next_pc = omega arith

    next_count : add64 ((c.icount + n) % 2 ^ 64) 1 ≡ (c.icount + suc n) % 2 ^ 64
    next_count = omega arith

movk-loaded :
    (c : Cpu) (rd w hw imm n : ℕ)
    → rd < 31
    → w < 2 ^ 64
    → hw < 4
    → imm < 2 ^ 16
    → step (loaded c rd w n) (movk_word rd hw imm) ≡ next (loaded c rd (with_part w hw imm) (suc n))
movk-loaded c rd w hw imm n h1 fits h2 h3 =
    step-movk_word (loaded c rd w n) rd hw imm (ground arith) h1 h2 h3
    ∙ ap next (
        wrote-loaded c rd w (with_part ((loaded c rd w n).r rd) hw imm) n
        ∙ ap (λ t. loaded c rd (with_part t hw imm) (suc n)) (ground arith))

-- What the four instructions build up, from the parts of a word.
abbrev rebuilt : ℕ → ℕ → ℕ
rebuilt v zero = part v 0
rebuilt v (suc k) = with_part (rebuilt v k) (suc k) (part v (suc k))

rebuilt_lem :
    (v : ℕ)
    → v < 2 ^ 64
    → (rebuilt v 1 ≡ v % 2 ^ 32) × (rebuilt v 2 ≡ v % 2 ^ 48) × (rebuilt v 3 ≡ v)
rebuilt_lem v h = omega arith

-- MOVZ and three MOVK for the four parts of a word.
abbrev pub load_words : ℕ → ℕ → List ℕ
load_words rd v =
    movz_word rd (part v 0)
    ∷ movk_word rd 1 (part v 1)
    ∷ movk_word rd 2 (part v 2)
    ∷ movk_word rd 3 (part v 3)
    ∷ []

-- MOVZ and three MOVK load any 64-bit constant into any of X0 to X30 and go on by 16 bytes, modulo
-- 2^64, and by four retired instructions. They leave every other register, the flags, the vectors
-- and all else of the register state as it was.
pub run_words-moves :
    (c : Cpu) (rd v : ℕ)
    → rd < 31
    → v < 2 ^ 64
    → run_words (load_words rd v) (next c) ≡ next (loaded c rd v 4)
run_words-moves c rd v h1 h2 =
    let w1 = movk_word rd 1 (part v 1) in
    let w2 = movk_word rd 2 (part v 2) in
    let w3 = movk_word rd 3 (part v 3) in
    let parts = rebuilt_lem v h2 in
    ap (λ o. then_word (then_word (then_word o w1) w2) w3)
      (movz-loaded c rd (part v 0) h1 (omega arith))
    ∙ ap (λ o. then_word (then_word o w2) w3)
        (movk-loaded c rd (rebuilt v 0) 1 (part v 1) 1 h1 (omega arith) (omega arith) (omega arith))
    ∙ ap (λ o. then_word o w3)
        (movk-loaded c rd (rebuilt v 1) 2 (part v 2) 2 h1 (omega arith) (omega arith) (omega arith))
    ∙ movk-loaded c rd (rebuilt v 2) 3 (part v 3) 3 h1 (omega arith) (omega arith) (omega arith)
    ∙ ap (λ t. next (loaded c rd t 4)) parts.2
