-- ===== src/Arm64/LdSt/Multi.antt =====
-- AdvSIMD loads and stores of multiple structures of internal/arm64/ldst.go. A register and a lane
-- at a time, in the order of the loops.
use gonidbg.Base.{
  ℕ, zero, suc, ◌+◌, ◌*◌, ◌/◌, ◌^◌, ◌==◌, if◌then◌else◌, add64, field, List, [], ◌∷◌, ◌++◌,
}
use gonidbg.Arm64.Cpu.{Cpu, Vec, update}
use gonidbg.Arm64.Inst.{Inst}
use gonidbg.Arm64.Mem.{Memory}
use gonidbg.Arm64.Mem.Guest.{HookCode, Got, got, then_got, mem_read, guest_page}
use gonidbg.Arm64.Mem.Guest.Access.{read_n, write_n, check_write}
use gonidbg.Arm64.LdSt.{Ran, on_got, mode_post, mode_reg}
use gonidbg.Arm64.LdSt.Access.{set_r, done}
use gonidbg.Arm64.LdSt.Lanes.{get_lane, set_lane}

-- The registers and lanes that the two nested loops visit: all lanes of a register first, or all
-- registers of a lane first.
unfoldable pub lanes_of : ℕ → ℕ → ℕ → List (ℕ × ℕ)
lanes_of r zero l = []
lanes_of r (suc n) l = (r, l) ∷ lanes_of r n (l + 1)

unfoldable pub contiguous : ℕ → ℕ → ℕ → List (ℕ × ℕ)
unfolding lanes_of
contiguous zero lanes r = []
contiguous (suc n) lanes r = lanes_of r lanes 0 ++ contiguous n lanes (r + 1)

unfoldable pub regs_of : ℕ → ℕ → ℕ → List (ℕ × ℕ)
regs_of l zero r = []
regs_of l (suc n) r = (r, l) ∷ regs_of l n (r + 1)

unfoldable pub interleaved : ℕ → ℕ → ℕ → List (ℕ × ℕ)
unfolding regs_of
interleaved zero regs l = []
interleaved (suc n) regs l = regs_of l regs 0 ++ interleaved n regs (l + 1)

-- `simdMultiParams`: the element size, the lanes of a register, all bytes.
abbrev pub multi_params : Inst → ℕ × ℕ × ℕ
multi_params i = (2 ^ i.sz, i.amt / 2 ^ i.sz, i.sh * i.amt)

abbrev pub visits : Inst → List (ℕ × ℕ)
visits i =
    let (esize, lanes, total) = multi_params i in
    if i.ra == 1 then contiguous i.sh lanes 0 else interleaved lanes i.sh 0

unfoldable pub simd_advance : Cpu → Inst → ℕ → Cpu
simd_advance c i base =
    if i.cond == mode_post
    then set_r c i.rn (add64 base i.imm)
    else if i.cond == mode_reg
    then set_r c i.rn (add64 base (c.r i.rm))
    else c

-- `c.V[(rd+r)&31] = out[r]`, for the registers from `r` on.
unfoldable pub assign_out : ℕ → ℕ → ℕ → (ℕ → Vec) → Cpu → Cpu
assign_out zero r rd out c = c
assign_out (suc n) r rd out c =
    assign_out n (r + 1) rd out (record c { v = update c.v (field (rd + r) 0 5) (out r) })

module _ (code : HookCode) (pc esize : ℕ) where
  unfoldable pub load_lanes : List (ℕ × ℕ) → ℕ → (ℕ → Vec) → Memory → Got (ℕ → Vec)
  load_lanes [] addr out m = got out m
  load_lanes ((r, l) ∷ rest) addr out m =
      then_got (read_n code pc addr esize m)
        (λ v m. load_lanes rest (add64 addr esize) (update out r (set_lane (out r) esize l v)) m)

  unfoldable pub store_lanes : List (ℕ × ℕ) → ℕ → ℕ → (ℕ → Vec) → Memory → Got Unit
  store_lanes [] addr rd v m = got tt m
  store_lanes ((r, l) ∷ rest) addr rd v m =
      then_got (write_n code pc addr esize (get_lane (v (field (rd + r) 0 5)) esize l) m)
        (λ u m. store_lanes rest (add64 addr esize) rd v m)

unfoldable pub simd_load_multi_op : HookCode → Cpu → Inst → Memory → Ran
unfolding contiguous interleaved load_lanes assign_out simd_advance
simd_load_multi_op code c i m =
    let base = c.r i.rn in
    let (esize, lanes, total) = multi_params i in
    on_got (guest_page code c.pc mem_read base total 0 m) c (λ p m.
      on_got (load_lanes code c.pc esize (visits i) base (λ r. record { lo = 0; hi = 0 }) m) c
        (λ out m. done (simd_advance (assign_out i.sh 0 i.rd out c) i base) m))

unfoldable pub simd_store_multi_op : HookCode → Cpu → Inst → Memory → Ran
unfolding contiguous interleaved store_lanes simd_advance
simd_store_multi_op code c i m =
    let base = c.r i.rn in
    let (esize, lanes, total) = multi_params i in
    on_got (check_write code c.pc base total m) c (λ u m.
      on_got (store_lanes code c.pc esize (visits i) base i.rd c.v m) c
        (λ u m. done (simd_advance c i base) m))
