-- ===== src/Packed/Sleb.antt =====
-- `sleb` of internal/loader/packed.go, the signed LEB128 numbers.
use gonidbg.Base.{
  ℕ, zero, suc, ◌+◌, ◌-◌, ◌*◌, ◌^◌, ◌≤◌, ◌≢◌, arith, ltb, ◌==◌, ◌&&◌, if◌then◌else◌, bit_or, shl64,
  field, List, get_elem?, none, some, Option-cases, inl, inr,
}
use gonidbg.Packed.{Out, ok, err, truncated, overlong, out_of_fuel}

pub record Sleb : Type 0 where
  pub b : List ℕ
  pub pos : ℕ

-- The loop of `next`, on fuel.
pub next_loop : ℕ → Sleb → ℕ → ℕ → Out (ℕ × Sleb)
next_loop zero s v shift = err out_of_fuel
next_loop (suc fuel) s v shift = elim (get_elem? s.b s.pos) [
  | none ↦ err (truncated s.pos)
  | some c ↦
      let t = record s { pos = s.pos + 1 } in
      let w = if ltb shift 64 then bit_or v (shl64 (field c 0 7) shift) else v in
      let up = shift + 7 in
      let rest = next_loop fuel t w up in
      if field c 7 1 == 0
      then ok (if ltb up 64 && (field c 6 1 == 1) then bit_or w (shl64 (2 ^ 64 - 1) up) else w, t)
      else if ltb 70 up
      then err (overlong t.pos)
      else rest
]

-- The shift grows by 7 each round and passes 70 in the eleventh.
unfoldable pub next : Sleb → Out (ℕ × Sleb)
unfolding next_loop
next s = next_loop 11 s 0 0

next_loop-fuel :
    (fuel : ℕ) (s : Sleb) (v shift : ℕ)
    → shift ≤ 70
    → 77 ≤ shift + 7 * fuel
    → next_loop fuel s v shift ≢ err out_of_fuel
unfolding next_loop
next_loop-fuel zero s v shift h room = λ e. absurd (omega arith)
next_loop-fuel (suc fuel) s v shift h room = elim (Option-cases (get_elem? s.b s.pos)) [
  | inl ended ↦ λ e. ground (arith, ended)
  | inr (c, here) ↦ λ e. ground (
    arith,
    here,
    next_loop-fuel fuel (record s { pos = s.pos + 1 })
        (if ltb shift 64 then bit_or v (shl64 (field c 0 7) shift) else v) (shift + 7),
  )
]

pub next-fuel : (s : Sleb) → next s ≢ err out_of_fuel
unfolding next
next-fuel s = next_loop-fuel 11 s 0 0 (omega arith) (omega arith)
