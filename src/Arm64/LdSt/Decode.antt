-- ===== src/Arm64/LdSt/Decode.antt =====
-- The decoders of internal/arm64/ldst.go.
use gonidbg.Base.{
  ℕ, ◌+◌, ◌*◌, ◌^◌, Bool, true, false, not, ◌&&◌, ◌||◌, ltb, leb, ◌==◌, if◌then◌else◌, bit_and, shr,
  shl64, add64, field, Option, none, some,
}
use gonidbg.Arm64.Cpu.{xr, xsp, xw, r_zr}
use gonidbg.Arm64.Words.{sext}
use gonidbg.Arm64.Inst.{
  Inst, of_ldst, of_system, nop, LdStOp, load_off, load_wb, load_reg, store_off, store_wb,
  store_reg, v_load_off, v_load_wb, v_load_reg, v_store_off, v_store_wb, v_store_reg, load_pair,
  store_pair, v_load_pair, v_store_pair, ldxr, ldxp, stxr, stxp, cas, swp, ld_atomic,
  simd_load_multi, simd_store_multi, ldr64_off, ldr32_off, ldrb64_off, str64_off, str32_off,
  strb64_off, ldr64_reg, ldr32_reg, ldrb64_reg, str64_reg, str32_reg, strb64_reg, ldp64_off,
  stp64_off,
}
use gonidbg.Arm64.LdSt.{mode_off, mode_pre, mode_post, mode_reg, ext_zero, ext_sign, ext_sign32}

-- A bit of an encoding.
abbrev is_set : ℕ → ℕ → Bool
is_set raw k = field raw k 1 == 1

-- What `ldstKind` returns when `ok` holds.
pub record LdStKind : Type 0 where
  pub bytes : ℕ
  pub ext : ℕ
  pub load : Bool
  pub prfm : Bool

abbrev kind : ℕ → ℕ → Bool → Option LdStKind
kind bytes ext load = some (record { bytes = bytes; ext = ext; load = load; prfm = false })

unfoldable pub ldst_kind : ℕ → ℕ → Bool → Option LdStKind
ldst_kind size opc vec =
    if vec
    then (if is_set opc 1
        then (if size == 0 then kind 16 ext_zero (is_set opc 0) else none)
        else kind (2 ^ size) ext_zero (is_set opc 0))
    else if opc == 0
    then kind (2 ^ size) ext_zero false
    else if opc == 1
    then kind (2 ^ size) ext_zero true
    else if opc == 2
    then (if size == 3
        then some (record { bytes = 0; ext = 0; load = false; prfm = true })
        else kind (2 ^ size) ext_sign true)
    else if leb 2 size
    then none
    else kind (2 ^ size) ext_sign32 true

-- `hotLdSt` and `hotLdStReg`
unfoldable pub hot_ldst : Bool → ℕ → ℕ → Option LdStOp
hot_ldst load size ext =
    if not (ext == ext_zero)
    then none
    else if load
    then (if size == 8
        then some ldr64_off
        else if size == 4
        then some ldr32_off
        else if size == 1
        then some ldrb64_off
        else none)
    else if size == 8
    then some str64_off
    else if size == 4
    then some str32_off
    else if size == 1
    then some strb64_off
    else none

unfoldable pub hot_ldst_reg : Bool → ℕ → ℕ → Option LdStOp
hot_ldst_reg load size ext =
    if not (ext == ext_zero)
    then none
    else if load
    then (if size == 8
        then some ldr64_reg
        else if size == 4
        then some ldr32_reg
        else if size == 1
        then some ldrb64_reg
        else none)
    else if size == 8
    then some str64_reg
    else if size == 4
    then some str32_reg
    else if size == 1
    then some strb64_reg
    else none

-- The tables of four handlers by addressing mode.
abbrev pub by_mode : ℕ → LdStOp → LdStOp → LdStOp → LdStOp
by_mode mode off wb reg = if mode == mode_off then off else if mode == mode_reg then reg else wb

-- A specialised handler, or the generic one where there is none.
abbrev pub hot_or : Option LdStOp → LdStOp → LdStOp
hot_or none generic = generic
hot_or (some op) generic = op

-- The handler that `setLdSt` picks for an instruction with its addressing mode set.
unfoldable pub ldst_op : Inst → Bool → Bool → LdStOp
unfolding hot_ldst hot_ldst_reg
ldst_op i vec load =
    let hot : Option LdStOp =
      if vec
      then none
      else if i.cond == mode_off
      then hot_ldst load i.sz i.sh
      else if i.cond == mode_reg
      then hot_ldst_reg load i.sz i.sh
      else none in
    hot_or hot (
      if vec && load
      then by_mode i.cond v_load_off v_load_wb v_load_reg
      else if vec
      then by_mode i.cond v_store_off v_store_wb v_store_reg
      else if load
      then by_mode i.cond load_off load_wb load_reg
      else by_mode i.cond store_off store_wb store_reg)

unfoldable pub set_ldst : Inst → ℕ → Bool → Bool → Inst
unfolding ldst_op
set_ldst i raw vec load =
    let rd = if vec then field raw 0 5 else if load then xw raw else xr raw in
    record i { rd = rd; fn = some (of_ldst (ldst_op i vec load)) }

-- The end of the two register forms: PRFM is a no-op.
abbrev finish : Inst → ℕ → Bool → LdStKind → Inst
finish i raw vec k =
    if k.prfm then record i { fn = some (of_system nop) } else set_ldst i raw vec k.load

unfoldable pub decode_reg_form : Inst → ℕ → Inst
unfolding ldst_kind set_ldst
decode_reg_form i raw =
    let size = field raw 30 2 in
    let vec = is_set raw 26 in
    let opc = field raw 22 2 in
    elim (ldst_kind size opc vec) [
      | none ↦ i
      | some k ↦
          let j = record i { rn = xsp (shr raw 5); sz = k.bytes; sh = k.ext } in
          let offset = record j { imm = sext (field raw 12 9) 9 } in
          let option = field raw 13 3 in
          let scaled = if vec && is_set opc 1 then 4 else size in
          if is_set raw 21
          then (if not (field raw 10 2 == 2) || not (is_set option 1)
              then j
              else finish
                  (record j {
                    cond = mode_reg;
                    rm = xr (shr raw 16);
                    ra = option;
                    amt = if is_set raw 12 then scaled else j.amt;
                  })
                  raw vec k)
          else if field raw 10 2 == 2
          then (if vec || k.prfm then j else finish (record offset { cond = mode_off }) raw vec k)
          else if field raw 10 2 == 0
          then finish (record offset { cond = mode_off }) raw vec k
          else if k.prfm
          then j
          else finish (record offset { cond = if field raw 10 2 == 1 then mode_post else mode_pre })
              raw vec k
    ]

unfoldable pub decode_unsigned_imm : Inst → ℕ → Inst
unfolding ldst_kind set_ldst
decode_unsigned_imm i raw =
    let size = field raw 30 2 in
    let vec = is_set raw 26 in
    let opc = field raw 22 2 in
    elim (ldst_kind size opc vec) [
      | none ↦ i
      | some k ↦
          let scale = if vec && is_set opc 1 then 4 else size in
          finish
            (record i {
              rn = xsp (shr raw 5);
              sz = k.bytes;
              sh = k.ext;
              cond = mode_off;
              imm = field raw 10 12 * 2 ^ scale;
            })
            raw vec k
    ]

unfoldable pub decode_literal : Inst → ℕ → ℕ → Inst
decode_literal i raw pc =
    let opc = field raw 30 2 in
    let addr = add64 pc (sext (field raw 5 19 * 2 ^ 2) 21) in
    let j = record i { imm = addr; cond = mode_off; rn = r_zr } in
    if is_set raw 26
    then (if ltb 2 opc
        then j
        else record j { sz = 4 * 2 ^ opc; rd = field raw 0 5; fn = some (of_ldst v_load_off) })
    else if opc == 3
    then record j { fn = some (of_system nop) }
    else record j {
      sz = if opc == 1 then 8 else 4;
      rd = xw raw;
      sh = if opc == 2 then ext_sign else j.sh;
      fn = some (of_ldst load_off);
    }

-- The handler of a pair.
abbrev pair_op : Bool → Bool → Inst → LdStOp
pair_op vec load i =
    let plain = (i.sz == 8) && (i.cond == mode_off) in
    if vec && load
    then v_load_pair
    else if vec
    then v_store_pair
    else if load
    then (if plain && (i.sh == ext_zero) then ldp64_off else load_pair)
    else if plain
    then stp64_off
    else store_pair

-- `scale` is the binary logarithm of the bytes of one register.
unfoldable pub decode_pair : Inst → ℕ → Inst
decode_pair i raw =
    let opc = field raw 30 2 in
    let vec = is_set raw 26 in
    let load = is_set raw 22 in
    let how = field raw 23 2 in
    let bytes = if vec then 4 * 2 ^ opc else if opc == 2 then 8 else 4 in
    let scale = if vec then opc + 2 else if opc == 2 then 3 else 2 in
    let i = if not vec && (opc == 1) && load then record i { sh = ext_sign } else i in
    if (opc == 3) || (not vec && (opc == 1) && (not load || (how == 0)))
    then i
    else let j = record i {
      cond = if how == 1 then mode_post else if how == 3 then mode_pre else mode_off;
      imm = shl64 (sext (field raw 15 7) 7) scale;
      rn = xsp (shr raw 5);
      sz = bytes;
      rd = if vec then field raw 0 5 else if load then xw raw else xr raw;
      ra = if vec then field raw 10 5 else if load then xw (shr raw 10) else xr (shr raw 10);
    } in
      record j { fn = some (of_ldst (pair_op vec load j)) }

abbrev pub feat_lse : Bool
feat_lse = false

unfoldable pub decode_exclusive : Inst → ℕ → Inst
decode_exclusive i raw =
    let size = field raw 30 2 in
    let j = record i { rn = xsp (shr raw 5); sz = 2 ^ size } in
    let load = is_set raw 22 in
    let rs = field raw 16 5 in
    let rt2 = field raw 10 5 in
    if is_set raw 23 && is_set raw 21
    then (if not feat_lse || not (rt2 == 31) then j else record j {
      rd = xr raw;
      rm = xr (shr raw 16);
      ra = xw (shr raw 16);
      fn = some (of_ldst cas);
    })
    else if is_set raw 23
    then (if not (is_set raw 15) || not (rs == 31) || not (rt2 == 31)
        then j
        else if load
        then record j { rd = xw raw; cond = mode_off; sh = ext_zero; fn = some (of_ldst load_off) }
        else record j { rd = xr raw; cond = mode_off; fn = some (of_ldst store_off) })
    else if not (is_set raw 21)
    then (if not (rt2 == 31) || (load && not (rs == 31))
        then j
        else if load
        then record j { rd = xw raw; fn = some (of_ldst ldxr) }
        else record j { rd = xr raw; ra = xw (shr raw 16); fn = some (of_ldst stxr) })
    else if ltb size 2 || (load && not (rs == 31))
    then j
    else if load
    then record j { rd = xw raw; rm = xw (shr raw 10); fn = some (of_ldst ldxp) }
    else record j {
      rd = xr raw;
      rm = xr (shr raw 10);
      ra = xw (shr raw 16);
      fn = some (of_ldst stxp);
    }

unfoldable pub decode_atomic : Inst → ℕ → Inst
decode_atomic i raw =
    if not feat_lse || is_set raw 26
    then i
    else let opc = field raw 12 3 in
      let j = record i {
        sz = 2 ^ field raw 30 2;
        rn = xsp (shr raw 5);
        rm = xr (shr raw 16);
        rd = xw raw;
      } in
      if field raw 15 1 == 0
      then record j { sh = opc; fn = some (of_ldst ld_atomic) }
      else if opc == 0
      then record j { fn = some (of_ldst swp) }
      else j

-- The registers and the group of an AdvSIMD opcode.
abbrev pub multi_shape : ℕ → Option (ℕ × ℕ)
multi_shape opcode =
    if opcode == 0
    then some (4, 4)
    else if opcode == 2
    then some (4, 1)
    else if opcode == 4
    then some (3, 3)
    else if opcode == 6
    then some (3, 1)
    else if opcode == 7
    then some (1, 1)
    else if opcode == 8
    then some (2, 2)
    else if opcode == 10
    then some (2, 1)
    else none

unfoldable pub decode_simd_multi : Inst → ℕ → Inst
decode_simd_multi i raw =
    let size = field raw 10 2 in
    let q = field raw 30 1 in
    let rm = field raw 16 5 in
    let post = is_set raw 23 in
    elim (multi_shape (field raw 12 4)) [
      | none ↦ i
      | some s ↦
          let (regs, group) = s in
          let j = record i {
            rd = field raw 0 5;
            rn = xsp (shr raw 5);
            sz = size;
            sh = regs;
            ra = group;
            amt = 8 * 2 ^ q;
          } in
          let k =
            if not post
            then record j { cond = mode_off }
            else if rm == 31
            then record j { cond = mode_post; imm = regs * (8 * 2 ^ q) }
            else record j { cond = mode_reg; rm = xr rm } in
          if (leb 2 group && (q == 0) && (size == 3))
            || is_set raw 21
            || (not post && not (field raw 16 6 == 0))
          then i
          else record k {
            fn = some (of_ldst (if is_set raw 22 then simd_load_multi else simd_store_multi));
          }
    ]

unfoldable pub decode_ldst : Inst → ℕ → ℕ → Inst
unfolding decode_exclusive decode_literal decode_pair decode_atomic decode_reg_form
    decode_unsigned_imm decode_simd_multi
decode_ldst i raw pc =
    let is = λ (m v : ℕ). bit_and raw m == v in
    if is 1056964608 134217728
    then decode_exclusive i raw
    else if is 989855744 402653184
    then decode_literal i raw pc
    else if is 939524096 671088640
    then decode_pair i raw
    else if is 989855744 939524096
    then (if is_set raw 21 && (field raw 10 2 == 0)
        then decode_atomic i raw
        else decode_reg_form i raw)
    else if is 989855744 956301312
    then decode_unsigned_imm i raw
    else if is 3204448256 201326592
    then decode_simd_multi i raw
    else i
