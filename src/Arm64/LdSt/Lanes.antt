-- ===== src/Arm64/LdSt/Lanes.antt =====
-- The lanes of a vector register: `getLane` and `setLane` of internal/arm64/vec.go.
use gonidbg.Base.{ℕ, ◌*◌, ◌/◌, ◌%◌, ◌==◌, if◌then◌else◌, bit_and, bit_or, not64, shl64, shr}
use gonidbg.Arm64.Cpu.{Vec}
use gonidbg.Arm64.LdSt.Exclusive.{mask}

-- `v[k]`; Go panics from 2 on, which the lane loops do not reach.
abbrev pub half : Vec → ℕ → ℕ
half v k = if k == 0 then v.lo else v.hi

abbrev pub set_half : Vec → ℕ → ℕ → Vec
set_half v k w = if k == 0 then record v { lo = w } else record v { hi = w }

unfoldable pub get_lane : Vec → ℕ → ℕ → ℕ
unfolding mask
get_lane v esize idx =
    let bitoff = idx * esize * 8 in
    bit_and (shr (half v (bitoff / 64)) (bitoff % 64)) (mask (esize * 8))

unfoldable pub set_lane : Vec → ℕ → ℕ → ℕ → Vec
unfolding mask
set_lane v esize idx val =
    let bitoff = idx * esize * 8 in
    let m = mask (esize * 8) in
    let sh = bitoff % 64 in
    let w = half v (bitoff / 64) in
    set_half v (bitoff / 64) (bit_or (bit_and w (not64 (shl64 m sh))) (shl64 (bit_and val m) sh))
