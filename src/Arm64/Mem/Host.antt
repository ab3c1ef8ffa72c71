-- ===== src/Arm64/Mem/Host.antt =====
-- Host accesses, `DropCode` and the registration of hooks of internal/arm64/mem.go.
use Prim.Native.String.{String}
use gonidbg.Base.{
  ℕ, zero, suc, ◌+◌, ◌-◌, ◌*◌, ◌^◌, ltb, leb, ◌==◌, if◌then◌else◌, add64, sub64, shr, field, min,
  max, List, [], ◌∷◌, ◌++◌, length, get_elem?, Option, none, some,
}
use gonidbg.Arm64.Cpu.{update}
use gonidbg.Arm64.Mem.{Memory, Page, L2, L3, MemHook, no_vpn}
use gonidbg.Arm64.Mem.Table.{lookup}
use gonidbg.Arm64.Mem.Tlb.{flush_tlb, no_code, writable}
use gonidbg.Arm64.Mem.Range.{Checked, ok, err, then_ok, wraps, unmapped_at, first_unmapped}

unfoldable pub host_check : Memory → String → ℕ → ℕ → Checked Unit
host_check m op addr n =
    let first = shr addr 12 in
    let last = shr (sub64 (add64 addr n) 1) 12 in
    if n == 0
    then ok tt
    else if ltb (add64 addr n) addr
    then err (wraps op addr n)
    else (elim (first_unmapped m (last + 1 - first) first) [
      | some v ↦ err (unmapped_at op addr n (max (v * 2 ^ 12) addr))
      | none ↦ ok tt
    ])

-- `n` bytes of an array from `off` on.
abbrev pub slice : (ℕ → ℕ) → ℕ → ℕ → List ℕ
slice b off zero = []
slice b off (suc n) = b off ∷ slice b (off + 1) n

-- What a page holds for a read; one that was never written holds zeros.
abbrev pub page_bytes : Memory → ℕ → ℕ → ℕ
page_bytes m vpn = elim (lookup m vpn) [
  | none ↦ λ i. 0
  | some p ↦ elim p.contents [ none ↦ λ i. 0 | some d ↦ m.arrays d ]
]

-- The loop of `HostRead` with `len` bytes left, on fuel. A round copies at least one byte.
unfoldable pub host_read_loop : ℕ → Memory → ℕ → ℕ → List ℕ
host_read_loop zero m a len = []
host_read_loop (suc fuel) m a len =
    let off = field a 0 12 in
    let n = min (4096 - off) len in
    let rest = host_read_loop fuel m (add64 a n) (len - n) in
    if len == 0 then [] else slice (page_bytes m (shr a 12)) off n ++ rest

unfoldable pub host_read : Memory → ℕ → ℕ → Checked (List ℕ)
unfolding host_check host_read_loop
host_read m addr len =
    then_ok (host_check m "read" addr len) (λ u. ok (host_read_loop len m addr len))

-- `copy(b[off:], xs)`
abbrev pub overwrite : (ℕ → ℕ) → ℕ → List ℕ → ℕ → ℕ
overwrite b off xs i =
    if leb off i then (elim (get_elem? xs (i - off)) [ none ↦ b i | some x ↦ x ]) else b i

abbrev pub take : ℕ → List ℕ → List ℕ
take zero xs = []
take (suc n) [] = []
take (suc n) (x ∷ xs) = x ∷ take n xs

abbrev pub drop : ℕ → List ℕ → List ℕ
drop zero xs = xs
drop (suc n) [] = []
drop (suc n) (x ∷ xs) = drop n xs

-- One round of `HostWrite`: `xs` goes to the page of `a`, which is mapped.
abbrev pub write_found : Option Page → ℕ → List ℕ → Memory → Memory
write_found none a xs m = m
write_found (some p) a xs m =
    let (d, m) = writable m (shr a 12) p in
    record m { arrays = update m.arrays d (overwrite (m.arrays d) (field a 0 12) xs) }

unfoldable pub write_chunk : ℕ → List ℕ → Memory → Memory
write_chunk a xs m = write_found (lookup m (shr a 12)) a xs m

unfoldable pub host_write_loop : ℕ → ℕ → List ℕ → Memory → Memory
unfolding write_chunk
host_write_loop zero a src m = m
host_write_loop (suc fuel) a src m =
    let n = min (4096 - field a 0 12) (length src) in
    let rest = host_write_loop fuel (add64 a n) (drop n src) (write_chunk a (take n src) m) in
    if length src == 0 then m else rest

unfoldable pub host_write : Memory → ℕ → List ℕ → Checked Memory
unfolding host_check host_write_loop
host_write m addr src =
    then_ok (host_check m "write" addr (length src))
      (λ u. ok (host_write_loop (length src) addr src m))

-- `DropCode`, over all three levels.
abbrev drop_page : Option Page → Option Page
drop_page none = none
drop_page (some p) = some (record p { code = none })

abbrev drop_l3 : Option L3 → Option L3
drop_l3 none = none
drop_l3 (some l3) = some (λ k. drop_page (l3 k))

abbrev drop_l2 : Option L2 → Option L2
drop_l2 none = none
drop_l2 (some l2) = some (λ k. drop_l3 (l2 k))

unfoldable pub drop_all_code : Memory → Memory
drop_all_code m = record m {
  l1 = λ k. drop_l2 (m.l1 k);
  ctlb = λ k. no_code;
  fetch_vpn = no_vpn;
  fetch_code = none;
}

-- `AddReadHook`, `AddWriteHook`, `AddInvalidHook`, and `removeHook` by the hook's number, which is
-- its pointer in Go.
unfoldable pub add_read_hook : Memory → MemHook → Memory
add_read_hook m h = flush_tlb (record m { rhooks = m.rhooks ++ h ∷ [] })

unfoldable pub add_write_hook : Memory → MemHook → Memory
add_write_hook m h = flush_tlb (record m { whooks = m.whooks ++ h ∷ [] })

unfoldable pub add_invalid_hook : Memory → ℕ → Memory
add_invalid_hook m h = record m { invalid = m.invalid ++ h ∷ [] }

unfoldable pub remove_hook : List MemHook → ℕ → List MemHook
remove_hook [] fn = []
remove_hook (h ∷ hs) fn = let rest = remove_hook hs fn in if h.fn == fn then rest else h ∷ rest
