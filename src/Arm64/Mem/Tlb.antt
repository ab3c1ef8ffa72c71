-- ===== src/Arm64/Mem/Tlb.antt =====
-- The caches of internal/arm64/mem.go: the read and write TLBs, the cache of code pages and the
-- page that is being executed.
use gonidbg.Base.{ℕ, ◌+◌, ◌==◌, if◌then◌else◌, field, Option, none, some, []}
use gonidbg.Arm64.Cpu.{update}
use gonidbg.Arm64.Mem.{Memory, Page, CodeEntry, no_vpn, zero_page}
use gonidbg.Arm64.Mem.Table.{set_page}

abbrev pub tlb_slot : ℕ → ℕ
tlb_slot vpn = field vpn 0 8

abbrev pub ctlb_slot : ℕ → ℕ
ctlb_slot vpn = field vpn 0 6

abbrev pub no_code : CodeEntry
no_code = record { vpn = no_vpn; code = none }

-- Only `vpn` of a TLB entry is cleared.
unfoldable pub flush_tlb : Memory → Memory
flush_tlb m = record m {
  rtlb = λ k. record (m.rtlb k) { vpn = no_vpn };
  wtlb = λ k. record (m.wtlb k) { vpn = no_vpn };
  ctlb = λ k. no_code;
  fetch_vpn = no_vpn;
  fetch_code = none;
}

-- `pageData`, which is nil only for a page that was never written.
abbrev pub page_data : Page → ℕ
page_data p = elim p.contents [ none ↦ zero_page | some d ↦ d ]

-- `dropCode`, for the page that stands at `vpn`.
unfoldable pub drop_code : Memory → ℕ → Page → Memory
drop_code m vpn p =
    let k = ctlb_slot vpn in
    let executing = m.fetch_vpn == vpn in
    record (set_page m vpn (some (record p { code = none }))) {
      ctlb = if (m.ctlb k).vpn == vpn then update m.ctlb k no_code else m.ctlb;
      fetch_vpn = if executing then no_vpn else m.fetch_vpn;
      fetch_code = if executing then none else m.fetch_code;
    }

-- The first half of `writable`: the array of the page, a new one of zeros on first use.
unfoldable pub allocate : Memory → ℕ → Page → Page × Memory
allocate m vpn p =
    let k = tlb_slot vpn in
    elim p.contents [
      | some d ↦ (p, m)
      | none ↦
          let q = record p { contents = some m.fresh } in
          (
            q,
            record (set_page m vpn (some q)) {
              rtlb =
                  if (m.rtlb k).vpn == vpn
                  then update m.rtlb k (record (m.rtlb k) { vpn = no_vpn })
                  else m.rtlb;
              arrays = update m.arrays m.fresh (λ i. 0);
              fresh = m.fresh + 1;
            },
          )
    ]

-- The second half: the page's decoded code, if there is any, is dropped.
abbrev pub drop_decoded : Memory → ℕ → Page → Option ℕ → Memory
drop_decoded m vpn q none = m
drop_decoded m vpn q (some c) = drop_code m vpn q

-- `writable`: the number of the array, and the memory.
unfoldable pub writable : Memory → ℕ → Page → ℕ × Memory
unfolding allocate drop_code
writable m vpn p = let (q, m) = allocate m vpn p in (page_data q, drop_decoded m vpn q q.code)

-- Go's zero value.
abbrev pub zero_memory : Memory
zero_memory = record {
  l1 = λ k. none;
  rtlb = λ k. record { vpn = 0; contents = zero_page };
  wtlb = λ k. record { vpn = 0; contents = zero_page };
  fetch_vpn = 0;
  fetch_code = none;
  ctlb = λ k. record { vpn = 0; code = none };
  invalid = [];
  rhooks = [];
  whooks = [];
  arrays = λ d i. 0;
  fresh = 1;
}

unfoldable pub init : Memory
unfolding flush_tlb
init = flush_tlb zero_memory
