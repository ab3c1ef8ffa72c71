-- ===== src/Arm64/Mem.antt =====
-- internal/arm64/mem.go: the guest address space, pages behind a radix table with small caches.
--
-- Go's arrays of bytes are shared: a page and the entries of the caches point to them. They stand
-- in `arrays` under numbers, where number 0 is `zeroPage`. A page record stands in one slot of the
-- table only, so it is kept there by value. Decoded code pages are numbers. A hook is a number,
-- and what it does is a parameter (`HookCode`).
pub mod Table
pub mod Tlb
pub mod Range
pub mod Guest
pub mod Host
pub mod Coherent
pub mod View
pub mod Reads
pub mod ReadSizes
pub mod Writes
pub mod RoundTrip
pub mod Hooks
pub mod Hooked
pub mod Lawful
pub mod Reachable
mod Tests
use gonidbg.Base.{ℕ, ◌+◌, ◌-◌, ◌^◌, List, [], Option, none}

abbrev pub prot_read : ℕ
prot_read = 1

abbrev pub prot_write : ℕ
prot_write = 2

abbrev pub prot_exec : ℕ
prot_exec = 4

abbrev pub no_vpn : ℕ
no_vpn = 2 ^ 64 - 1

-- `contents`, Go's `data`, and `code` are `none` where Go has nil.
pub record Page : Type 0 where
  pub contents : Option ℕ
  pub prot : ℕ
  pub code : Option ℕ

abbrev pub L3 : Type 0
L3 = ℕ → Option Page

abbrev pub L2 : Type 0
L2 = ℕ → Option L3

pub record TlbEntry : Type 0 where
  pub vpn : ℕ
  pub contents : ℕ

pub record CodeEntry : Type 0 where
  pub vpn : ℕ
  pub code : Option ℕ

pub record MemHook : Type 0 where
  pub begin : ℕ
  pub end : ℕ
  pub fn : ℕ

-- `fresh` is the next number for an array or a code page.
pub record Memory : Type 0 where
  pub l1 : ℕ → Option L2
  pub rtlb : ℕ → TlbEntry
  pub wtlb : ℕ → TlbEntry
  pub fetch_vpn : ℕ
  pub fetch_code : Option ℕ
  pub ctlb : ℕ → CodeEntry
  pub invalid : List ℕ
  pub rhooks : List MemHook
  pub whooks : List MemHook
  pub arrays : ℕ → ℕ → ℕ
  pub fresh : ℕ

abbrev pub zero_page : ℕ
zero_page = 0
