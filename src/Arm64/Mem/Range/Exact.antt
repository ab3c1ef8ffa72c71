-- ===== src/Arm64/Mem/Range/Exact.antt =====
-- `Map`, `Unmap` and `Protect` of internal/arm64/mem.go: what they change for the guest.
use Prim.Native.String.{String}
use gonidbg.Base.{
  ℕ, ◌+◌, ◌-◌, ◌/◌, ◌%◌, ◌^◌, ◌<◌, ◌≡◌, refl, arith, Bool, true, false, not, ◌&&◌, ◌||◌, ltb, leb,
  ◌==◌, field, shr, if◌then◌else◌, Option, none, some,
}
use gonidbg.Arm64.Mem.{Memory}
use gonidbg.Arm64.Mem.Range.{
  MemError, not_aligned, out_of_space, bad_prot, overlaps_page, page_not_mapped, wraps, unmapped_at,
  Checked, ok, err, range_vpns,
}
use gonidbg.Arm64.Mem.Coherent.{IsCoherent}
use gonidbg.Arm64.Mem.View.{view, byte_at}
use gonidbg.Arm64.Mem.Range.Pages.{among}

-- A range that is accepted: whole pages of the 48-bit address space.
abbrev pub is_range : ℕ → ℕ → Bool
is_range addr size =
    ltb 0 size && (addr % 2 ^ 12 == 0) && (size % 2 ^ 12 == 0) && leb (addr + size) (2 ^ 48)

pub range_vpns-is_range :
    (op : String) (addr size : ℕ)
    → addr < 2 ^ 64
    → size < 2 ^ 64
    → is_range addr size ≡ true
    → range_vpns op addr size ≡ ok (addr / 2 ^ 12, (addr + size) / 2 ^ 12)
unfolding range_vpns
range_vpns-is_range op addr size ha hs h = ground (arith, h)

pub range_vpns-fails :
    (op : String) (addr size : ℕ)
    → addr < 2 ^ 64
    → size < 2 ^ 64
    → is_range addr size ≡ false
    → range_vpns op addr size
      ≡ err (
          if (size == 0) || not (field addr 0 12 == 0) || not (field size 0 12 == 0)
          then not_aligned op addr size
          else out_of_space op addr size)
unfolding range_vpns
range_vpns-fails op addr size ha hs h = ground (arith, h)

-- The page that an error names.
abbrev pub page_of : MemError → Option ℕ
page_of (not_aligned op a n) = none
page_of (out_of_space op a n) = none
page_of (bad_prot op a prot) = none
page_of (overlaps_page a n p) = some p
page_of (page_not_mapped op a n p) = some p
page_of (wraps op a n) = none
page_of (unmapped_at op a n p) = some p

abbrev pub is_ok : {A : Type 0} → Checked A → Bool
is_ok (ok a) = true
is_ok (err e) = false

-- An error leaves the memory as it is.
abbrev pub result_memory : Memory → Checked Memory → Memory
result_memory m (ok n) = n
result_memory m (err e) = m

-- Whether the error names a page of the range that stands in the way.
abbrev pub blocked : (ℕ → Bool) → ℕ → ℕ → Checked Memory → Bool
blocked wrong addr size (ok n) = false
blocked wrong addr size (err e) = elim (page_of e) [
  | none ↦ false
  | some p ↦ among addr size p && wrong p
]

-- An operation on a range. It succeeds when the range and the permissions are legal and no address
-- of the range is `wrong`, and names a wrong page otherwise. It then gives the range the
-- permissions `p`, and zeros unless it keeps the bytes; nothing else changes for the guest.
pub record IsStep (m : Memory) (addr size : ℕ) (p : Option ℕ) (keeps legal : Bool)
    (wrong : ℕ → Bool) (r : Checked Memory) : Type 0 where
  pub coherent : IsCoherent (result_memory m r)
  pub prots :
      (a : ℕ)
      → (view (result_memory m r)).prots a
        ≡ (if is_ok r && among addr size a then p else (view m).prots a)
  pub bytes :
      (a : ℕ)
      → byte_at (result_memory m r) a
        ≡ (if is_ok r && among addr size a && not keeps then 0 else byte_at m a)
  pub before : (a : ℕ) → (is_ok r && among addr size a && wrong a) ≡ false
  pub valid : (is_ok r && not (is_range addr size && legal)) ≡ false
  pub reason : (is_ok r || not (is_range addr size && legal) || blocked wrong addr size r) ≡ true

-- What an error has to say to be right.
pub refuses :
    (m : Memory) (addr size : ℕ) (p : Option ℕ) (keeps legal : Bool) (wrong : ℕ → Bool)
    (e : MemError)
    → IsCoherent m
    → (not (is_range addr size && legal) || blocked wrong addr size (err e)) ≡ true
    → IsStep m addr size p keeps legal wrong (err e)
refuses m addr size p keeps legal wrong e co h = record {
  coherent = co;
  prots = λ a. refl;
  bytes = λ a. refl;
  before = λ a. refl;
  valid = refl;
  reason = h;
}

-- The pages of a range, counted.
abbrev pub first : ℕ → ℕ
first addr = addr / 2 ^ 12

abbrev pub count : ℕ → ℕ → ℕ
count addr size = (addr + size) / 2 ^ 12 - addr / 2 ^ 12

pub among-page :
    (addr size a : ℕ)
    → is_range addr size ≡ true
    → among addr size a ≡ among (first addr) (count addr size) (shr a 12)
among-page addr size a h = ground (arith, h)
