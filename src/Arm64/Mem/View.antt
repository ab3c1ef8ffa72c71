-- ===== src/Arm64/Mem/View.antt =====
-- What a guest sees of the memory of internal/arm64/mem.go: bytes and permissions by address.
use gonidbg.Base.{
  ℕ, zero, suc, ◌+◌, ◌*◌, ◌%◌, ◌^◌, ◌≤◌, ◌<◌, ◌≡◌, refl, arith, ◌==◌, bit_and, bit_or, field, shr,
  add64, if◌then◌else◌, Option, none, some, Option-cases, inl, inr, ap, ap₂, ◌∙◌,
}
use gonidbg.Base.Bits.{bit_or_comm, bit_or_sum, two-pow-add}
use native.Mathlib.Nat.{pow-le-pow_right, mul-le-mul_right, mul_comm}
use gonidbg.Arm64.Mem.{Memory, Page}
use gonidbg.Arm64.Mem.Table.{lookup}
use gonidbg.Arm64.Mem.Guest.{
  Kind, mem_read, across_byte, FaultKind, unmapped, protected, Fault, Got, got, fault, need,
  read_across,
}
use gonidbg.Arm64.Mem.Guest.Lanes.{le_load}
use gonidbg.Arm64.Mem.Guest.Access.{fits}
use gonidbg.Arm64.Mem.Coherent.{data_of, IsCoherent}

-- A flat memory: a byte at every address, and the permissions of the address where it is mapped.
pub record Flat : Type 0 where
  pub bytes : ℕ → ℕ
  pub prots : ℕ → Option ℕ

abbrev pub prot_of : Option Page → Option ℕ
prot_of none = none
prot_of (some p) = some p.prot

abbrev pub byte_at : Memory → ℕ → ℕ
byte_at m a = m.arrays (data_of (lookup m (shr a 12))) (field a 0 12)

abbrev pub view : Memory → Flat
view m = record { bytes = byte_at m; prots = λ a. prot_of (lookup m (shr a 12)) }

-- The bytes `k .. k + n - 1` from `a` on, lowest first; addresses wrap.
unfoldable pub word_at : (ℕ → ℕ) → ℕ → ℕ → ℕ → ℕ
word_at f a k zero = 0
word_at f a k (suc n) = f (add64 a k) + 2 ^ 8 * word_at f a (k + 1) n

-- Why an access of a kind to an address is refused, if it is.
abbrev pub denied : Flat → Kind → ℕ → Option FaultKind
denied f kind a = elim (f.prots a) [
  | none ↦ some (unmapped kind)
  | some p ↦ if bit_and p (need kind) == 0 then some (protected kind) else none
]

-- The page after that of `a`.
abbrev pub after_page : ℕ → ℕ
after_page a = (shr a 12 + 1) * 2 ^ 12 % 2 ^ 64

-- The fault of an access, if there is one: the page of `a` is asked first, and the next page where
-- the access reaches it.
abbrev pub refusal : ℕ → Flat → Kind → ℕ → ℕ → Option Fault
refusal pc f kind a size = elim (denied f kind a) [
  | some k ↦ some (record { kind = k; addr = a; size = size; pc = pc })
  | none ↦ if fits a size then none else (elim (denied f kind (after_page a)) [
    | some k ↦ some (record { kind = k; addr = after_page a; size = size; pc = pc })
    | none ↦ none
  ])
]

-- A result without the memory, and the memory after it.
pub data Answer (A : Type 0) : Type 0 where
  answer : A → Answer A
  refused : Fault → Answer A

abbrev pub answer_of : {A : Type 0} → Got A → Answer A
answer_of (got a m) = answer a
answer_of (fault e m) = refused e

abbrev pub memory_after : {A : Type 0} → Got A → Memory
memory_after (got a m) = m
memory_after (fault e m) = m

-- What a read of a flat memory gives.
abbrev pub flat_read : ℕ → Flat → ℕ → ℕ → Answer ℕ
flat_read pc f a size = elim (refusal pc f mem_read a size) [
  | some e ↦ refused e
  | none ↦ answer (word_at f.bytes a 0 size)
]

-- A load within a page reads the bytes of the view.
pub le_load-view :
    (m : Memory) (a k n : ℕ)
    → a < 2 ^ 64
    → field a 0 12 + k + n ≤ 4096
    → le_load (m.arrays (data_of (lookup m (shr a 12)))) (field a 0 12 + k) n
      ≡ word_at (byte_at m) a k n
unfolding le_load word_at
le_load-view m a k zero ha h = refl
le_load-view m a k (suc n) ha h =
    let place : (shr (add64 a k) 12 ≡ shr a 12) × (field (add64 a k) 0 12 ≡ field a 0 12 + k) =
      (omega arith, omega arith) in
    ground (arith, place.0, place.1, le_load-view m a (k + 1) n ha (omega arith))

across_byte-view : (m : Memory) (a : ℕ) → IsCoherent m → across_byte m a ≡ byte_at m a
across_byte-view m a co = elim (Option-cases (lookup m (shr a 12))) [
  | inl e ↦ ground (arith, e, co.owned.zeros (field a 0 12))
  | inr (p, e) ↦ elim (Option-cases p.contents) [
    | inl e2 ↦ ground (arith, e, e2, co.owned.zeros (field a 0 12))
    | inr (d, e2) ↦ ground (arith, e, e2)
  ]
]

-- One byte more is or'ed in, which is a sum.
or_byte :
    (acc byte k : ℕ)
    → acc < 2 ^ (8 * k)
    → byte < 2 ^ 8
    → k < 8
    → (bit_or acc (byte * 2 ^ (8 * k) % 2 ^ 64) ≡ acc + 2 ^ (8 * k) * byte)
      × (acc + 2 ^ (8 * k) * byte < 2 ^ (8 * (k + 1)))
or_byte acc byte k ha hb hk = (
  bit_or_comm acc (byte * 2 ^ (8 * k) % 2 ^ 64)
      ∙ ap (λ t. bit_or t acc) (omega (arith, room, small))
      ∙ bit_or_sum (8 * k) byte acc ha
      ∙ omega (arith, mul_comm byte (2 ^ (8 * k))),
  omega (arith, grown, small, mul_comm byte (2 ^ (8 * k))),
)
  where
    grown : 2 ^ (8 * (k + 1)) ≡ 2 ^ (8 * k) * 2 ^ 8
    grown = ap (λ t. 2 ^ t) (omega arith) ∙ two-pow-add (8 * k) 8

    room : 2 ^ (8 * k) * 2 ^ 8 ≤ 2 ^ 64
    room = omega (
      arith,
      grown,
      pow-le-pow_right {n = 2} (omega arith) {i = 8 * (k + 1)} {j = 64} (omega arith),
    )

    small : byte * 2 ^ (8 * k) ≤ 255 * 2 ^ (8 * k)
    small = mul-le-mul_right (2 ^ (8 * k)) (omega arith)

spread : (acc p b w : ℕ) → acc + p * b + p * 2 ^ 8 * w ≡ acc + p * (b + 2 ^ 8 * w)
spread acc p b w = omega arith

-- A read across pages gives the bytes of the view.
pub read_across-view :
    (m : Memory) (a n k acc : ℕ)
    → IsCoherent m
    → k + n ≤ 8
    → acc < 2 ^ (8 * k)
    → read_across m a n k acc ≡ acc + 2 ^ (8 * k) * word_at (byte_at m) a k n
unfolding read_across word_at
read_across-view m a zero k acc co hk ha = omega arith
read_across-view m a (suc n) k acc co hk ha =
    let byte : across_byte m (add64 a k) ≡ byte_at m (add64 a k) =
      across_byte-view m (add64 a k) co in
    let (sum, fit) =
      or_byte acc (across_byte m (add64 a k)) k ha
        (ground (
          arith,
          byte,
          co.owned.narrow (data_of (lookup m (shr (add64 a k) 12))) (field (add64 a k) 0 12),
        ))
        (omega arith) in
    read_across-view m a n (k + 1) _ co (omega arith) (omega (arith, sum, fit))
    ∙ ap₂ (λ s t. s + t * word_at (byte_at m) a (k + 1) n) sum
        (ap (λ t. 2 ^ t) {x = 8 * (k + 1)} {y = 8 * k + 8} (omega arith) ∙ two-pow-add (8 * k) 8)
    ∙ ap (λ b. acc + 2 ^ (8 * k) * b + 2 ^ (8 * k) * 2 ^ 8 * word_at (byte_at m) a (k + 1) n) byte
    ∙ spread acc (2 ^ (8 * k)) (byte_at m (add64 a k)) (word_at (byte_at m) a (k + 1) n)
