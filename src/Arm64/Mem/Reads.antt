-- ===== src/Arm64/Mem/Reads.antt =====
-- The reads of internal/arm64/mem.go against a flat memory.
use gonidbg.Base.{
  ℕ, ◌^◌, ◌<◌, ◌≡◌, refl, arith, true, false, field, shr, Option, none, some, Option-cases,
  Bool-cases, inl, inr, ap, ◌∙◌, [],
}
use gonidbg.Base.Bits.{bit_or_mask}
use gonidbg.Arm64.Mem.{Memory, Page, prot_read}
use gonidbg.Arm64.Mem.Table.{lookup}
use gonidbg.Arm64.Mem.Tlb.{tlb_slot, page_data}
use gonidbg.Arm64.Mem.Guest.{
  Kind, mem_read, FaultKind, unmapped, protected, Fault, Got, got, fault, then_got, HookCode, need,
  bad, resolve, guest_page, call_mem_hooks, call_invalid, hooks_cover_page, is_empty, next_page,
  read_across, read_slow, fill_rtlb,
}
use gonidbg.Arm64.Mem.Guest.Lanes.{load_n, is_size}
use gonidbg.Arm64.Mem.Guest.Access.{hit, fits, fast_load}
use gonidbg.Arm64.Mem.Coherent.{allows, IsCoherent}
use gonidbg.Arm64.Mem.Coherent.Caches.{fill_rtlb-IsCoherent}
use gonidbg.Arm64.Mem.View.{
  view, byte_at, word_at, denied, after_page, refusal, Answer, answer_of, memory_after, flat_read,
  le_load-view, read_across-view, answer, refused,
}

-- A read that gives what the flat memory gives, and that changes neither that nor the invariant.
pub record IsRead (pc : ℕ) (m : Memory) (a size : ℕ) (r : Got ℕ) : Type 0 where
  pub result : answer_of r ≡ flat_read pc (view m) a size
  pub coherent : IsCoherent (memory_after r)
  pub unchanged : view (memory_after r) ≡ view m
  pub hooks :
      ((memory_after r).rhooks ≡ m.rhooks)
      × ((memory_after r).whooks ≡ m.whooks)
      × ((memory_after r).invalid ≡ m.invalid)

pub next_page-after : (a : ℕ) → next_page a ≡ after_page a
next_page-after a = omega (arith, bit_or_mask 12 a)

-- What `guestPage` finds, without a hook for faults: a page that the flat memory grants, or the
-- fault kind it gives.
pub data Finds (code : HookCode) (pc : ℕ) (kind : Kind) (a size val : ℕ) (m : Memory) : Type 0 where
  granted :
      (p : Page)
      → lookup m (shr a 12) ≡ some p
      → allows p (need kind) ≡ true
      → guest_page code pc kind a size val m ≡ got p m
      → denied (view m) kind a ≡ none
      → Finds code pc kind a size val m
  denies :
      (k : FaultKind)
      → guest_page code pc kind a size val m
        ≡ fault (record { kind = k; addr = a; size = size; pc = pc }) m
      → denied (view m) kind a ≡ some k
      → Finds code pc kind a size val m

pub finds :
    (code : HookCode) (pc : ℕ) (kind : Kind) (a size val : ℕ) (m : Memory)
    → m.invalid ≡ []
    → Finds code pc kind a size val m
unfolding guest_page resolve call_invalid
finds code pc kind a size val m silent = elim (Option-cases (lookup m (shr a 12))) [
  | inl e ↦ denies (unmapped kind) (shut (unmapped kind) (ground (arith, e))) (ground (arith, e))
  | inr (p, e) ↦ elim (Bool-cases (allows p (need kind))) [
    | inl may ↦ granted p e may (ground (arith, e, may)) (ground (arith, e, may))
    | inr not_may ↦
        denies (protected kind) (shut (protected kind) (ground (arith, e, not_may)))
          (ground (arith, e, not_may))
  ]
]
  where
    unhandled : (fk : FaultKind) → call_invalid code pc m.invalid fk a size val m ≡ (false, m)
    unhandled fk = rw silent refl

    shut :
        (k : FaultKind)
        → resolve m kind a ≡ bad k
        → guest_page code pc kind a size val m
          ≡ fault (record { kind = k; addr = a; size = size; pc = pc }) m
    shut k e = ground (arith, e, unhandled k)

module _ (code : HookCode) (pc : ℕ) (m : Memory) (co : IsCoherent m) (silent : m.invalid ≡ [])
    (free : m.rhooks ≡ []) (a : ℕ) (in_range : a < 2 ^ 64) (size : ℕ)
    (sized : is_size size ≡ true) where
  unhooked : (is_empty m.rhooks ≡ true) × (call_mem_hooks code pc m.rhooks a size 0 m ≡ m)
  unfolding call_mem_hooks
  unhooked = rw free (refl, refl)

  uncovered : hooks_cover_page m.rhooks (shr a 12) ≡ false
  unfolding hooks_cover_page
  uncovered = rw free refl

  load_n-view :
      (p : Page)
      → lookup m (shr a 12) ≡ some p
      → fits a size ≡ true
      → load_n (m.arrays (page_data p)) (field a 0 12) size ≡ word_at (byte_at m) a 0 size
  unfolding load_n
  load_n-view p e inside =
      ground (arith, e, sized, le_load-view m a 0 size in_range (ground (arith, sized, inside)))

  -- The ways through the slow path, without hooks.
  slow_refused :
      (f : Fault)
      → guest_page code pc mem_read a size 0 m ≡ fault f m
      → read_slow code pc a size m ≡ fault f m
  unfolding read_slow
  slow_refused f g = ground (arith, g)

  slow_within :
      (p : Page)
      → guest_page code pc mem_read a size 0 m ≡ got p m
      → fits a size ≡ true
      → read_slow code pc a size m
        ≡ got (load_n (m.arrays (page_data p)) (field a 0 12) size) (fill_rtlb (shr a 12) p m)
  unfolding read_slow
  slow_within p g inside = ground (arith, g, inside, unhooked.0)

  slow_refused_after :
      (p : Page) (f : Fault)
      → guest_page code pc mem_read a size 0 m ≡ got p m
      → fits a size ≡ false
      → guest_page code pc mem_read (after_page a) size 0 m ≡ fault f m
      → read_slow code pc a size m ≡ fault f m
  unfolding read_slow
  slow_refused_after p f g outside h = ground (arith, g, outside, next_page-after a, h)

  slow_across :
      (p q : Page)
      → guest_page code pc mem_read a size 0 m ≡ got p m
      → fits a size ≡ false
      → guest_page code pc mem_read (after_page a) size 0 m ≡ got q m
      → read_slow code pc a size m ≡ got (read_across m a size 0 0) m
  unfolding read_slow
  slow_across p q g outside h = ground (arith, g, outside, next_page-after a, h, unhooked.1)

  fault-IsRead :
      (f : Fault) → refusal pc (view m) mem_read a size ≡ some f → IsRead pc m a size (fault f m)
  fault-IsRead f e = record {
    result = ground (arith, e);
    coherent = co;
    unchanged = refl;
    hooks = (refl, refl, refl);
  }

  within-IsRead :
      (p : Page)
      → lookup m (shr a 12) ≡ some p
      → allows p prot_read ≡ true
      → denied (view m) mem_read a ≡ none
      → fits a size ≡ true
      → IsRead pc m a size
          (got (load_n (m.arrays (page_data p)) (field a 0 12) size) (fill_rtlb (shr a 12) p m))
  unfolding fill_rtlb
  within-IsRead p e may d inside = record {
    result = ground (arith, d, inside, load_n-view p e inside);
    coherent = fill_rtlb-IsCoherent m (shr a 12) p co e may uncovered;
    unchanged = refl;
    hooks = (refl, refl, refl);
  }

  across-IsRead :
      denied (view m) mem_read a ≡ none
      → denied (view m) mem_read (after_page a) ≡ none
      → IsRead pc m a size (got (read_across m a size 0 0) m)
  across-IsRead d d2 = record {
    result =
        ground
          (arith, d, d2, read_across-view m a size 0 0 co (ground (arith, sized)) (omega arith));
    coherent = co;
    unchanged = refl;
    hooks = (refl, refl, refl);
  }

  pub read_slow-IsRead : IsRead pc m a size (read_slow code pc a size m)
  read_slow-IsRead = elim (finds code pc mem_read a size 0 m silent) [
    | denies k g d ↦ rw (slow_refused _ g) (fault-IsRead _ (ground (arith, d)))
    | granted p e may g d ↦ elim (Bool-cases (fits a size)) [
      | inl inside ↦ rw (slow_within p g inside) (within-IsRead p e may d inside)
      | inr outside ↦ elim (finds code pc mem_read (after_page a) size 0 m silent) [
        | denies k h d2 ↦
            rw (slow_refused_after p _ g outside h)
              (fault-IsRead _ (ground (arith, d, outside, d2)))
        | granted q e2 may2 h d2 ↦ rw (slow_across p q g outside h) (across-IsRead d d2)
      ]
    ]
  ]

  -- A hit in the TLB reads the page of the view.
  pub fast_load-IsRead :
      hit m.rtlb a ≡ true → fits a size ≡ true → IsRead pc m a size (fast_load a size m)
  fast_load-IsRead found inside = record {
    result = elim (Option-cases (lookup m (shr a 12))) [
      | inl e ↦ ground (arith, e, found, in_range, co.cached.reads (tlb_slot (shr a 12)))
      | inr (p, e) ↦ ground (
        arith,
        e,
        found,
        inside,
        in_range,
        load_n-view p e inside,
        co.cached.reads (tlb_slot (shr a 12)),
      )
    ];
    coherent = co;
    unchanged = refl;
    hooks = (refl, refl, refl);
  }

unfoldable pub map_answer : (ℕ → ℕ) → Answer ℕ → Answer ℕ
map_answer k (answer v) = answer (k v)
map_answer k (refused e) = refused e

pub same_answer :
    (o : Option Fault) (k : ℕ → ℕ) (w : ℕ)
    → k w ≡ w
    → map_answer k (elim o [ some e ↦ refused e | none ↦ answer w ])
      ≡ (elim o [ some e ↦ refused e | none ↦ answer w ])
unfolding map_answer
same_answer none k w e = ap answer e
same_answer (some f) k w e = refl

-- A result is cut to its width, which it has.
pub trimmed :
    (pc : ℕ) (m : Memory) (a size : ℕ) (k : ℕ → ℕ)
    → k (word_at (byte_at m) a 0 size) ≡ word_at (byte_at m) a 0 size
    → (r : Got ℕ) → IsRead pc m a size r
    → IsRead pc m a size (then_got r (λ v m. got (k v) m))
unfolding map_answer
trimmed pc m a size k same (got v n) h = record {
  result = ap (map_answer k) h.result ∙ same_answer (refusal pc (view m) mem_read a size) k _ same;
  coherent = h.coherent;
  unchanged = h.unchanged;
  hooks = h.hooks;
}
trimmed pc m a size k same (fault f n) h = record {
  result = h.result;
  coherent = h.coherent;
  unchanged = h.unchanged;
  hooks = h.hooks;
}
