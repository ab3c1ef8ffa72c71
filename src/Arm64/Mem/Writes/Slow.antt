-- ===== src/Arm64/Mem/Writes/Slow.antt =====
-- `writeSlow` and a hit of the write TLB in internal/arm64/mem.go against a flat memory.
use gonidbg.Base.{
  ℕ, ◌+◌, ◌-◌, ◌^◌, ◌≤◌, ◌<◌, ◌≡◌, refl, arith, true, false, ◌&&◌, ltb, leb, ◌==◌, field, shr,
  add64, sub64, none, some, Option-cases, Bool-cases, inl, inr, ap, ◌∙◌, [],
}
use gonidbg.Arm64.Mem.{Memory, Page, prot_write}
use gonidbg.Arm64.Mem.Table.{lookup}
use gonidbg.Arm64.Mem.Tlb.{tlb_slot}
use gonidbg.Arm64.Mem.Guest.{
  mem_write, Fault, got, fault, HookCode, guest_page, call_mem_hooks, hooks_cover_page, is_empty,
  write_across, write_page, write_slow, store_array, fill_wtlb,
}
use gonidbg.Arm64.Mem.Guest.Lanes.{store_n, width, is_size}
use gonidbg.Arm64.Mem.Guest.Access.{hit, fits, entry_data, fast_store}
use gonidbg.Arm64.Mem.Coherent.{allows, IsCoherent}
use gonidbg.Arm64.Mem.Coherent.Caches.{store_array-IsCoherent}
use gonidbg.Arm64.Mem.Coherent.Put.{byte_put, put_cached-IsCoherent, prot-put, byte-put}
use gonidbg.Arm64.Mem.Coherent.Writable.{hooks-writable}
use gonidbg.Arm64.Mem.View.{view, byte_at, prot_of, denied, after_page, refusal}
use gonidbg.Arm64.Mem.Reads.{granted, denies, finds, next_page-after}
use gonidbg.Arm64.Mem.Writes.{written, IsWrite}
use gonidbg.Arm64.Mem.Writes.Across.{present, IsAcross, write_across-IsAcross}

-- A store within a page is the store of the flat memory.
within-written :
    (f : ℕ → ℕ) (a size v x : ℕ)
    → a < 2 ^ 64
    → x < 2 ^ 64
    → is_size size ≡ true
    → fits a size ≡ true
    → byte_put f (shr a 12) (field a 0 12) size v x ≡ written f a v 0 size x
within-written f a size v x ha hx sized inside = elim (Bool-cases (ltb (sub64 x a) size)) [
  | inl e ↦
      let near : x ≡ a + sub64 x a = ground (arith, e, sized, inside) in
      let same : shr x 12 ≡ shr a 12 = ground (arith, e, sized, inside, near) in
      let distance : field x 0 12 - field a 0 12 ≡ sub64 x a =
        ground (arith, e, sized, inside, near) in
      let low : field a 0 12 ≤ field x 0 12 = ground (arith, e, sized, inside, near) in
      ground (arith, e, sized, same, distance, low)
  | inr e ↦
      let elsewhere : ((shr x 12 == shr a 12)
            && leb (field a 0 12) (field x 0 12)
            && ltb (field x 0 12) (field a 0 12 + width size))
          ≡ false =
        ground (arith, e, sized) in
      ground (arith, e, elsewhere)
]

module _ (code : HookCode) (pc : ℕ) (m : Memory) (co : IsCoherent m) (silent : m.invalid ≡ [])
    (free : m.whooks ≡ []) (a : ℕ) (in_range : a < 2 ^ 64) (size : ℕ) (sized : is_size size ≡ true)
    (v : ℕ) where
  unhooked : (is_empty m.whooks ≡ true) × (call_mem_hooks code pc m.whooks a size v m ≡ m)
  unfolding call_mem_hooks
  unhooked = rw free (refl, refl)

  uncovered : hooks_cover_page m.whooks (shr a 12) ≡ false
  unfolding hooks_cover_page
  uncovered = rw free refl

  slow_refused :
      (f : Fault)
      → guest_page code pc mem_write a size v m ≡ fault f m
      → write_slow code pc a size v m ≡ fault f m
  unfolding write_slow
  slow_refused f g = ground (arith, g)

  slow_within :
      (p : Page)
      → guest_page code pc mem_write a size v m ≡ got p m
      → fits a size ≡ true
      → write_slow code pc a size v m ≡ got tt (write_page false a size v p m)
  unfolding write_slow
  slow_within p g inside = ground (arith, g, inside, unhooked.0)

  slow_refused_after :
      (p : Page) (f : Fault)
      → guest_page code pc mem_write a size v m ≡ got p m
      → fits a size ≡ false
      → guest_page code pc mem_write (after_page a) size v m ≡ fault f m
      → write_slow code pc a size v m ≡ fault f m
  unfolding write_slow
  slow_refused_after p f g outside h = ground (arith, g, outside, next_page-after a, h)

  slow_across :
      (p q : Page)
      → guest_page code pc mem_write a size v m ≡ got p m
      → fits a size ≡ false
      → guest_page code pc mem_write (after_page a) size v m ≡ got q m
      → write_slow code pc a size v m ≡ got tt (write_across a v size 0 m)
  unfolding write_slow
  slow_across p q g outside h = ground (arith, g, outside, next_page-after a, h, unhooked.1)

  fault-IsWrite :
      (f : Fault)
      → refusal pc (view m) mem_write a size ≡ some f
      → IsWrite pc m a size v (fault f m)
  fault-IsWrite f e = record {
    result = ground (arith, e);
    coherent = co;
    hooks = (refl, refl, refl);
    prots = λ x. refl;
    bytes = λ x hx. ground (arith, e);
  }

  within-IsWrite :
      (p : Page)
      → lookup m (shr a 12) ≡ some p
      → allows p prot_write ≡ true
      → denied (view m) mem_write a ≡ none
      → fits a size ≡ true
      → IsWrite pc m a size v (got tt (write_page false a size v p m))
  unfolding write_page fill_wtlb
  within-IsWrite p e may d inside = record {
    result = ground (arith, d, inside);
    coherent = put_cached-IsCoherent m co (shr a 12) p e (field a 0 12) size v may uncovered;
    hooks = hooks-writable m co (shr a 12) p e;
    prots = λ x. prot-put m co (shr a 12) p e (field a 0 12) size v (shr x 12);
    bytes = λ x hx.
        byte-put m co (shr a 12) p e (field a 0 12) size v x
        ∙ within-written (byte_at m) a size v x in_range hx sized inside
        ∙ ground (arith, d, inside);
  }

  granted_page :
      (b : ℕ) → denied (view m) mem_write b ≡ none → present (prot_of (lookup m (shr b 12))) ≡ true
  granted_page b d = elim (Option-cases (prot_of (lookup m (shr b 12)))) [
    | inl e ↦ ground (arith, e, d)
    | inr (p, e) ↦ ground (arith, e)
  ]

  both_pages :
      denied (view m) mem_write a ≡ none
      → denied (view m) mem_write (after_page a) ≡ none
      → (i : ℕ) → i < 8
      → present (prot_of (lookup m (shr (add64 a i) 12))) ≡ true
  both_pages d d2 i hi = elim (Bool-cases (ltb (field a 0 12 + i) 4096)) [
    | inl e ↦
        let same : shr (add64 a i) 12 ≡ shr a 12 = ground (arith, e, in_range) in
        ground (arith, same, granted_page a d)
    | inr e ↦
        let next : shr (add64 a i) 12 ≡ shr (after_page a) 12 = ground (arith, e, in_range, hi) in
        ground (arith, next, granted_page (after_page a) d2)
  ]

  across-IsWrite :
      denied (view m) mem_write a ≡ none
      → denied (view m) mem_write (after_page a) ≡ none
      → fits a size ≡ false
      → IsWrite pc m a size v (got tt (write_across a v size 0 m))
  across-IsWrite d d2 outside =
      let there : (i : ℕ) → i < 8 → present (prot_of (lookup m (shr (add64 a i) 12))) ≡ true =
        both_pages d d2 in
      let done : IsAcross m a v 0 size (write_across a v size 0 m) =
        write_across-IsAcross size m a v 0 co in_range (ground (arith, sized)) there in
      record {
        result = ground (arith, d, d2);
        coherent = done.across_coherent;
        hooks = done.across_hooks;
        prots = λ x. done.across_prots (shr x 12);
        bytes = λ x hx. done.across_bytes x hx ∙ ground (arith, d, d2);
      }

  pub write_slow-IsWrite : IsWrite pc m a size v (write_slow code pc a size v m)
  write_slow-IsWrite = elim (finds code pc mem_write a size v m silent) [
    | denies k g d ↦ rw (slow_refused _ g) (fault-IsWrite _ (ground (arith, d)))
    | granted p e may g d ↦ elim (Bool-cases (fits a size)) [
      | inl inside ↦ rw (slow_within p g inside) (within-IsWrite p e may d inside)
      | inr outside ↦ elim (finds code pc mem_write (after_page a) size v m silent) [
        | denies k h d2 ↦
            rw (slow_refused_after p _ g outside h)
              (fault-IsWrite _ (ground (arith, d, outside, d2)))
        | granted q e2 may2 h d2 ↦ rw (slow_across p q g outside h) (across-IsWrite d d2 outside)
      ]
    ]
  ]

  hit_page :
      (p : Page)
      → lookup m (shr a 12) ≡ some p
      → hit m.wtlb a ≡ true
      → (allows p prot_write ≡ true)
        × (p.contents ≡ some (entry_data m.wtlb a))
        × (ltb 0 (entry_data m.wtlb a) ≡ true)
  hit_page p e found = elim (Option-cases p.contents) [
    | inl none_there ↦ (
      ground (arith, e, found, in_range, none_there, co.cached.writes (tlb_slot (shr a 12))),
      ground (arith, e, found, in_range, none_there, co.cached.writes (tlb_slot (shr a 12))),
      ground (arith, e, found, in_range, none_there, co.cached.writes (tlb_slot (shr a 12))),
    )
    | inr (d, there) ↦
        let same : (allows p prot_write ≡ true) × (d ≡ entry_data m.wtlb a) = (
          ground (arith, e, found, in_range, there, co.cached.writes (tlb_slot (shr a 12))),
          ground (arith, e, found, in_range, there, co.cached.writes (tlb_slot (shr a 12))),
        ) in
        (
          same.0,
          there ∙ ap some same.1,
          ground (arith, e, there, same.1, co.owned.bounded (shr a 12)),
        )
  ]

  hit_bytes :
      (p : Page) (x : ℕ)
      → lookup m (shr a 12) ≡ some p
      → hit m.wtlb a ≡ true
      → byte_at (store_array (entry_data m.wtlb a) (field a 0 12) size v m) x
        ≡ byte_put (byte_at m) (shr a 12) (field a 0 12) size v x
  unfolding store_n
  hit_bytes p x e found =
      let own = hit_page p e found in
      ground (arith, e, own.1, own.2, co.owned.apart (shr a 12) (shr x 12))

  hit-IsWrite :
      (p : Page)
      → lookup m (shr a 12) ≡ some p
      → hit m.wtlb a ≡ true
      → fits a size ≡ true
      → IsWrite pc m a size v (fast_store a size v m)
  hit-IsWrite p e found inside =
      let own = hit_page p e found in
      record {
        result = ground (arith, e, own.0, inside);
        coherent = store_array-IsCoherent m (entry_data m.wtlb a) (field a 0 12) size v co own.2;
        hooks = (refl, refl, refl);
        prots = λ x. refl;
        bytes = λ x hx.
            hit_bytes p x e found
            ∙ within-written (byte_at m) a size v x in_range hx sized inside
            ∙ ground (arith, e, own.0, inside);
      }

  -- A hit in the TLB writes the page of the view.
  pub fast_store-IsWrite :
      hit m.wtlb a ≡ true → fits a size ≡ true → IsWrite pc m a size v (fast_store a size v m)
  fast_store-IsWrite found inside = elim (Option-cases (lookup m (shr a 12))) [
    | inl e ↦ absurd (ground (arith, e, found, in_range, co.cached.writes (tlb_slot (shr a 12))))
    | inr (p, e) ↦ hit-IsWrite p e found inside
  ]
