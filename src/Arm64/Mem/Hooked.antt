-- ===== src/Arm64/Mem/Hooked.antt =====
-- That no access of internal/arm64/mem.go slips past a hook.
use gonidbg.Base.{
  ℕ, ◌^◌, ◌<◌, ◌≡◌, refl, ap, ◌∙◌, arith, Bool, true, false, not, ◌&&◌, ◌||◌, field, shr, ltb, leb,
  ◌==◌, if◌then◌else◌, u8, u16, u32, List, [], ◌∷◌, ◌++◌,
}
use gonidbg.Arm64.Mem.{Memory, Page, MemHook}
use gonidbg.Arm64.Mem.Tlb.{tlb_slot, page_data}
use gonidbg.Arm64.Mem.Guest.{
  Got, got, fault, then_got, HookCode, mem_read, mem_write, page, resolve, guest_page,
  hooks_cover_page, is_empty, call_mem_hooks, read_slow, write_page,
}
use gonidbg.Arm64.Mem.Guest.Lanes.{load_n, is_size, by_size}
use gonidbg.Arm64.Mem.Guest.Access.{hit, fits, read8, read16, read32, read64, read_n}
use gonidbg.Arm64.Mem.Coherent.{IsCoherent}
use gonidbg.Arm64.Mem.Lawful.{IsLawful}
use gonidbg.Arm64.Mem.Reachable.{Reaches, Reaches-IsCoherent}

-- Whether a hook asks for the accesses to an address: its range holds it, or it is empty.
abbrev pub fires : ℕ → MemHook → Bool
fires a h = ltb h.end h.begin || (leb h.begin a && leb a h.end)

-- A value of `size` bytes.
abbrev pub narrowed : ℕ → ℕ → ℕ
narrowed size v =
    if size == 1 then u8 v else if size == 2 then u16 v else if size == 4 then u32 v else v

covers-append :
    (hs gs : List MemHook) (h : MemHook) (a : ℕ)
    → a < 2 ^ 64
    → fires a h ≡ true
    → (not (is_empty (hs ++ h ∷ gs)) && hooks_cover_page (hs ++ h ∷ gs) (shr a 12)) ≡ true
unfolding hooks_cover_page
covers-append [] gs h a ha f = ground (arith, f)
covers-append (g ∷ hs) gs h a ha f = ground (arith, covers-append hs gs h a ha f)

whole_word : (r : Got ℕ) → r ≡ then_got r (λ v l. got (narrowed 8 v) l)
whole_word (got v l) = refl
whole_word (fault f l) = refl

module _ (code : HookCode) (pc : ℕ) where
  call-append :
      (hs gs : List MemHook) (h : MemHook) (a size v : ℕ) (m : Memory)
      → fires a h ≡ true
      → call_mem_hooks code pc (hs ++ h ∷ gs) a size v m
        ≡ call_mem_hooks code pc gs a size v
            (code.mem_hook h.fn a size v (call_mem_hooks code pc hs a size v m))
  unfolding call_mem_hooks
  call-append [] gs h a size v m f =
      ap (λ b. call_mem_hooks code pc gs a size v (if b then code.mem_hook h.fn a size v m else m))
        f
  call-append (g ∷ hs) gs h a size v m f = call-append hs gs h a size v _ f

  -- The memory once the hooks have run, `h` among them.
  abbrev pub hooks_ran : List MemHook → MemHook → List MemHook → ℕ → ℕ → ℕ → Memory → Memory
  hooks_ran hs h gs a size v m =
      call_mem_hooks code pc gs a size v
        (code.mem_hook h.fn a size v (call_mem_hooks code pc hs a size v m))

  -- The rest of a read and of a write within a page, after the hooks.
  abbrev pub then_load : ℕ → ℕ → Memory → Got ℕ
  then_load a size m =
      then_got (guest_page code pc mem_read a size 0 m)
        (λ q l. got (narrowed size (load_n (l.arrays (page_data q)) (field a 0 12) size)) l)

  abbrev pub then_store : ℕ → ℕ → ℕ → Memory → Got Unit
  then_store a size v m =
      then_got (guest_page code pc mem_write a size v m)
        (λ q l. got tt (write_page true a size v q l))

  narrowed-load :
      (a size : ℕ) (r : Got Page)
      → then_got
          (then_got r (λ q l. got (load_n (l.arrays (page_data q)) (field a 0 12) size) l))
          (λ v l. got (narrowed size v) l)
        ≡ then_got r
            (λ q l. got (narrowed size (load_n (l.arrays (page_data q)) (field a 0 12) size)) l)
  narrowed-load a size (got q l) = refl
  narrowed-load a size (fault e l) = refl

  module _ (m : Memory) (hs gs : List MemHook) (h : MemHook) (a : ℕ) (in_range : a < 2 ^ 64)
      (asks : fires a h ≡ true) (p : Page) where
    covered :
        (all : List MemHook)
        → all ≡ hs ++ h ∷ gs
        → not (is_empty all) && hooks_cover_page all (shr a 12) ≡ true
    covered all registered =
        ap (λ l. not (is_empty l) && hooks_cover_page l (shr a 12)) registered
        ∙ covers-append hs gs h a in_range asks

    call-hooks_ran :
        (all : List MemHook) (size v : ℕ)
        → all ≡ hs ++ h ∷ gs
        → call_mem_hooks code pc all a size v m ≡ hooks_ran hs h gs a size v m
    call-hooks_ran all size v registered =
        ap (λ l. call_mem_hooks code pc l a size v m) registered
        ∙ call-append hs gs h a size v m asks

    read_slow-calls :
        (size : ℕ)
        → not (is_empty m.rhooks) && hooks_cover_page m.rhooks (shr a 12) ≡ true
        → resolve m mem_read a ≡ page p
        → fits a size ≡ true
        → read_slow code pc a size m
          ≡ then_got
              (guest_page code pc mem_read a size 0 (call_mem_hooks code pc m.rhooks a size 0 m))
              (λ q l. got (load_n (l.arrays (page_data q)) (field a 0 12) size) l)
    unfolding read_slow guest_page
    read_slow-calls size cov granted whole = rw (whole, granted, cov) refl

    module _ (co : IsCoherent m) where
      read-missed : m.rhooks ≡ hs ++ h ∷ gs → hit m.rtlb a ≡ false
      read-missed registered =
          ground
            (arith, in_range, covered m.rhooks registered, co.cached.reads (tlb_slot (shr a 12)))

      read_n-missed :
          (size : ℕ)
          → is_size size ≡ true
          → hit m.rtlb a ≡ false
          → read_n code pc a size m
            ≡ then_got (read_slow code pc a size m) (λ v l. got (narrowed size v) l)
      unfolding read_n read8 read16 read32 read64
      read_n-missed size sized miss =
          by_size
            (λ n.
              read_n code pc a n m
              ≡ then_got (read_slow code pc a n m) (λ v l. got (narrowed n v) l))
            (rw miss refl) (rw miss refl) (rw miss refl) (rw miss (whole_word _)) size sized

      hooked-read :
          (size : ℕ)
          → is_size size ≡ true
          → m.rhooks ≡ hs ++ h ∷ gs
          → resolve m mem_read a ≡ page p
          → fits a size ≡ true
          → read_n code pc a size m ≡ then_load a size (hooks_ran hs h gs a size 0 m)
      hooked-read size sized registered granted whole =
          read_n-missed size sized (read-missed registered)
          ∙ ap (λ r. then_got r (λ v l. got (narrowed size v) l))
              (read_slow-calls size (covered m.rhooks registered) granted whole
                ∙ ap
                    (λ n.
                      then_got (guest_page code pc mem_read a size 0 n)
                        (λ q l. got (load_n (l.arrays (page_data q)) (field a 0 12) size) l))
                    (call-hooks_ran m.rhooks size 0 registered))
          ∙ narrowed-load a size
              (guest_page code pc mem_read a size 0 (hooks_ran hs h gs a size 0 m))

module _ (code : HookCode) (pc : ℕ) (m : Memory) (hs gs : List MemHook) (h : MemHook) (p : Page)
    (a size : ℕ) where
  -- In every memory that the operations reach, when read hook `h` is registered and asks for the
  -- address, a read of 1, 2, 4 or 8 bytes within a page that grants it calls the hook: the hooks
  -- before it, `h` and those after it run in the order in which they were registered, with the
  -- address and the size, and then the value is loaded from the page as they leave it, or the read
  -- faults if they took the page away. No warm TLB entry bypasses the hook. The code of the hooks is
  -- taken to keep the caches coherent, and the address is of 64 bits.
  pub read_n-hooked :
      IsLawful code
      → Reaches code m
      → m.rhooks ≡ hs ++ h ∷ gs
      → fires a h ≡ true
      → a < 2 ^ 64
      → is_size size ≡ true
      → fits a size ≡ true
      → resolve m mem_read a ≡ page p
      → read_n code pc a size m ≡ then_load code pc a size (hooks_ran code pc hs h gs a size 0 m)
  read_n-hooked law reached registered asks in_range sized whole granted =
      hooked-read code pc m hs gs h a in_range asks p (Reaches-IsCoherent code m law reached) size
        sized registered granted whole
