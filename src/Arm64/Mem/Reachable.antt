-- ===== src/Arm64/Mem/Reachable.antt =====
-- The operations of internal/arm64/mem.go as steps, and what every memory that they reach keeps.
use gonidbg.Base.{
  ℕ, zero, suc, ◌-◌, ◌^◌, ◌<◌, ◌≡◌, refl, arith, Bool, true, ltb, ◌&&◌, ◌==◌, Option, none, some,
  Option-cases, inl, inr, List, [], ◌∷◌, get_elem?, length, min, field, shr, add64, Bool-cases,
}
use gonidbg.Arm64.Cpu.{update}
use gonidbg.Arm64.Mem.{Memory, Page, MemHook}
use gonidbg.Arm64.Mem.Table.{lookup}
use gonidbg.Arm64.Mem.Tlb.{init, writable}
use gonidbg.Arm64.Mem.Range.{map, unmap, protect, Checked, ok, err, then_ok}
use gonidbg.Arm64.Mem.Range.Exact.{result_memory}
use gonidbg.Arm64.Mem.Range.Mapping.{map-IsStep}
use gonidbg.Arm64.Mem.Range.Unmapping.{unmap-IsStep, protect-IsStep}
use gonidbg.Arm64.Mem.Guest.{HookCode}
use gonidbg.Arm64.Mem.Guest.Access.{read_n, write_n}
use gonidbg.Arm64.Mem.Host.{
  overwrite, take, drop, write_found, write_chunk, host_write_loop, host_check, host_write,
  drop_all_code, add_read_hook, add_write_hook, add_invalid_hook,
}
use gonidbg.Arm64.Mem.Coherent.{IsCoherent}
use gonidbg.Arm64.Mem.Coherent.Writable.{writable-IsCoherent, lookup-writable}
use gonidbg.Arm64.Mem.Hooks.{
  init-IsCoherent, add_read_hook-IsCoherent, add_write_hook-IsCoherent, drop_all_code-IsCoherent,
}
use gonidbg.Arm64.Mem.Lawful.{IsLawful}
use gonidbg.Arm64.Mem.Lawful.Accesses.{access-IsCoherent}
use gonidbg.Arm64.Mem.View.{memory_after}

-- Whether all numbers of a list are bytes.
abbrev pub are_bytes : List ℕ → Bool
are_bytes [] = true
are_bytes (x ∷ xs) = ltb x (2 ^ 8) && are_bytes xs

byte-get_elem? :
    (xs : List ℕ) (i x : ℕ) → are_bytes xs ≡ true → get_elem? xs i ≡ some x → ltb x (2 ^ 8) ≡ true
byte-get_elem? [] i x h e = ground (arith, e)
byte-get_elem? (y ∷ ys) zero x h e = ground (arith, h, e)
byte-get_elem? (y ∷ ys) (suc i) x h e = byte-get_elem? ys i x (ground (arith, h)) e

are_bytes-take : (n : ℕ) (xs : List ℕ) → are_bytes xs ≡ true → are_bytes (take n xs) ≡ true
are_bytes-take zero xs h = refl
are_bytes-take (suc n) [] h = refl
are_bytes-take (suc n) (x ∷ xs) h = ground (arith, h, are_bytes-take n xs (ground (arith, h)))

are_bytes-drop : (n : ℕ) (xs : List ℕ) → are_bytes xs ≡ true → are_bytes (drop n xs) ≡ true
are_bytes-drop zero xs h = h
are_bytes-drop (suc n) [] h = refl
are_bytes-drop (suc n) (x ∷ xs) h = are_bytes-drop n xs (ground (arith, h))

overwrite-narrow :
    (b : ℕ → ℕ) (off i : ℕ) (xs : List ℕ)
    → ltb (b i) (2 ^ 8) ≡ true
    → are_bytes xs ≡ true
    → ltb (overwrite b off xs i) (2 ^ 8) ≡ true
overwrite-narrow b off i xs h hx = elim (Option-cases (get_elem? xs (i - off))) [
  | inl e ↦ ground (arith, e, h)
  | inr (x, e) ↦ ground (arith, e, h, byte-get_elem? xs (i - off) x hx e)
]

-- An array other than `zeroPage` may get other bytes.
set_array-IsCoherent :
    (m : Memory) (d : ℕ) (b : ℕ → ℕ)
    → IsCoherent m
    → ltb 0 d ≡ true
    → ((i : ℕ) → ltb (b i) (2 ^ 8) ≡ true)
    → IsCoherent (record m { arrays = update m.arrays d b })
set_array-IsCoherent m d b co pos h = record {
  owned = record {
    zeros = λ i. ground (arith, pos, co.owned.zeros i);
    narrow = λ k i. ground (arith, co.owned.narrow k i, h i);
    room = co.owned.room;
    bounded = co.owned.bounded;
    apart = co.owned.apart;
  };
  cached = record {
    reads = co.cached.reads;
    writes = co.cached.writes;
    codes = co.cached.codes;
    executing = co.cached.executing;
  };
}

write_found-IsCoherent :
    (o : Option Page) (a : ℕ) (xs : List ℕ) (m : Memory)
    → are_bytes xs ≡ true
    → IsCoherent m
    → lookup m (shr a 12) ≡ o
    → IsCoherent (write_found o a xs m)
write_found-IsCoherent none a xs m hx co e = co
write_found-IsCoherent (some p) a xs m hx co e =
    let w = writable-IsCoherent m co (shr a 12) p e in
    let (d, n) = writable m (shr a 12) p in
    set_array-IsCoherent n d _ w
      (ground (arith, lookup-writable m co (shr a 12) p e (shr a 12), w.owned.bounded (shr a 12)))
      (λ i. overwrite-narrow (n.arrays d) (field a 0 12) i xs (w.owned.narrow d i) hx)

write_chunk-IsCoherent :
    (a : ℕ) (xs : List ℕ) (m : Memory)
    → are_bytes xs ≡ true
    → IsCoherent m
    → IsCoherent (write_chunk a xs m)
unfolding write_chunk
write_chunk-IsCoherent a xs m hx co = write_found-IsCoherent (lookup m (shr a 12)) a xs m hx co refl

host_write_loop-IsCoherent :
    (fuel a : ℕ) (src : List ℕ) (m : Memory)
    → are_bytes src ≡ true
    → IsCoherent m
    → IsCoherent (host_write_loop fuel a src m)
unfolding host_write_loop
host_write_loop-IsCoherent zero a src m h co = co
host_write_loop-IsCoherent (suc fuel) a src m h co =
    let n = min (4096 - field a 0 12) (length src) in
    let rest =
      host_write_loop-IsCoherent fuel (add64 a n) (drop n src) (write_chunk a (take n src) m)
        (are_bytes-drop n src h)
        (write_chunk-IsCoherent a (take n src) m (are_bytes-take n src h) co) in
    elim (Bool-cases (length src == 0)) [ inl e ↦ rw e co | inr e ↦ rw e rest ]

after_check :
    (m n : Memory) (r : Checked Unit)
    → IsCoherent m
    → IsCoherent n
    → IsCoherent (result_memory m (then_ok r (λ u. ok n)))
after_check m n (ok u) co cn = cn
after_check m n (err e) co cn = co

host_write-IsCoherent :
    (m : Memory) (a : ℕ) (src : List ℕ)
    → are_bytes src ≡ true
    → IsCoherent m
    → IsCoherent (result_memory m (host_write m a src))
unfolding host_write
host_write-IsCoherent m a src h co =
    after_check m (host_write_loop (length src) a src m) (host_check m "write" a (length src)) co
      (host_write_loop-IsCoherent (length src) a src m h co)

add_invalid_hook-IsCoherent :
    (m : Memory) (h : ℕ) → IsCoherent m → IsCoherent (add_invalid_hook m h)
unfolding add_invalid_hook
add_invalid_hook-IsCoherent m h co = record {
  owned = record {
    zeros = co.owned.zeros;
    narrow = co.owned.narrow;
    room = co.owned.room;
    bounded = co.owned.bounded;
    apart = co.owned.apart;
  };
  cached = record {
    reads = co.cached.reads;
    writes = co.cached.writes;
    codes = co.cached.codes;
    executing = co.cached.executing;
  };
}

-- One operation on the memory, of the guest or of the host.
pub data Does (code : HookCode) : Memory → Memory → Type 0 where
  does_read :
      (pc a size : ℕ) (m : Memory)
      → a < 2 ^ 64
      → Does code m (memory_after (read_n code pc a size m))
  does_write :
      (pc a size v : ℕ) (m : Memory)
      → a < 2 ^ 64
      → Does code m (memory_after (write_n code pc a size v m))
  does_map :
      (addr size prot : ℕ) (m : Memory)
      → addr < 2 ^ 64
      → size < 2 ^ 64
      → Does code m (result_memory m (map m addr size prot))
  does_unmap :
      (addr size : ℕ) (m : Memory)
      → addr < 2 ^ 64
      → size < 2 ^ 64
      → Does code m (result_memory m (unmap m addr size))
  does_protect :
      (addr size prot : ℕ) (m : Memory)
      → addr < 2 ^ 64
      → size < 2 ^ 64
      → Does code m (result_memory m (protect m addr size prot))
  does_host_write :
      (a : ℕ) (src : List ℕ) (m : Memory)
      → are_bytes src ≡ true
      → Does code m (result_memory m (host_write m a src))
  does_drop : (m : Memory) → Does code m (drop_all_code m)
  does_watch_reads : (h : MemHook) (m : Memory) → Does code m (add_read_hook m h)
  does_watch_faults : (h : ℕ) (m : Memory) → Does code m (add_invalid_hook m h)
  does_watch_writes : (h : MemHook) (m : Memory) → Does code m (add_write_hook m h)

Does-IsCoherent :
    (code : HookCode) (m n : Memory) → IsLawful code → Does code m n → IsCoherent m → IsCoherent n
Does-IsCoherent code _ _ law (does_read pc a size m ha) co =
    (access-IsCoherent code pc a size 0 m law co ha).0
Does-IsCoherent code _ _ law (does_write pc a size v m ha) co =
    (access-IsCoherent code pc a size v m law co ha).1
Does-IsCoherent code _ _ law (does_map addr size prot m ha hs) co =
    (map-IsStep m addr size prot co ha hs).coherent
Does-IsCoherent code _ _ law (does_unmap addr size m ha hs) co =
    (unmap-IsStep m addr size co ha hs).coherent
Does-IsCoherent code _ _ law (does_protect addr size prot m ha hs) co =
    (protect-IsStep m addr size prot co ha hs).coherent
Does-IsCoherent code _ _ law (does_host_write a src m h) co = host_write-IsCoherent m a src h co
Does-IsCoherent code _ _ law (does_drop m) co = drop_all_code-IsCoherent m co
Does-IsCoherent code _ _ law (does_watch_reads h m) co = add_read_hook-IsCoherent m h co
Does-IsCoherent code _ _ law (does_watch_faults h m) co = add_invalid_hook-IsCoherent m h co
Does-IsCoherent code _ _ law (does_watch_writes h m) co = add_write_hook-IsCoherent m h co

-- The memories that the operations reach from `init`.
pub data Reaches (code : HookCode) : Memory → Type 0 where
  at_init : Reaches code init
  after : (m n : Memory) → Reaches code m → Does code m n → Reaches code n

-- Every memory that guest reads and writes, `Map`, `Unmap`, `Protect`, `HostWrite`, `DropCode` and
-- registrations of hooks reach from `init`, in any order and whether they succeed or not, has
-- coherent caches, provided that the code of the hooks keeps them coherent, that addresses and
-- sizes are of 64 bits and that `HostWrite` is given bytes.
pub Reaches-IsCoherent :
    (code : HookCode) (m : Memory) → IsLawful code → Reaches code m → IsCoherent m
Reaches-IsCoherent code _ law at_init = init-IsCoherent
Reaches-IsCoherent code _ law (after m n r d) =
    Does-IsCoherent code m n law d (Reaches-IsCoherent code m law r)
