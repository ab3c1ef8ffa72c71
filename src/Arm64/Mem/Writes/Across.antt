-- ===== src/Arm64/Mem/Writes/Across.antt =====
-- A write across pages of internal/arm64/mem.go, byte by byte.
use gonidbg.Base.{
  ℕ, zero, suc, ◌+◌, ◌-◌, ◌*◌, ◌/◌, ◌^◌, ◌≤◌, ◌<◌, ◌≡◌, refl, arith, Bool, true, false, ◌&&◌, ◌==◌,
  field, shr, add64, sub64, u8, Option, none, some, Bool-cases, inl, inr, ==→eq, ap, ◌∙◌,
}
use gonidbg.Arm64.Mem.{Memory, Page}
use gonidbg.Arm64.Mem.Table.{lookup}
use gonidbg.Arm64.Mem.Guest.{write_across, put_found}
use gonidbg.Arm64.Mem.Coherent.{IsCoherent}
use gonidbg.Arm64.Mem.Coherent.Put.{byte_put, put-IsCoherent, prot-put, byte-put}
use gonidbg.Arm64.Mem.Coherent.Writable.{hooks-writable}
use gonidbg.Arm64.Mem.View.{byte_at, prot_of}
use gonidbg.Arm64.Mem.Writes.{written}

-- What the loop of a write across pages keeps, and what it writes.
pub record IsAcross (m : Memory) (a v k n : ℕ) (r : Memory) : Type 0 where
  pub across_coherent : IsCoherent r
  pub across_hooks : (r.rhooks ≡ m.rhooks) × (r.whooks ≡ m.whooks) × (r.invalid ≡ m.invalid)
  pub across_prots : (w : ℕ) → prot_of (lookup r w) ≡ prot_of (lookup m w)
  pub across_bytes : (x : ℕ) → x < 2 ^ 64 → byte_at r x ≡ written (byte_at m) a v k n x

-- Whether a page is mapped, as the permissions tell.
abbrev pub present : Option ℕ → Bool
present none = false
present (some p) = true

-- One byte in its page is one byte of the write.
put-written :
    (f : ℕ → ℕ) (a v k x : ℕ)
    → a < 2 ^ 64
    → x < 2 ^ 64
    → k < 8
    → byte_put f (shr (add64 a k) 12) (field (add64 a k) 0 12) 1 (u8 (v / 2 ^ (8 * k))) x
      ≡ written f a v k 1 x
put-written f a v k x ha hx hk = elim (Bool-cases (x == add64 a k)) [
  | inl e ↦
      let at : x ≡ add64 a k = ==→eq x (add64 a k) e in
      let distance : sub64 x a ≡ k = omega (arith, at) in
      let start : field x 0 12 - field (add64 a k) 0 12 ≡ 0 = omega (arith, at) in
      ground (arith, at, distance, start)
  | inr e ↦
      let apart : (sub64 x a == k) ≡ false = ground (arith, e) in
      let elsewhere : ((shr x 12 == shr (add64 a k) 12) && (field x 0 12 == field (add64 a k) 0 12))
          ≡ false =
        ground (arith, e) in
      ground (arith, apart, elsewhere)
]

one_byte-IsAcross :
    (m : Memory) (a v k : ℕ) (o : Option Page)
    → IsCoherent m
    → a < 2 ^ 64
    → k < 8
    → lookup m (shr (add64 a k) 12) ≡ o
    → present (prot_of o) ≡ true
    → IsAcross m a v k 1 (put_found o (add64 a k) (u8 (v / 2 ^ (8 * k))) m)
one_byte-IsAcross m a v k none co ha hk e there = ground (arith, there)
one_byte-IsAcross m a v k (some p) co ha hk e there =
    let at = add64 a k in
    let byte = u8 (v / 2 ^ (8 * k)) in
    record {
      across_coherent = put-IsCoherent m co (shr at 12) p e (field at 0 12) 1 byte;
      across_hooks = hooks-writable m co (shr at 12) p e;
      across_prots = λ w. prot-put m co (shr at 12) p e (field at 0 12) 1 byte w;
      across_bytes = λ x hx.
          byte-put m co (shr at 12) p e (field at 0 12) 1 byte x
          ∙ put-written (byte_at m) a v k x ha hx hk;
    }

IsAcross-IsAcross :
    (m n r : Memory) (a v k j : ℕ)
    → a < 2 ^ 64
    → IsAcross m a v k 1 n
    → IsAcross n a v (k + 1) j r
    → IsAcross m a v k (suc j) r
IsAcross-IsAcross m n r a v k j ha h g = record {
  across_coherent = g.across_coherent;
  across_hooks = (
    g.across_hooks.0 ∙ h.across_hooks.0,
    g.across_hooks.1 ∙ h.across_hooks.1,
    g.across_hooks.2 ∙ h.across_hooks.2,
  );
  across_prots = λ w. g.across_prots w ∙ h.across_prots w;
  across_bytes = λ x hx. ground (arith, g.across_bytes x hx, h.across_bytes x hx);
}

pub write_across-IsAcross :
    (n : ℕ) (m : Memory) (a v k : ℕ)
    → IsCoherent m
    → a < 2 ^ 64
    → k + n ≤ 8
    → ((i : ℕ) → i < 8 → present (prot_of (lookup m (shr (add64 a i) 12))) ≡ true)
    → IsAcross m a v k n (write_across a v n k m)
unfolding write_across
write_across-IsAcross zero m a v k co ha hk there = record {
  across_coherent = co;
  across_hooks = (refl, refl, refl);
  across_prots = λ w. refl;
  across_bytes = λ x hx. ground arith;
}
write_across-IsAcross (suc n) m a v k co ha hk there =
    let one =
      one_byte-IsAcross m a v k (lookup m (shr (add64 a k) 12)) co ha (omega arith) refl
        (there k (omega arith)) in
    IsAcross-IsAcross m _ _ a v k n ha one (
      write_across-IsAcross n _ a v (k + 1) one.across_coherent ha (omega arith)
        (λ i hi. ap present (one.across_prots (shr (add64 a i) 12)) ∙ there i hi))
