-- ===== src/Packed/Groups/Count.antt =====
-- The results of `decodeAPS2` of internal/loader/packed.go.
use gonidbg.Base.{
  ℕ, zero, suc, ◌+◌, ◌-◌, ◌^◌, ◌≤◌, ◌<◌, ◌≡◌, ◌≢◌, refl, ap, ◌∙◌, arith, Bool, true, false, ltb,
  leb, ◌==◌, not, ◌&&◌, ◌||◌, if◌then◌else◌, List, length, length-append, Bool-cases, inl, inr,
}
use gonidbg.Packed.{Reloc, Out, ok, err, and_then, Implicit, out_of_fuel, bad_magic}
use gonidbg.Packed.Sleb.{Sleb, next, next-fuel}
use gonidbg.Packed.Groups.{
  State, one_entry, entries, group_body, one_group, groups, decode_stream, decode_aps2,
  max_packed_relocs, by_info, by_offset, by_addend, has_addend, take,
}

-- Whether a result is one that a property admits; the end of the fuel is none.
abbrev pub Returns {ℓ} : {A : Type ℓ} → (A → Type 0) → Out A → Type 0
Returns P (ok a) = P a
Returns P (err e) = e ≢ out_of_fuel

then-Returns {ℓ κ} :
    {A : Type ℓ} {B : Type κ} (P : A → Type 0) (Q : B → Type 0) (o : Out A) (f : A → Out B)
    → Returns P o
    → ((a : A) → P a → Returns Q (f a))
    → Returns Q (and_then o f)
then-Returns P Q (ok a) f h g = g a h
then-Returns P Q (err e) f h g = h

of_next : (o : Out (ℕ × Sleb)) → o ≢ err out_of_fuel → Returns (λ p. Unit {0}) o
of_next (ok p) h = tt
of_next (err e) h = λ same. h (ap err same)

next-Returns : (s : Sleb) → Returns (λ p. Unit {0}) (next s)
next-Returns s = of_next (next s) (next-fuel s)

read-Returns :
    (carried : Bool) (d : ℕ) (s : Sleb)
    → Returns (λ p. Unit {0}) (if carried then next s else ok (d, s))
read-Returns true d s = next-Returns s
read-Returns false d s = tt

-- `k` more relocations.
abbrev Grown : ℕ → State → State → Type 0
Grown k st after = length after.out ≡ length st.out + k

one_entry-Returns :
    (implicit : Implicit) (flags delta info : ℕ) (st : State)
    → Returns (Grown 1 st) (one_entry implicit flags delta info st)
unfolding one_entry
one_entry-Returns implicit flags delta info st =
    then-Returns (λ p. Unit {0}) (Grown 1 st) _ _ (read-Returns (not (by_offset flags)) delta st.s)
      (λ (d, s) u.
        then-Returns (λ p. Unit {0}) (Grown 1 st) _ _ (read-Returns (not (by_info flags)) info s)
          (λ (i, s) u.
            then-Returns (λ p. Unit {0}) (Grown 1 st) _ _
              (read-Returns (has_addend flags && not (by_addend flags)) 0 s)
              (λ (more, s) u. length-append st.out _)))

weaken {ℓ} :
    {A : Type ℓ} (P Q : A → Type 0)
    → ((a : A) → P a → Q a)
    → (o : Out A) → Returns P o
    → Returns Q o
weaken P Q h (ok a) r = h a r
weaken P Q h (err e) r = r

entries-Returns :
    (n : ℕ) (implicit : Implicit) (flags delta info : ℕ) (st : State)
    → Returns (Grown n st) (entries n implicit flags delta info st)
unfolding entries
entries-Returns zero implicit flags delta info st = omega arith
entries-Returns (suc n) implicit flags delta info st =
    then-Returns (Grown 1 st) (Grown (suc n) st) _ _
      (one_entry-Returns implicit flags delta info st)
      (λ after grown.
        weaken _ _ (λ last more. omega arith) (entries n implicit flags delta info after)
          (entries-Returns n implicit flags delta info after))

group_body-Returns :
    (implicit : Implicit) (size : ℕ) (st : State)
    → Returns (Grown size st) (group_body implicit size st)
unfolding group_body
group_body-Returns implicit size st =
    then-Returns (λ p. Unit {0}) (Grown size st) _ _ (next-Returns st.s)
      (λ (flags, s) u.
        then-Returns (λ p. Unit {0}) (Grown size st) _ _ (read-Returns (by_offset flags) 0 s)
          (λ (delta, s) u.
            then-Returns (λ p. Unit {0}) (Grown size st) _ _ (read-Returns (by_info flags) 0 s)
              (λ (info, s) u.
                then-Returns (λ p. Unit {0}) (Grown size st) _ _
                  (read-Returns (has_addend flags && by_addend flags) 0 s)
                  (λ (d, s) u. entries-Returns size implicit flags delta info _))))

-- A round of the outer loop adds a relocation and does not pass the declared count.
abbrev Within : ℕ → State → State → Type 0
Within total st after = (length st.out < length after.out) × (length after.out ≤ total)

one_group-Returns :
    (implicit : Implicit) (total : ℕ) (st : State)
    → length st.out ≤ total
    → Returns (Within total st) (one_group implicit total st)
unfolding one_group
one_group-Returns implicit total st h =
    then-Returns (λ p. Unit {0}) (Within total st) _ _ (next-Returns st.s)
      (λ (size, s) u.
        elim (Bool-cases ((size == 0) || leb (2 ^ 63) size || ltb (total - length st.out) size)) [
          | inl bad ↦ rw bad (λ e. cc)
          | inr good ↦ rw good (
              weaken _ _ (λ after grown. ground (arith, good))
                (group_body implicit size (record st { s = s }))
                (group_body-Returns implicit size (record st { s = s })))
        ])

groups-Returns :
    (fuel : ℕ) (implicit : Implicit) (total : ℕ) (st : State)
    → length st.out ≤ total
    → total ≤ length st.out + fuel
    → Returns (λ after. length after.out ≡ total) (groups fuel implicit total st)
unfolding groups
groups-Returns zero implicit total st h room =
    let full : ltb (length st.out) total ≡ false = ground arith in rw full (omega arith)
groups-Returns (suc fuel) implicit total st h room = elim (Bool-cases (ltb (length st.out) total)) [
  | inl more ↦ rw more (
      then-Returns (Within total st) (λ after. length after.out ≡ total) _ _
        (one_group-Returns implicit total st h)
        (λ after (grown, bounded). groups-Returns fuel implicit total after bounded (omega arith)))
  | inr done ↦ rw done (ground (arith, done))
]

-- The count that a stream declares: `rs` has that many relocations, and it is at most 2^24.
abbrev pub Declared : Sleb → List Reloc → Type 0
Declared s rs = (p : ℕ × Sleb) × (next s ≡ ok p) × (length rs ≡ p.0) × (p.0 ≤ max_packed_relocs)

next-is : (s : Sleb) → Returns (λ p. next s ≡ ok p) (next s)
next-is s = go (next s) refl
  where
    go : (o : Out (ℕ × Sleb)) → next s ≡ o → Returns (λ p. next s ≡ ok p) o
    go (ok p) e = e
    go (err x) e = λ same. next-fuel s (e ∙ ap err same)

decode_stream-Returns :
    (implicit : Implicit) (s : Sleb) → Returns (Declared s) (decode_stream implicit s)
unfolding decode_stream
decode_stream-Returns implicit s =
    then-Returns (λ p. next s ≡ ok p) (Declared s) _ _ (next-is s)
      (λ (total, t) here. elim (Bool-cases (leb (2 ^ 63) total || ltb max_packed_relocs total)) [
        | inl bad ↦ rw bad (λ e. cc)
        | inr good ↦ rw good (
            then-Returns (λ p. Unit {0}) (Declared s) _ _ (next-Returns t)
              (λ (offset, r) u.
                then-Returns (λ st. length st.out ≡ total) (Declared s) _ _
                  (groups-Returns total implicit total _ (omega arith) (omega arith))
                  (λ st count. ((total, t), here, count, ground (arith, good)))))
      ])

if-Returns {ℓ} :
    {A : Type ℓ} (P : A → Type 0) (b : Bool) (x y : Out A)
    → Returns P x
    → Returns P y
    → Returns P (if b then x else y)
if-Returns P true x y h g = h
if-Returns P false x y h g = g

-- For any bytes, `decodeAPS2` either returns exactly as many relocations as the number after the
-- magic declares, which is then at most 2^24, or one of its errors; its loops end within the fuel.
pub decode_aps2-Declared :
    (bytes : List ℕ) (implicit : Implicit)
    → Returns (Declared (record { b = bytes; pos = 4 })) (decode_aps2 bytes implicit)
unfolding decode_aps2 decode_stream
decode_aps2-Declared bytes implicit =
    if-Returns (Declared (record { b = bytes; pos = 4 })) _ _ (err (bad_magic (take 4 bytes)))
      (decode_stream-Returns implicit (record { b = bytes; pos = 4 })) (λ e. cc)
