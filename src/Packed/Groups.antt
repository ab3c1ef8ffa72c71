-- ===== src/Packed/Groups.antt =====
-- `decodeAPS2` of internal/loader/packed.go.
pub mod Count
use gonidbg.Base.{
  ℕ, zero, suc, ◌+◌, ◌-◌, ◌*◌, ◌/◌, ◌%◌, ◌^◌, Bool, true, false, ltb, leb, ◌==◌, ◌&&◌, ◌||◌, not,
  if◌then◌else◌, add64, u32, shr, field, List, [], ◌∷◌, ◌++◌, length, Option, none, some,
}
use gonidbg.Packed.{
  Reloc, Out, ok, err, and_then, bad_magic, implausible_count, bad_group_size, out_of_fuel,
  Implicit,
}
use gonidbg.Packed.Sleb.{Sleb, next}

-- The flags of a group.
abbrev pub by_info : ℕ → Bool
by_info flags = field flags 0 1 == 1

abbrev pub by_offset : ℕ → Bool
by_offset flags = field flags 1 1 == 1

abbrev pub by_addend : ℕ → Bool
by_addend flags = field flags 2 1 == 1

abbrev pub has_addend : ℕ → Bool
has_addend flags = field flags 3 1 == 1

abbrev pub max_packed_relocs : ℕ
max_packed_relocs = 2 ^ 24

-- The variables of the two loops.
pub record State : Type 0 where
  pub s : Sleb
  pub offset : ℕ
  pub addend : ℕ
  pub out : List Reloc

-- A number of the stream where the group carries one, and `d` where not.
abbrev read_if : Bool → ℕ → Sleb → Out (ℕ × Sleb)
read_if carried d s = if carried then next s else ok (d, s)

abbrev pub implicit_at : Implicit → ℕ → ℕ
implicit_at none at = 0
implicit_at (some f) at = f at

-- One round of the inner loop.
unfoldable pub one_entry : Implicit → ℕ → ℕ → ℕ → State → Out State
one_entry implicit flags delta group_info st =
    and_then (read_if (not (by_offset flags)) delta st.s) (λ (d, s).
      let offset = add64 st.offset d in
      and_then (read_if (not (by_info flags)) group_info s) (λ (info, s).
        and_then (read_if (has_addend flags && not (by_addend flags)) 0 s) (λ (more, s).
          let addend = add64 st.addend more in
          ok (record {
            s = s;
            offset = offset;
            addend = addend;
            out =
                st.out
                ++ record {
                  offset = offset;
                  kind = u32 info;
                  sym = shr info 32;
                  addend = if has_addend flags then addend else implicit_at implicit offset;
                }
                  ∷ [];
          }))))

pub entries : ℕ → Implicit → ℕ → ℕ → ℕ → State → Out State
entries zero implicit flags delta group_info st = ok st
entries (suc n) implicit flags delta group_info st =
    and_then (one_entry implicit flags delta group_info st)
      (entries n implicit flags delta group_info)

-- What the outer loop reads of a group after its size, and the inner loop.
unfoldable pub group_body : Implicit → ℕ → State → Out State
unfolding entries
group_body implicit size st = and_then (next st.s) (λ (flags, s).
    and_then (read_if (by_offset flags) 0 s) (λ (delta, s).
      and_then (read_if (by_info flags) 0 s) (λ (group_info, s).
        and_then (read_if (has_addend flags && by_addend flags) 0 s) (λ (d, s).
          entries size implicit flags delta group_info
            (record st { s = s; addend = if has_addend flags then add64 st.addend d else 0 })))))

-- One round of the outer loop. Sizes from 2^63 up are negative.
unfoldable pub one_group : Implicit → ℕ → State → Out State
one_group implicit total st = and_then (next st.s) (λ (size, s).
    if (size == 0) || leb (2 ^ 63) size || ltb (total - length st.out) size
    then err (bad_group_size size)
    else group_body implicit size (record st { s = s }))

pub groups : ℕ → Implicit → ℕ → State → Out State
groups zero implicit total st = if ltb (length st.out) total then err out_of_fuel else ok st
groups (suc fuel) implicit total st =
    let rest = and_then (one_group implicit total st) (groups fuel implicit total) in
    if ltb (length st.out) total then rest else ok st

-- What follows the magic. Every group has an entry, so `total` rounds are enough.
unfoldable pub decode_stream : Implicit → Sleb → Out (List Reloc)
unfolding groups
decode_stream implicit s = and_then (next s) (λ (total, s).
    if leb (2 ^ 63) total || ltb max_packed_relocs total
    then err (implausible_count total)
    else and_then (next s) (λ (offset, s).
      and_then
        (groups total implicit total (record { s = s; offset = offset; addend = 0; out = [] }))
        (λ st. ok st.out)))

abbrev pub take : ℕ → List ℕ → List ℕ
take zero xs = []
take (suc n) [] = []
take (suc n) (x ∷ xs) = x ∷ take n xs

abbrev equal : List ℕ → List ℕ → Bool
equal [] [] = true
equal [] (y ∷ ys) = false
equal (x ∷ xs) [] = false
equal (x ∷ xs) (y ∷ ys) = (x == y) && equal xs ys

-- The first four bytes are to be "APS2".
unfoldable pub decode_aps2 : List ℕ → Implicit → Out (List Reloc)
unfolding decode_stream
decode_aps2 bytes implicit =
    let magic = take 4 bytes in
    if equal magic (0x41 ∷ 0x50 ∷ 0x53 ∷ 0x32 ∷ [])
    then decode_stream implicit (record { b = bytes; pos = 4 })
    else err (bad_magic magic)
