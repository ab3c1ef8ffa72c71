-- ===== src/Packed/Tests.antt =====
-- Runs of internal/loader/packed.go on short sections.
use gonidbg.Base.{ℕ, ◌≡◌, refl, arith, List, [], ◌∷◌, none}
use gonidbg.Packed.{ok}
use gonidbg.Packed.Sleb.{next}
use gonidbg.Packed.Groups.{decode_aps2, decode_stream, one_group, group_body, one_entry}
use gonidbg.Packed.Groups.Count.{Returns, Declared, decode_aps2-Declared}
use gonidbg.Packed.Relr.{
  bitmap_loop, selected, bitmap_loop-selected, decode_relr, words64, relative,
}

-- Two relocations of one kind, 8 bytes apart, in one group.
abbrev section : List ℕ
section = b'A' ∷ b'P' ∷ b'S' ∷ b'2' ∷ 2 ∷ 16 ∷ 2 ∷ 3 ∷ 8 ∷ 0x83 ∷ 8 ∷ []

section_decodes :
    decode_aps2 section none
    ≡ ok (
        record { offset = 24; kind = relative; sym = 0; addend = 0 }
        ∷ record { offset = 32; kind = relative; sym = 0; addend = 0 }
        ∷ [])
unfolding decode_aps2 decode_stream one_group group_body one_entry next
section_decodes = refl

decode_aps2-Declared_example :
    Returns (Declared (record { b = section; pos = 4 })) (decode_aps2 section none)
decode_aps2-Declared_example = decode_aps2-Declared section none

-- An address, then a bitmap for its first and third followers.
relr_decodes :
    decode_relr (0 ∷ 16 ∷ 0 ∷ 0 ∷ 0 ∷ 0 ∷ 0 ∷ 0 ∷ 11 ∷ 0 ∷ 0 ∷ 0 ∷ 0 ∷ 0 ∷ 0 ∷ 0 ∷ []) none
    ≡ record { offset = 4096; kind = relative; sym = 0; addend = 0 }
      ∷ record { offset = 4104; kind = relative; sym = 0; addend = 0 }
      ∷ record { offset = 4120; kind = relative; sym = 0; addend = 0 }
      ∷ []
unfolding decode_relr words64
relr_decodes = refl

bitmap_loop-selected_example : bitmap_loop 63 5 0x1000 ≡ selected 3 0 5 0x1000
bitmap_loop-selected_example =
    bitmap_loop-selected 3 63 5 0x1000 (omega arith) (omega arith) (omega arith)
