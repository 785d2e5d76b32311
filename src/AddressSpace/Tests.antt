-- ===== src/AddressSpace/Tests.antt =====
-- The block vector of common/address_space.inc at fixed inputs.
use skyline.Base.{
  ℕ, ◌+◌, ◌&&◌, none, leb, ltb, if◌then◌else◌, arith, ◌≡◌, refl, true, false, List, [], ◌∷◌, ok,
  err, ◌^◌, contiguous_unmapped,
}
use skyline.AddressSpace.{Block, Config, block, map_locked}
use skyline.AddressSpace.View.{WellFormed, translate, phys_at, resolve}
use skyline.AddressSpace.Map.{map_locked_lem}
use skyline.AddressSpace.Unmap.Correct.{unmap_locked_lem}
use skyline.AddressSpace.Unmap.Defects.{unmap_locked-unchanged, unmap_locked-throws}
use skyline.AddressSpace.Unmap.{unmap_locked}

abbrev cfg : Config
cfg = record { va_mod = 2 ^ 64; va_limit = 2 ^ 40; pa_contig_split = true }

abbrev init : List Block
init = block 0 0 false ∷ []

abbrev two : List Block
two = block 0 0 false ∷ block 0x1000 7 false ∷ block 0x2000 9 false ∷ block 0x3000 0 false ∷ []

map_first :
    map_locked cfg init 0x1000 7 0x1000 false
    ≡ ok (block 0 0 false ∷ block 0x1000 7 false ∷ block 0x2000 0 false ∷ [], (0x1000, 0x1000) ∷ [])
unfolding map_locked
map_first = refl

unmap_first : unmap_locked cfg two 0x1000 0x1000 ≡ ok (two, (0x1000, 0x1000) ∷ [])
unfolding unmap_locked
unmap_first = refl

unmap_tail : unmap_locked cfg two 0x2800 0x800 ≡ err contiguous_unmapped
unfolding unmap_locked
unmap_tail = refl

two-WellFormed : WellFormed cfg two
two-WellFormed = ground arith

map_locked_lem_example :
    (after : List Block) × (map_locked cfg two 0x1800 5 0x1000 false
      ≡ ok (after, (0x1800, 0x1000) ∷ []))
    × WellFormed cfg after
    × ((va : ℕ)
        → translate cfg after va ≡ (
            if leb 0x1800 va && ltb va (0x1800 + 0x1000)
            then phys_at cfg va (block 0x1800 5 false)
            else translate cfg two va))
map_locked_lem_example =
    map_locked_lem cfg two 0x1800 5 0x1000 false (omega arith, omega arith) two-WellFormed
      (omega arith) (omega arith) (omega arith) (omega arith)

unmap_locked_lem_example :
    (after : List Block) × (unmap_locked cfg two 0x1800 0x1000 ≡ ok (after, (0x1800, 0x1000) ∷ []))
    × WellFormed cfg after
    × ((va : ℕ)
        → translate cfg after va
          ≡ (if leb 0x1800 va && ltb va (0x1800 + 0x1000) then none else translate cfg two va))
unfolding translate resolve
unmap_locked_lem_example =
    unmap_locked_lem cfg two 0x1800 0x1000 (omega arith, omega arith) two-WellFormed (omega arith)
      (omega arith) (omega arith) (λ e. cc) (λ e. cc) (λ e. cc)

unmap_locked-unchanged_example :
    unmap_locked cfg two 0x1000 0x1000 ≡ ok (two, (0x1000, 0x1000) ∷ [])
unmap_locked-unchanged_example =
    unmap_locked-unchanged cfg (block 0 0 false) (block 0x1000 7 false) (block 0x2000 9 false)
      (block 0x3000 0 false ∷ []) 0x1000 (omega arith, omega arith) two-WellFormed (omega arith)
      (omega arith) (omega arith)

abbrev one : List Block
one = block 0 0 false ∷ block 0x400 9 false ∷ block 0x1000 7 false ∷ block 0x2000 0 false ∷ []

unmap_locked-throws_example : unmap_locked cfg one 0x1800 0x800 ≡ err contiguous_unmapped
unmap_locked-throws_example =
    unmap_locked-throws cfg (block 0 0 false) (block 0x400 9 false ∷ []) (block 0x1000 7 false)
      (block 0x2000 0 false) [] 0x1800 0x800 (omega arith, omega arith) (ground arith) (omega arith)
      (omega arith) (omega arith) (omega arith) (omega arith)
