-- ===== src/AddressSpace.antt =====
-- FlatAddressSpaceMap of app/src/main/cpp/skyline/common/address_space.h and address_space.inc.
-- The vector of blocks is a list; an iterator into it is a cursor, the blocks before it (nearest
-- first) and the blocks from it on. `std::lower_bound` is the first block that is not below.
-- An access outside the vector is `fault`. ExtraBlockInfo is the flag `sparse_mapped`.
pub mod View
pub mod Cursor
pub mod Written
pub mod Overwrite
pub mod Map
pub mod Unmap
mod Tests
use skyline.Base.{
  ℕ, ◌+◌, ◌-◌, ◌%◌, ◌^◌, Bool, true, false, not, ◌&&◌, List, [], ◌∷◌, ◌++◌, Option, none, some, ltb,
  leb, ◌==◌, if◌then◌else◌, Result, ok, err, Error, past_limit, before_start, unsorted, fault,
}

-- `phys` is a host pointer, 0 for `UnmappedPa`.
pub record Block : Type 0 where
  pub virt : ℕ
  pub phys : ℕ
  pub sparse_mapped : Bool

-- The template's parameters and the limit: VaType holds numbers below `va_mod`.
pub record Config : Type 0 where
  pub va_mod : ℕ
  pub va_limit : ℕ
  pub pa_contig_split : Bool

abbrev pub block : ℕ → ℕ → Bool → Block
block v p i = record { virt = v; phys = p; sparse_mapped = i }

abbrev pub unmapped : Block → Bool
unmapped b = b.phys == 0

abbrev pub mapped : Block → Bool
mapped b = not (unmapped b)

-- Host pointers are 64 bits wide.
abbrev pub add_ptr : ℕ → ℕ → ℕ
add_ptr p n = (p + n) % 2 ^ 64

abbrev pub add_va : Config → ℕ → ℕ → ℕ
add_va c v n = (v + n) % c.va_mod

-- The vector that a cursor stands in.
unfoldable pub rezip : List Block → List Block → List Block
rezip [] right = right
rezip (b ∷ left) right = rezip left (b ∷ right)

-- Moves on while the blocks lie below `va`.
unfoldable pub seek : ℕ → List Block → List Block → List Block × List Block
seek va left [] = (left, [])
seek va left (b ∷ right) =
    let rest = seek va (b ∷ left) right in if ltb b.virt va then rest else (left, b ∷ right)

unfoldable pub lower_bound : ℕ → List Block → List Block × List Block
unfolding seek
lower_bound va bs = seek va [] bs

-- `while (std::prev(it)->virt >= virt) it--;`, with the blocks that were passed.
unfoldable pub walk_back : ℕ → List Block → List Block → Option (List Block × List Block)
walk_back virt [] passed = none
walk_back virt (b ∷ left) passed =
    let rest = walk_back virt left (b ∷ passed) in
    if leb virt b.virt then rest else some (b ∷ left, passed)

-- The new vector, and the calls of `unmapCallback`.
abbrev pub Outcome : Type 0
Outcome = List Block × List (ℕ × ℕ)

-- The end of `MapLocked`, from the start successor on; `mid` are the blocks up to the end successor.
unfoldable pub place : Block → ℕ → List Block → List Block → List Block → Result (List Block)
unfolding rezip
place new virt_end left [] [] = err fault
place new virt_end left [] (es ∷ right) =
    if ltb virt_end es.virt
    then err unsorted
    else if es.virt == virt_end
    then ok (rezip left (new ∷ es ∷ right))
    else err fault
place new virt_end left (m ∷ mid) right =
    if ltb virt_end m.virt
    then err unsorted
    else if m.virt == virt_end
    then ok (rezip left (new ∷ m ∷ mid ++ right))
    else ok (rezip left (new ∷ right))

unfoldable pub overwrite : Block → ℕ → List Block → List Block → Result (List Block)
unfolding walk_back place
overwrite new virt_end left right = elim (walk_back new.virt left []) [
  | none ↦ err fault
  | some (start, mid) ↦ place new virt_end start mid right
]

-- `tailPhys` of `MapLocked`.
unfoldable pub tail_phys : Config → Block → ℕ → ℕ
tail_phys c b virt_end =
    if c.pa_contig_split && mapped b then add_ptr b.phys (virt_end - b.virt) else b.phys

-- From the end successor on.
unfoldable pub map_at : Config → Block → ℕ → List Block → List Block → Result (List Block)
unfolding overwrite tail_phys rezip
map_at c new virt_end [] right = err before_start
map_at c new virt_end (ep ∷ []) [] = ok (rezip (ep ∷ []) (new ∷ block virt_end 0 false ∷ []))
map_at c new virt_end (ep ∷ b ∷ left) [] =
    if leb new.virt ep.virt
    then overwrite new virt_end (b ∷ left) (record ep { virt = virt_end } ∷ [])
    else ok (rezip (ep ∷ b ∷ left) (new ∷ block virt_end 0 false ∷ []))
map_at c new virt_end (ep ∷ left) (es ∷ right) =
    if es.virt == virt_end
    then overwrite new virt_end (ep ∷ left) (es ∷ right)
    else if leb new.virt ep.virt
    then overwrite new virt_end left
        (record ep { virt = virt_end; phys = tail_phys c ep virt_end } ∷ es ∷ right)
    else ok (
        rezip (ep ∷ left)
          (new ∷ block virt_end (tail_phys c ep virt_end) ep.sparse_mapped ∷ es ∷ right))

-- `unmapCallback(virt, size)` on every path that returns.
abbrev notify : ℕ → ℕ → Result (List Block) → Result Outcome
notify virt size (ok bs) = ok (bs, (virt, size) ∷ [])
notify virt size (err e) = err e

unfoldable pub map_locked : Config → List Block → ℕ → ℕ → ℕ → Bool → Result Outcome
unfolding map_at lower_bound
map_locked c bs virt phys size info =
    let virt_end = add_va c virt size in
    let (left, right) = lower_bound virt_end bs in
    if ltb c.va_limit virt_end
    then err past_limit
    else notify virt size (map_at c (block virt phys info) virt_end left right)
