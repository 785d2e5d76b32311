-- ===== src/AddressSpace/Unmap.antt =====
-- `UnmapLocked` of app/src/main/cpp/skyline/common/address_space.inc, over the cursors of the parent.
pub mod Correct
pub mod Defects
use skyline.Base.{
  ℕ, ◌-◌, Bool, true, false, ◌&&◌, List, [], ◌∷◌, ◌++◌, Option, none, some, ltb, leb, ◌==◌,
  if◌then◌else◌, Result, ok, err, past_limit, before_start, unsorted, fault, contiguous_unmapped,
}
use skyline.AddressSpace.{
  Block, Config, block, unmapped, mapped, add_ptr, add_va, rezip, walk_back, lower_bound, notify,
  Outcome,
}

-- `eraseBlocksWithEndUnmapped`: `ue` is the unmapped end, after `left` and before `rest`.
unfoldable pub erase_after_walk :
    ℕ → Block → List Block → List Block × List Block → Result (List Block)
unfolding rezip
erase_after_walk virt ue rest ([], mid) = err fault
erase_after_walk virt ue [] (sp ∷ left, mid) =
    if unmapped sp then ok (rezip (sp ∷ left) []) else elim mid [
      | [] ↦ err contiguous_unmapped
      | _ ↦ ok (rezip (sp ∷ left) (record ue { virt = virt } ∷ []))
    ]
erase_after_walk virt ue (b ∷ rest) (sp ∷ left, mid) =
    if unmapped sp
    then (if unmapped b then err contiguous_unmapped else ok (rezip (sp ∷ left) (b ∷ rest)))
    else elim mid [
      | [] ↦ err contiguous_unmapped
      | _ ↦ ok (rezip (sp ∷ left) (record ue { virt = virt } ∷ b ∷ rest))
    ]

unfoldable pub erase_to_unmapped : ℕ → List Block → Block → List Block → Result (List Block)
unfolding erase_after_walk walk_back rezip
erase_to_unmapped virt left ue rest =
    if ltb ue.virt virt
    then elim rest [ [] ↦ ok (rezip left (ue ∷ [])) | _ ↦ err contiguous_unmapped ]
    else elim (walk_back virt left []) [
      | none ↦ err fault
      | some w ↦ erase_after_walk virt ue rest w
    ]

-- The last block of a list that is not empty.
unfoldable pub last : Block → List Block → Block
last b [] = b
last b (c ∷ bs) = last c bs

-- The end of `UnmapLocked`, from the start predecessor `sp` on.
unfoldable pub cut : ℕ → ℕ → List Block × List Block → Block → List Block → Result (List Block)
unfolding rezip last
cut virt virt_end ([], mid) es right = err fault
cut virt virt_end (sp ∷ left, []) es right =
    if ltb virt_end es.virt
    then err unsorted
    else if es.virt == virt_end
    then (if mapped sp
        then ok (rezip (sp ∷ left) (block virt 0 false ∷ es ∷ right))
        else ok (rezip (sp ∷ left) (es ∷ right)))
    else err fault
cut virt virt_end (sp ∷ left, m ∷ mid) es right =
    if ltb virt_end m.virt
    then err unsorted
    else if m.virt == virt_end
    then (if mapped sp
        then ok (rezip (sp ∷ left) (block virt 0 false ∷ m ∷ mid ++ es ∷ right))
        else ok (rezip (sp ∷ left) (m ∷ mid ++ es ∷ right)))
    else if unmapped sp
    then ok (rezip (sp ∷ left) (last m mid ∷ es ∷ right))
    else ok (rezip (sp ∷ left) (record m { virt = virt; phys = 0 } ∷ es ∷ right))

unfoldable pub cut_back : ℕ → ℕ → List Block → Block → List Block → Result (List Block)
unfolding cut walk_back
cut_back virt virt_end left es right =
    if ltb es.virt virt
    then elim right [ [] ↦ err fault | _ ↦ err unsorted ]
    else elim (walk_back virt left []) [ none ↦ err fault | some w ↦ cut virt virt_end w es right ]

-- `tailPhys` of `UnmapLocked`; the block is mapped there.
unfoldable pub unmap_tail_phys : Config → Block → ℕ → ℕ
unmap_tail_phys c b virt_end =
    if c.pa_contig_split then add_ptr b.phys (virt_end - b.virt) else b.phys

unfoldable pub unmap_at : Config → ℕ → ℕ → List Block → List Block → Result (List Block)
unfolding cut_back erase_to_unmapped unmap_tail_phys rezip
unmap_at c virt virt_end [] right = err before_start
unmap_at c virt virt_end (ep ∷ left) [] =
    if unmapped ep
    then (if ltb virt ep.virt then erase_to_unmapped virt left ep [] else ok (rezip (ep ∷ left) []))
    else err fault
unmap_at c virt virt_end (ep ∷ left) (es ∷ right) =
    if unmapped ep
    then (if ltb virt ep.virt
        then erase_to_unmapped virt left ep (es ∷ right)
        else ok (rezip (ep ∷ left) (es ∷ right)))
    else if es.virt == virt_end && unmapped es
    then erase_to_unmapped virt (ep ∷ left) es right
    else if es.virt == virt_end
    then cut_back virt virt_end (ep ∷ left) es right
    else if leb virt ep.virt
    then cut_back virt virt_end left
        (record ep { virt = virt_end; phys = unmap_tail_phys c ep virt_end }) (es ∷ right)
    else ok (
        rezip (ep ∷ left) (
          block virt 0 false
          ∷ block virt_end (unmap_tail_phys c ep virt_end) ep.sparse_mapped
          ∷ es
          ∷ right))

unfoldable pub unmap_locked : Config → List Block → ℕ → ℕ → Result Outcome
unfolding unmap_at lower_bound
unmap_locked c bs virt size =
    let virt_end = add_va c virt size in
    let (left, right) = lower_bound virt_end bs in
    if ltb c.va_limit virt_end
    then err past_limit
    else notify virt size (unmap_at c virt virt_end left right)
