-- ===== src/Nvmap/Tests.antt =====
-- Three nvmap handles of nvmap.cpp at fixed inputs, on an SMMU that has no space left.
use skyline.Base.{◌≢◌, not, ℕ, ◌≡◌, refl, true, false, [], ◌∷◌, none, some, ok}
use skyline.Nvmap.{
  Handle, Smmu, handle, member, find, erase, update, get_handle, pin_handle, unpin_handle,
  free_handle, drop_reference, try_remove_handle,
}
use skyline.Nvmap
use skyline.Nvmap.References.{is_last, free_handle_lem}
use skyline.Nvmap.Pins.{pin_handle-stuck, pin_handle-unpin_handle}

abbrev full : Smmu
full = record { State = ℕ; allocate = λ s n. (0, s); map = λ s a h n. s; unmap = λ s a n. s }

-- The first one has never been pinned; the second one has been unpinned, and waits.
abbrev first : Handle
first = record (handle 4096 4) { address = 0x8000; allocated = true }

abbrev second : Handle
second = record (handle 4096 8) {
  pin_virt_address = 0x1000;
  queued = true;
  address = 0x9000;
  allocated = true;
}

abbrev third : Handle
third = record (handle 4096 12) {
  pins = 1;
  pin_virt_address = 0x2000;
  address = 0xa000;
  allocated = true;
}

abbrev nvmap : Nvmap.NvMap full
nvmap = record {
  smmu = 0;
  objects = first ∷ second ∷ third ∷ [];
  handles = 4 ∷ 8 ∷ 12 ∷ [];
  unmap_queue = 8 ∷ [];
  next_handle_id = 16;
}

pin_handle-stuck_example : pin_handle full 5 4 nvmap ≡ none
unfolding get_handle member find handle
pin_handle-stuck_example =
    pin_handle-stuck full nvmap 4 8 [] {h = first} refl refl refl refl refl refl 5

pin_handle-unpin_handle_example :
    pin_handle full 3 12 (unpin_handle full 12 nvmap) ≡ some (ok (0x2000, nvmap))
unfolding get_handle member find handle
pin_handle-unpin_handle_example = pin_handle-unpin_handle full nvmap third 3 refl refl refl refl

-- The guest's last reference to a pinned handle frees it, and tells its address.
freed_last : (free_handle full 12 false nvmap).1.handles ≡ 4 ∷ 8 ∷ []
unfolding free_handle get_handle member find handle drop_reference try_remove_handle erase update
freed_last = refl

free_handle_lem_example :
    (member 12 (free_handle full 12 false nvmap).1.handles ≡ not (is_last false third))
    × ((j : ℕ)
        → 12 ≢ j
        → (member j (free_handle full 12 false nvmap).1.handles ≡ member j nvmap.handles)
          × (get_handle full j (free_handle full 12 false nvmap).1 ≡ get_handle full j nvmap))
unfolding get_handle member find handle erase
free_handle_lem_example = free_handle_lem full nvmap third false refl refl
