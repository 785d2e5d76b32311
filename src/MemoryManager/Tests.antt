-- ===== src/MemoryManager/Tests.antt =====
-- The memory map of kernel/memory.cpp at fixed inputs.
use skyline.Base.{Option, none, some, ℕ, ◌^◌, ◌≤◌, ◌<◌, ◌≡◌, refl, List, [], ◌∷◌, some, ok, arith}
use skyline.MemoryManager.Lookup.{kind?}
use skyline.MemoryManager.{
  Chunk, Span, span_end, Regions, initialize_regions, regions39, check_regions, insert_chunk, get,
  initial_chunks, heap_state, upper_bound, insert_at, place, rezip, erase_covered, trim,
  split_lower, join_upper, is_compatible,
}
use skyline.MemoryManager.View.{view}
use skyline.MemoryManager.Insert.{Inserted, insert_chunk_lem}
use skyline.MemoryManager.Session.{
  insert_all, latest, session_lem, regions39_lem, regions39-unmapped, Follows,
}

abbrev chunks : List Chunk
chunks = initial_chunks 0x10000 (record { base = 0x1000; size = 0x8000 })

abbrev heap : Chunk
heap = record { ptr = 0x3000; size = 0x2000; permission = 3; state = heap_state; attributes = 0 }

abbrev with_heap : List Chunk
with_heap =
    record { ptr = 0; size = 0x1000; permission = 0; state = 0x10; attributes = 0 }
    ∷ record { ptr = 0x1000; size = 0x2000; permission = 0; state = 0; attributes = 0 }
    ∷ heap
    ∷ record { ptr = 0x5000; size = 0x4000; permission = 0; state = 0; attributes = 0 }
    ∷ record { ptr = 0x9000; size = 0x7000; permission = 0; state = 0x10; attributes = 0 }
    ∷ []

heap_inserted : insert_chunk heap chunks ≡ ok with_heap
unfolding insert_chunk insert_at place rezip erase_covered trim split_lower initial_chunks
    upper_bound
heap_inserted = refl

-- A chunk that starts with a smaller one leaves that one behind, with no bytes.
abbrev larger : Chunk
larger = record { ptr = 0x3000; size = 0x3000; permission = 1; state = 0x3; attributes = 0 }

empty_left :
    insert_chunk larger with_heap
    ≡ ok (
        record { ptr = 0; size = 0x1000; permission = 0; state = 0x10; attributes = 0 }
        ∷ record { ptr = 0x1000; size = 0x2000; permission = 0; state = 0; attributes = 0 }
        ∷ record heap { size = 0 }
        ∷ larger
        ∷ record { ptr = 0x6000; size = 0x3000; permission = 0; state = 0; attributes = 0 }
        ∷ record { ptr = 0x9000; size = 0x7000; permission = 0; state = 0x10; attributes = 0 }
        ∷ [])
unfolding insert_chunk insert_at place rezip erase_covered trim join_upper is_compatible upper_bound
empty_left = refl

insert_chunk_lem_example :
    (after : List Chunk) × (insert_chunk larger with_heap ≡ ok after)
    × Inserted 0 0x10000 larger with_heap after
insert_chunk_lem_example =
    insert_chunk_lem 0 0x10000 larger (omega arith) (omega arith) (omega arith) with_heap
      (omega arith)

session_lem_example :
    (after : List Chunk) × (insert_all (heap ∷ larger ∷ []) chunks ≡ ok after)
    × ((va : ℕ) → kind? (get va after) ≡ latest va (heap ∷ larger ∷ []) (view chunks va))
session_lem_example =
    session_lem 0x10000 (record { base = 0x1000; size = 0x8000 }) (heap ∷ larger ∷ []) (omega arith)
      (omega arith)

-- The memory as InitializeVmm maps it, and the code of a program at its start.
abbrev vmm : Span
vmm = record { base = 2 ^ 35; size = 0x2300000000 }

abbrev code_region : Span
code_region = record { base = 2 ^ 35; size = 0x2345000 }

abbrev regions : Regions
regions = record {
  code = record { base = 0x800000000; size = 0x2400000 };
  alias = record { base = 0x802400000; size = 0x1000000000 };
  heap = record { base = 0x1802400000; size = 0x180000000 };
  stack = record { base = 0x1982400000; size = 0x80000000 };
  tls_io = record { base = 0x1a02400000; size = 0x1000000000 };
}

abbrev unmapped_size : ℕ
unmapped_size = 0xffffffff02400000

regions_at_start :
    initialize_regions (2 ^ 39) vmm code_region ≡ ok (regions, some (0x2b00000000, unmapped_size))
unfolding initialize_regions regions39 check_regions
regions_at_start = refl

regions39_lem_example :
    (regions.code.base ≡ vmm.base)
    × (code_region.size ≤ regions.code.size)
    × Follows regions.code regions.alias
    × Follows regions.alias regions.heap
    × Follows regions.heap regions.stack
    × Follows regions.stack regions.tls_io
    × (span_end regions.tls_io ≤ span_end vmm)
regions39_lem_example = regions39_lem vmm code_region regions_at_start

regions39-unmapped_example :
    (span_end regions.tls_io ≡ span_end vmm
      → ◌≡◌ {A = Option (ℕ × ℕ)} (some (0x2b00000000, unmapped_size)) none)
    × (span_end regions.tls_io < span_end vmm
        → (size : ℕ) × (◌≡◌ {A = Option (ℕ × ℕ)}
            (some (0x2b00000000, unmapped_size))
            (some (span_end vmm, size)))
          × (2 ^ 63 < size))
regions39-unmapped_example = regions39-unmapped vmm code_region (omega arith) regions_at_start
