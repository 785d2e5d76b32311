-- ===== src/MemoryManager/Session.antt =====
-- InitializeVmm, then calls of InsertChunk, then Get of kernel/memory.cpp; and InitializeRegions.
use skyline.Base.{
  ℕ, ◌+◌, ◌-◌, ◌%◌, ◌^◌, ◌≤◌, ◌<◌, ◌≡◌, refl, List, [], ◌∷◌, Option, some, none, if◌then◌else◌,
  Result, ok, ◌>>=◌, arith, ◌∙◌, ap,
}
use skyline.MemoryManager.{
  Chunk, stop, Span, span_end, initial_chunks, insert_chunk, get, Regions, regions39, check_regions,
  initialize_regions,
}
use skyline.MemoryManager.View.{kind, covers, view, Tiles}
use skyline.MemoryManager.Insert.{insert_chunk_lem}
use skyline.MemoryManager.Lookup.{kind?, get_lem}

pub insert_all : List Chunk → List Chunk → Result (List Chunk)
insert_all [] chunks = ok chunks
insert_all (c ∷ cs) chunks = insert_chunk c chunks >>= insert_all cs

-- What the last of the calls that covers an address says of it.
pub latest : ℕ → List Chunk → Option (ℕ × ℕ × ℕ) → Option (ℕ × ℕ × ℕ)
latest va [] k = k
latest va (c ∷ cs) k = latest va cs (if covers c va then some (kind c) else k)

-- Chunks that are not empty, start past `p` and end by `e`.
abbrev pub AllWithin : ℕ → ℕ → List Chunk → Type 0
AllWithin p e [] = Unit {0}
AllWithin p e (c ∷ cs) = ((0 < c.size) × (p < c.ptr) × (stop c ≤ e)) × AllWithin p e cs

insert_all_lem :
    (p e : ℕ) (cs chunks : List Chunk)
    → AllWithin p e cs
    → Tiles p chunks e
    → (after : List Chunk) × (insert_all cs chunks ≡ ok after)
      × Tiles p after e
      × ((va : ℕ) → view after va ≡ latest va cs (view chunks va))
unfolding insert_all latest
insert_all_lem p e [] chunks w t = (chunks, refl, t, λ va. refl)
insert_all_lem p e (c ∷ cs) chunks w t =
    let (next, e1, i) = insert_chunk_lem p e c w.0.0 w.0.1 w.0.2 chunks t in
    let (after, e2, t', v) = insert_all_lem p e cs next w.1 i.tiles in
    (after, rw (e1) e2, t', λ va. v va ∙ ap (latest va cs) (i.viewed va))

initial_chunks-Tiles :
    (space : ℕ) (b : Span) → span_end b ≤ space → Tiles 0 (initial_chunks space b) space
unfolding initial_chunks
initial_chunks-Tiles space b h = ground arith

-- From the chunks of InitializeVmm on, calls of InsertChunk whose chunks are not empty, start past
-- address 0 and end within the address space all return, and then `Get` tells of each address what
-- the last call that covers it said, and what InitializeVmm said where none does.
pub session_lem :
    (space : ℕ) (b : Span) (cs : List Chunk)
    → span_end b ≤ space
    → AllWithin 0 space cs
    → (after : List Chunk) × (insert_all cs (initial_chunks space b) ≡ ok after)
      × ((va : ℕ) → kind? (get va after) ≡ latest va cs (view (initial_chunks space b) va))
session_lem space b cs h w =
    let (after, e, t, v) = insert_all_lem 0 space cs _ w (initial_chunks-Tiles space b h) in
    (after, e, λ va. get_lem 0 space va after t ∙ v va)

-- Side by side.
abbrev pub Follows : Span → Span → Type 0
Follows s t = t.base ≡ span_end s

-- Where InitializeRegions returns for a 39-bit address space, the code region starts with the guest's
-- memory and has room for the code, the other regions follow side by side, and the last one ends
-- within the guest's memory.
pub regions39_lem :
    (b code_region : Span) {r : Regions} {unmapped : Option (ℕ × ℕ)}
    → initialize_regions (2 ^ 39) b code_region ≡ ok (r, unmapped)
    → (r.code.base ≡ b.base)
      × (code_region.size ≤ r.code.size)
      × Follows r.code r.alias
      × Follows r.alias r.heap
      × Follows r.heap r.stack
      × Follows r.stack r.tls_io
      × (span_end r.tls_io ≤ span_end b)
unfolding initialize_regions regions39 check_regions
regions39_lem b code_region {r} {unmapped} e = ground arith

-- Where InitializeRegions returns for a 39-bit address space and guest memory of less than 2^63 bytes:
-- if the regions fill that memory it unmaps nothing; if they end before, it unmaps from the end of the
-- memory on, and the size is negative: taken for 64 bits, it exceeds 2^63.
pub regions39-unmapped :
    (b code_region : Span) {r : Regions} {unmapped : Option (ℕ × ℕ)}
    → b.size < 2 ^ 63
    → initialize_regions (2 ^ 39) b code_region ≡ ok (r, unmapped)
    → (span_end r.tls_io ≡ span_end b → unmapped ≡ none)
      × (span_end r.tls_io < span_end b
          → (size : ℕ) × (unmapped ≡ some (span_end b, size)) × (2 ^ 63 < size))
unfolding initialize_regions regions39 check_regions
regions39-unmapped b code_region {r} {unmapped} h e = (
  λ full. ground arith,
  λ lt. (
    (r.code.size + r.alias.size + r.stack.size + r.heap.size + r.tls_io.size + 2 ^ 64 - b.size)
        % 2 ^ 64,
    ground arith,
    ground arith,
  ),
)
