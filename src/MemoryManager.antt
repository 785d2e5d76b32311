-- ===== src/MemoryManager.antt =====
-- The guest's memory map: app/src/main/cpp/skyline/kernel/memory.h and memory.cpp. The vector of
-- chunks is a list; an iterator into it is a cursor, the chunks before it (nearest first) and those
-- from it on. Pointers are numbers, which no chunk takes past their range.
pub mod View
pub mod Insert
pub mod Lookup
pub mod Session
mod Tests
use skyline.Base.{
  ℕ, ◌+◌, ◌-◌, ◌*◌, ◌/◌, ◌%◌, ◌^◌, Bool, true, false, ◌&&◌, ◌||◌, List, [], ◌∷◌, Option, none, some,
  ltb, leb, ◌==◌, if◌then◌else◌, min, length, Result, ok, err, ◌>>=◌, ◌>>◌, guard, not, fault,
  out_of_range, unimplemented, past_limit,
}

-- `ChunkDescriptor`; a permission, a state and attributes are their raw values.
pub record Chunk : Type 0 where
  pub ptr : ℕ
  pub size : ℕ
  pub permission : ℕ
  pub state : ℕ
  pub attributes : ℕ

abbrev pub stop : Chunk → ℕ
stop c = c.ptr + c.size

-- `IsCompatible`
unfoldable pub is_compatible : Chunk → Chunk → Bool
is_compatible c d =
    (d.permission == c.permission) && (d.state == c.state) && (d.attributes == c.attributes)

unfoldable pub rezip : List Chunk → List Chunk → List Chunk
rezip [] right = right
rezip (c ∷ left) right = rezip left (c ∷ right)

-- `std::upper_bound` by the start of a chunk.
unfoldable pub upper_bound : ℕ → List Chunk → List Chunk → List Chunk × List Chunk
upper_bound p left [] = (left, [])
upper_bound p left (c ∷ right) =
    let rest = upper_bound p (c ∷ left) right in if ltb p c.ptr then (left, c ∷ right) else rest

-- The chunks that end by `e` are erased.
unfoldable pub erase_covered : ℕ → List Chunk → List Chunk
erase_covered e [] = []
erase_covered e (c ∷ right) =
    let rest = erase_covered e right in if ltb e (stop c) then c ∷ right else rest

-- The first chunk starts no sooner than `e`.
unfoldable pub trim : ℕ → List Chunk → List Chunk
trim e [] = []
trim e (u ∷ right) =
    if ltb u.ptr e then record u { ptr = e; size = stop u - e } ∷ right else u ∷ right

-- Behind a chunk that ends past the new one, and starts before it or with it.
unfoldable pub split_lower : Chunk → Chunk → List Chunk → List Chunk → Result (List Chunk)
split_lower c lower left upper =
    let extension : Chunk = record lower { ptr = stop c; size = stop lower - stop c } in
    if not (c.ptr - lower.ptr == 0)
    then ok (rezip (record lower { size = c.ptr - lower.ptr } ∷ left) (c ∷ extension ∷ upper))
    else elim left [
      | [] ↦ err fault
      | lower2 ∷ left ↦
          if is_compatible c lower2 && leb c.ptr (stop lower2)
          then ok (rezip (record lower2 { size = stop c - lower2.ptr } ∷ left) (extension ∷ upper))
          else ok (rezip (lower2 ∷ left) (c ∷ extension ∷ upper))
    ]

-- Before the chunks from `upper` on, or as one with the first of them.
unfoldable pub join_upper : Chunk → List Chunk → List Chunk
join_upper c [] = c ∷ []
join_upper c (u ∷ upper) =
    if is_compatible c u && leb u.ptr (stop c)
    then record u { ptr = c.ptr; size = c.size + u.size } ∷ upper
    else c ∷ u ∷ upper

unfoldable pub place : Chunk → Chunk → List Chunk → List Chunk → Result (List Chunk)
place c lower left upper =
    if (lower.ptr == c.ptr) && (lower.size == c.size)
    then ok (
        rezip left (
          record lower { state = c.state; permission = c.permission; attributes = c.attributes }
          ∷ upper))
    else if ltb (stop c) (stop lower)
    then split_lower c lower left upper
    else if is_compatible c lower && leb c.ptr (stop lower)
    then ok (rezip (record lower { size = stop c - lower.ptr } ∷ left) upper)
    else ok (
        rezip
          ((if ltb c.ptr (stop lower) then record lower { size = c.ptr - lower.ptr } else lower)
            ∷ left)
          (join_upper c upper))

unfoldable pub insert_at : Chunk → List Chunk × List Chunk → Result (List Chunk)
unfolding place
insert_at c ([], right) = err out_of_range
insert_at c (lower ∷ left, right) =
    place c lower left (trim (stop c) (erase_covered (stop c) right))

unfoldable pub insert_chunk : Chunk → List Chunk → Result (List Chunk)
insert_chunk c chunks = insert_at c (upper_bound c.ptr [] chunks)

unfoldable pub get_at : ℕ → List Chunk → Option Chunk
get_at ptr [] = none
get_at ptr (c ∷ left) = if ltb ptr (stop c) then some c else none

unfoldable pub get : ℕ → List Chunk → Option Chunk
unfolding upper_bound get_at
get ptr chunks = get_at ptr (upper_bound ptr [] chunks).0

abbrev pub heap_state : ℕ
heap_state = 0x037EBD05

-- The sizes of the chunks of the heap.
unfoldable pub heap_size : List Chunk → ℕ
heap_size [] = 0
heap_size (c ∷ chunks) = (if c.state == heap_state then c.size else 0) + heap_size chunks

unfoldable pub get_user_memory_usage : List Chunk → ℕ → ℕ → ℕ
unfolding heap_size
get_user_memory_usage chunks code_size stack_size = heap_size chunks + code_size + stack_size

abbrev pub align_up : ℕ → ℕ → ℕ
align_up value multiple = (value + (multiple - 1)) / multiple * multiple

unfoldable pub get_system_resource_usage : List Chunk → ℕ → ℕ
get_system_resource_usage chunks system_resource_size =
    min system_resource_size (align_up (length chunks * 0x40) 4096)

-- A span of memory.
pub record Span : Type 0 where
  pub base : ℕ
  pub size : ℕ

abbrev pub span_end : Span → ℕ
span_end s = s.base + s.size

abbrev pub reserved_state : ℕ
reserved_state = 0x10

-- The chunks that InitializeVmm starts from: the guest's memory amid what is reserved.
unfoldable pub initial_chunks : ℕ → Span → List Chunk
initial_chunks space b =
    record { ptr = 0; size = b.base; permission = 0; state = reserved_state; attributes = 0 }
    ∷ record { ptr = b.base; size = b.size; permission = 0; state = 0; attributes = 0 }
    ∷ record {
      ptr = span_end b;
      size = space - span_end b;
      permission = 0;
      state = reserved_state;
      attributes = 0;
    }
    ∷ []

pub record Regions : Type 0 where
  pub code : Span
  pub alias : Span
  pub heap : Span
  pub stack : Span
  pub tls_io : Span

abbrev pub region_alignment : ℕ
region_alignment = 2 ^ 21

abbrev pub after : Span → ℕ → Span
after s size = record { base = span_end s; size = size }

-- The regions, and the arguments of `munmap` if it is called.
abbrev pub Layout : Type 0
Layout = Regions × Option (ℕ × ℕ)

unfoldable pub check_regions : Span → Span → Regions → ℕ → Result Layout
check_regions b code_region r new_size =
    if ltb b.size new_size
    then err past_limit
    else if ltb r.code.size code_region.size
    then err past_limit
    else ok (
      r,
      (if new_size == b.size
          then none
          else some (span_end b, (new_size + 2 ^ 64 - b.size) % 2 ^ 64)),
    )

unfoldable pub regions36 : Span → Span → Result Layout
unfolding check_regions
regions36 b code_region =
    let code : Span = record { base = 0x800000; size = 0x78000000 } in
    let alias : Span = after code 0x180000000 in
    let stack : Span = after alias 0x78000000 in
    let heap : Span = after stack 0x180000000 in
    if ltb code_region.base code.base || ltb (span_end code) (span_end code_region)
    then err past_limit
    else check_regions b code_region
        (record { code = code; alias = alias; heap = heap; stack = stack; tls_io = stack })
        (code.size + alias.size + stack.size + heap.size)

unfoldable pub regions39 : Span → Span → Result Layout
unfolding check_regions
regions39 b code_region =
    let code : Span = record { base = b.base; size = align_up code_region.size region_alignment } in
    let alias : Span = after code 0x1000000000 in
    let heap : Span = after alias 0x180000000 in
    let stack : Span = after heap 0x80000000 in
    let tls_io : Span = after stack 0x1000000000 in
    check_regions b code_region
      (record { code = code; alias = alias; heap = heap; stack = stack; tls_io = tls_io })
      (code.size + alias.size + stack.size + heap.size + tls_io.size)

unfoldable pub initialize_regions : ℕ → Span → Span → Result Layout
unfolding regions36 regions39
initialize_regions space b code_region =
    if not (code_region.base % region_alignment == 0)
    then err unimplemented
    else if space == 2 ^ 36
    then regions36 b code_region
    else if space == 2 ^ 39
    then regions39 b code_region
    else err unimplemented
