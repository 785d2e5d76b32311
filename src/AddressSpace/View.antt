-- ===== src/AddressSpace/View.antt =====
-- What a block vector of common/address_space.h means: the physical address behind each virtual
-- one, and when a vector is well formed.
use skyline.Base.{
  ℕ, ◌+◌, ◌-◌, ◌^◌, ◌≤◌, ◌<◌, ◌≡◌, refl, Bool, List, [], ◌∷◌, Option, none, some, leb,
  if◌then◌else◌, arith,
}
use skyline.AddressSpace.{Block, Config, block, unmapped, add_ptr, rezip, tail_phys}

-- The last of two findings, where there are two.
abbrev pub or_else {ℓ} : {A : Type ℓ} → Option A → Option A → Option A
or_else none b = b
or_else (some a) b = some a

-- The block that `va` lies in: the last one that starts at or before it.
unfoldable pub resolve : List Block → ℕ → Option Block
resolve [] va = none
resolve (b ∷ bs) va = or_else (resolve bs va) (if leb b.virt va then some b else none)

-- What a block says of an address in it.
abbrev pub phys_at : Config → ℕ → Block → Option (ℕ × Bool)
phys_at c va b =
    if unmapped b
    then none
    else some
        ((if c.pa_contig_split then add_ptr b.phys (va - b.virt) else b.phys), b.sparse_mapped)

abbrev pub at : Config → ℕ → Option Block → Option (ℕ × Bool)
at c va none = none
at c va (some b) = phys_at c va b

-- The physical address and the block info behind `va`; `none` if it is unmapped.
unfoldable pub translate : Config → List Block → ℕ → Option (ℕ × Bool)
unfolding resolve
translate c bs va = at c va (resolve bs va)

-- The block's host range ends below 2^64 whatever its length.
abbrev pub Fits : Config → Block → Type 0
Fits c b = b.phys + c.va_limit < b.virt + 2 ^ 64

-- Blocks that follow `b` rise strictly up to the limit, and the last one is unmapped.
abbrev pub From : Config → Block → List Block → Type 0
From c b [] = b.phys ≡ 0
From c b (d ∷ bs) = (b.virt < d.virt) × (d.virt ≤ c.va_limit) × Fits c d × From c d bs

-- The block at 0 is unmapped, and the others follow it.
abbrev pub WellFormed : Config → List Block → Type 0
WellFormed c [] = ⊥
WellFormed c (b ∷ bs) = (b.virt ≡ 0) × (b.phys ≡ 0) × From c b bs

-- The same seen from `b` back to the first block, nearest first.
abbrev pub Back : Config → Block → List Block → Type 0
Back c b [] = (b.virt ≡ 0) × (b.phys ≡ 0)
Back c b (d ∷ bs) = (d.virt < b.virt) × (b.virt ≤ c.va_limit) × Fits c b × Back c d bs

pub rezip-WellFormed :
    (c : Config) (b : Block) (left right : List Block)
    → Back c b left
    → From c b right
    → WellFormed c (rezip (b ∷ left) right)
unfolding rezip
rezip-WellFormed c b [] right h k = (h.0, h.1, k)
rezip-WellFormed c b (d ∷ left) right h k =
    rezip-WellFormed c d left (b ∷ right) h.3 (h.0, h.1, h.2, k)

-- The nearest block of a reversed prefix that starts at or before `va`.
unfoldable pub resolve_back : List Block → ℕ → Option Block
resolve_back [] va = none
resolve_back (b ∷ left) va = if leb b.virt va then some b else resolve_back left va

or_else_assoc {ℓ} :
    {A : Type ℓ} (a b c : Option A) → or_else (or_else a b) c ≡ or_else a (or_else b c)
or_else_assoc none b c = refl
or_else_assoc (some x) b c = refl

pub resolve-rezip :
    (left right : List Block) (va : ℕ)
    → resolve (rezip left right) va ≡ or_else (resolve right va) (resolve_back left va)
unfolding resolve rezip resolve_back
resolve-rezip [] right va = ground (arith, or_else_assoc (resolve right va) none none)
resolve-rezip (b ∷ left) right va = ground (
  arith,
  resolve-rezip left (b ∷ right) va,
  or_else_assoc (resolve right va) (if leb b.virt va then some b else none) (resolve_back left va),
)

-- No block that follows `b` holds an address before the next one.
pub resolve-below :
    (c : Config) (b : Block) (bs : List Block) (va : ℕ)
    → From c b bs
    → va ≤ b.virt
    → resolve bs va ≡ none
unfolding resolve
resolve-below c b [] va h k = refl
resolve-below c b (d ∷ bs) va h k = ground (arith, resolve-below c d bs va h.3)

abbrev pub AtLeast : ℕ → List Block → Type 0
AtLeast va [] = Unit {0}
AtLeast va (b ∷ bs) = va ≤ b.virt

pub resolve-AtLeast :
    (c : Config) (b : Block) (bs : List Block) (v va : ℕ)
    → From c b bs
    → AtLeast v bs
    → va < v
    → resolve bs va ≡ none
unfolding resolve
resolve-AtLeast c b [] v va h k lt = refl
resolve-AtLeast c b (d ∷ bs) v va h k lt = ground (arith, resolve-below c d bs va h.3)

-- A tail block takes up where its block was cut.
pub tail_phys-Fits :
    (c : Config) (b : Block) (v : ℕ) (i : Bool)
    → Fits c b
    → b.virt < v
    → v ≤ c.va_limit
    → Fits c (block v (tail_phys c b v) i)
unfolding tail_phys
tail_phys-Fits c b v i f lt lim = ground arith

pub tail_phys-phys_at :
    (c : Config) (b : Block) (v va : ℕ)
    → Fits c b
    → b.virt < v
    → v ≤ c.va_limit
    → v ≤ va
    → phys_at c va (block v (tail_phys c b v) b.sparse_mapped) ≡ phys_at c va b
unfolding tail_phys
tail_phys-phys_at c b v va f lt lim h = ground arith
