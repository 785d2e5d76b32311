-- ===== src/AddressSpace/Cursor.antt =====
-- The searches of the block vector in common/address_space.inc, `std::lower_bound` and the walk back.
use skyline.Base.{
  ℕ, ◌<◌, ◌≡◌, refl, inl, inr, List, [], ◌∷◌, Option, some, ltb, leb, arith, Bool-cases, leb-false,
  sym, ◌∙◌,
}
use skyline.AddressSpace.{Block, Config, rezip, seek, walk_back}
use skyline.AddressSpace.View.{From, Back, resolve_back, AtLeast}

abbrev pub HeadBelow : ℕ → List Block → Type 0
HeadBelow va [] = Unit {0}
HeadBelow va (b ∷ bs) = b.virt < va

-- A cursor of `bs` between the blocks below `va` and the others.
pub record Split (c : Config) (va : ℕ) (bs : List Block) (cursor : List Block × List Block)
    : Type 0 where
  pub near : Block
  pub left : List Block
  pub right : List Block
  pub parts : cursor ≡ (near ∷ left, right)
  pub back : Back c near left
  pub from : From c near right
  pub below : near.virt < va
  pub above : AtLeast va right
  pub whole : rezip (near ∷ left) right ≡ bs

pub seek-Split :
    (c : Config) (va : ℕ) (b : Block) (left right bs : List Block)
    → Back c b left
    → From c b right
    → b.virt < va
    → rezip (b ∷ left) right ≡ bs
    → Split c va bs (seek va (b ∷ left) right)
unfolding seek rezip
seek-Split c va b left [] bs h k lt e = record {
  near = b;
  left = left;
  right = [];
  parts = refl;
  back = h;
  from = k;
  below = lt;
  above = tt;
  whole = e;
}
seek-Split c va b left (d ∷ right) bs h k lt e = elim (Bool-cases (ltb d.virt va)) [
  | inl on ↦ rw on (seek-Split c va d (b ∷ left) right bs (k.0, k.1, k.2, h) k.3 (ground arith) e)
  | inr stop ↦ rw stop (record {
    near = b;
    left = left;
    right = d ∷ right;
    parts = refl;
    back = h;
    from = k;
    below = lt;
    above = ground arith;
    whole = e;
  })
]

-- Where the walk back to the last block before `virt` ends.
pub record Walked (c : Config) (virt virt_end : ℕ) (left passed : List Block)
    (r : Option (List Block × List Block)) : Type 0 where
  pub near : Block
  pub rest : List Block
  pub mid : List Block
  pub parts : r ≡ some (near ∷ rest, mid)
  pub back : Back c near rest
  pub below : near.virt < virt
  pub mid_below : HeadBelow virt_end mid
  pub same : (va : ℕ) → va < virt → resolve_back (near ∷ rest) va ≡ resolve_back left va

pub walk_back-Walked :
    (c : Config) (virt virt_end : ℕ) (b : Block) (left passed : List Block)
    → Back c b left
    → 0 < virt
    → b.virt < virt_end
    → HeadBelow virt_end passed
    → Walked c virt virt_end (b ∷ left) passed (walk_back virt (b ∷ left) passed)
unfolding walk_back resolve_back
walk_back-Walked c virt virt_end b [] passed h pos lt p =
    rw (leb-false virt b.virt (omega arith)) (record {
      near = b;
      rest = [];
      mid = passed;
      parts = refl;
      back = h;
      below = omega arith;
      mid_below = p;
      same = λ va _. refl;
    })
walk_back-Walked c virt virt_end b (d ∷ left) passed h pos lt p =
    elim (Bool-cases (leb virt b.virt)) [
      | inl on ↦
          let w = walk_back-Walked c virt virt_end d left (b ∷ passed) h.3 pos (omega arith) lt in
          rw on (record {
            near = w.near;
            rest = w.rest;
            mid = w.mid;
            parts = w.parts;
            back = w.back;
            below = w.below;
            mid_below = w.mid_below;
            same = λ va k. w.same va k ∙ sym (skip va (ground arith));
          })
      | inr stop ↦ rw stop (record {
        near = b;
        rest = d ∷ left;
        mid = passed;
        parts = refl;
        back = h;
        below = ground arith;
        mid_below = p;
        same = λ va _. refl;
      })
    ]
  where
    skip : (va : ℕ) → va < b.virt → resolve_back (b ∷ d ∷ left) va ≡ resolve_back (d ∷ left) va
    skip va k = rw (leb-false b.virt va k)
