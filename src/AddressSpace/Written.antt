-- ===== src/AddressSpace/Written.antt =====
-- The vector that a write in common/address_space.inc leaves: the blocks before, the new one, one at
-- its end, and the rest.
use skyline.Base.{
  ℕ, ◌≤◌, ◌<◌, ◌≡◌, Bool, List, ◌∷◌, Option, some, arith, sym, ◌∙◌, ap, leb-false, leb-true, Result,
  ok,
}
use skyline.AddressSpace.{Block, Config, rezip}
use skyline.AddressSpace.View.{
  From, Back, Fits, WellFormed, or_else, resolve, resolve_back, translate, at, phys_at,
  resolve-rezip, rezip-WellFormed, resolve-below,
}
use skyline.AddressSpace.Cursor.{Split}

pub translate-rezip :
    (c : Config) (left right : List Block) (va : ℕ)
    → translate c (rezip left right) va
      ≡ at c va (or_else (resolve right va) (resolve_back left va))
unfolding translate
translate-rezip c left right va = ap (at c va) (resolve-rezip left right va)

pub translate-Split :
    (c : Config) {v : ℕ} {bs : List Block} {cursor : List Block × List Block}
    → (s : Split c v bs cursor) → (va : ℕ)
    → translate c bs va ≡ at c va (or_else (resolve s.right va) (resolve_back (s.near ∷ s.left) va))
translate-Split c s va =
    ap (λ bs. translate c bs va) (sym s.whole) ∙ translate-rezip c (s.near ∷ s.left) s.right va

module _ (c : Config) (s n x : Block) (left right : List Block) (back : Back c s left)
    (sn : s.virt < n.virt) (nx : n.virt < x.virt) (xl : x.virt ≤ c.va_limit) (fn : Fits c n)
    (fx : Fits c x) (from : From c x right) where
  pub written-WellFormed : WellFormed c (rezip (s ∷ left) (n ∷ x ∷ right))
  written-WellFormed =
      rezip-WellFormed c s left (n ∷ x ∷ right) back (sn, omega arith, fn, (nx, xl, fx, from))

  pub written-below :
      (va : ℕ)
      → va < n.virt
      → translate c (rezip (s ∷ left) (n ∷ x ∷ right)) va ≡ at c va (resolve_back (s ∷ left) va)
  unfolding resolve
  written-below va k =
      translate-rezip c (s ∷ left) (n ∷ x ∷ right) va
      ∙ rw (
        resolve-below c x right va from (omega arith),
        leb-false x.virt va (omega arith),
        leb-false n.virt va k,
      )

  pub written-inside :
      (va : ℕ)
      → n.virt ≤ va
      → va < x.virt
      → translate c (rezip (s ∷ left) (n ∷ x ∷ right)) va ≡ phys_at c va n
  unfolding resolve
  written-inside va h k =
      translate-rezip c (s ∷ left) (n ∷ x ∷ right) va
      ∙ rw (
        resolve-below c x right va from (omega arith),
        leb-false x.virt va k,
        leb-true n.virt va h,
      )

  pub written-above :
      (va : ℕ)
      → x.virt ≤ va
      → translate c (rezip (s ∷ left) (n ∷ x ∷ right)) va
        ≡ at c va (or_else (resolve right va) (some x))
  unfolding resolve
  written-above va k =
      translate-rezip c (s ∷ left) (n ∷ x ∷ right) va ∙ rw (leb-true x.virt va k) (ground arith)

-- The mappings of `old`, but for `[virt, virt_end)`, which holds `inside`.
pub record Replaces (c : Config) (old : List Block) (virt virt_end : ℕ)
    (within : ℕ → Option (ℕ × Bool)) (r : Result (List Block)) : Type 0 where
  pub blocks : List Block
  pub parts : r ≡ ok blocks
  pub well_formed : WellFormed c blocks
  pub below : (va : ℕ) → va < virt → translate c blocks va ≡ translate c old va
  pub inside : (va : ℕ) → virt ≤ va → va < virt_end → translate c blocks va ≡ within va
  pub above : (va : ℕ) → virt_end ≤ va → translate c blocks va ≡ translate c old va
