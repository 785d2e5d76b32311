-- ===== src/MemoryManager/Insert.antt =====
-- Lemmas on `InsertChunk` of kernel/memory.cpp.
use skyline.Base.{
  ℕ, ◌+◌, ◌-◌, ◌≤◌, ◌<◌, ◌≡◌, refl, true, false, ◌&&◌, List, [], ◌∷◌, some, ltb, leb, ◌==◌,
  if◌then◌else◌, arith, Bool-cases, inl, inr, sym, Result, ok, err, ltb→lt, lt→ltb, ltb-false,
  ==_iff, fault,
}
use skyline.MemoryManager.{
  Chunk, stop, rezip, erase_covered, trim, is_compatible, split_lower, join_upper, place,
  upper_bound, insert_at, insert_chunk,
}
use skyline.MemoryManager.View.{
  kind, covers, view, Tiles, Back, Tiles-shift, rezip-Tiles, view-rezip, trim-Tiles, view-trim,
  trim-past,
}

-- The vector `after` is `before` with the range of `c` as `c` says.
pub record Inserted (p e : ℕ) (c : Chunk) (before after : List Chunk) : Type 0 where
  pub tiles : Tiles p after e
  pub viewed : (va : ℕ) → view after va ≡ (if covers c va then some (kind c) else view before va)

is_compatible-kind : (c d : Chunk) → is_compatible c d ≡ true → kind d ≡ kind c
unfolding is_compatible
is_compatible-kind c d h = ground arith

-- Only the part behind the cursor has changed.
rezip-Inserted :
    (p : ℕ) (left : List Chunk) (k : ℕ) (old new : List Chunk) (e : ℕ) (c : Chunk)
    → Back p left k
    → Tiles k old e
    → Tiles k new e
    → k ≤ c.ptr
    → ((va : ℕ) → k ≤ va → view new va ≡ (if covers c va then some (kind c) else view old va))
    → Inserted p e c (rezip left old) (rezip left new)
rezip-Inserted p left k old new e c b t u h v = record {
  tiles = rezip-Tiles p left k new e b u;
  viewed = λ va.
      ground (arith, view-rezip p left k old e va b t, view-rezip p left k new e va b u, v va);
}

-- What `place` leaves, if it returns.
abbrev pub Placed : ℕ → ℕ → Chunk → List Chunk → Result (List Chunk) → Type 0
Placed p e c before r = (after : List Chunk) × (r ≡ ok after) × Inserted p e c before after

module _ (p e : ℕ) (c : Chunk) (pos : 0 < c.size) (start : p < c.ptr) (fit : stop c ≤ e) where
  split_lower-Placed :
      (lower : Chunk) (left right : List Chunk)
      → Back p left lower.ptr
      → Tiles (stop lower) right e
      → lower.ptr ≤ c.ptr
      → stop c < stop lower
      → Placed p e c (rezip left (lower ∷ right)) (split_lower c lower left right)
  unfolding split_lower rezip view
  split_lower-Placed lower left right b t lo past = elim (Bool-cases (c.ptr - lower.ptr == 0)) [
    | inr inside ↦ rw inside (
      _,
      refl,
      rezip-Inserted p left lower.ptr (lower ∷ right) _ e c b (refl, t)
          (
            refl,
            (
              omega arith,
              (
                omega arith,
                Tiles-shift (stop lower)
                    (lower.ptr + (c.ptr - lower.ptr) + c.size + (stop lower - stop c)) right e
                    (omega arith) t,
              ),
            ),
          )
          lo (λ va h. ground arith),
    )
    | inl same ↦ rw same (at_start left b (omega (arith, (==_iff _ _).0 same)))
  ]
    where
      extension : Chunk
      extension = record lower { ptr = stop c; size = stop lower - stop c }

      -- The new chunk starts where `lower` does.
      at_start :
          (left : List Chunk)
          → Back p left lower.ptr
          → c.ptr ≡ lower.ptr
          → Placed p e c (rezip left (lower ∷ right)) (elim left [
            | [] ↦ err fault
            | lower2 ∷ left ↦
                if is_compatible c lower2 && leb c.ptr (stop lower2)
                then ok (
                    rezip (record lower2 { size = stop c - lower2.ptr } ∷ left) (extension ∷ right))
                else ok (rezip (lower2 ∷ left) (c ∷ extension ∷ right))
          ])
      at_start [] b q = absurd (omega arith)
      at_start (lower2 ∷ left) b q =
          elim (Bool-cases (is_compatible c lower2 && leb c.ptr (stop lower2))) [
            | inl joined ↦ rw joined (
              _,
              refl,
              rezip-Inserted p left lower2.ptr (lower2 ∷ lower ∷ right) _ e c b.1
                  (
                    refl,
                    (
                      omega (arith, b.0),
                      Tiles-shift (stop lower) (lower2.ptr + lower2.size + lower.size) right e
                          (omega (arith, b.0)) t,
                    ),
                  )
                  (
                    refl,
                    (
                      omega (arith, b.0),
                      Tiles-shift (stop lower)
                          (lower2.ptr + (stop c - lower2.ptr) + (stop lower - stop c)) right e
                          (omega (arith, b.0)) t,
                    ),
                  )
                  (omega (arith, b.0)) (λ va h. ground (arith, is_compatible-kind c lower2, b.0)),
            )
            | inr apart ↦ rw apart (
              _,
              refl,
              rezip-Inserted p (lower2 ∷ left) lower.ptr (lower ∷ right) _ e c b (refl, t)
                  (
                    omega arith,
                    (
                      omega arith,
                      Tiles-shift (stop lower) (lower.ptr + c.size + (stop lower - stop c)) right e
                          (omega arith) t,
                    ),
                  )
                  lo (λ va h. ground arith),
            )
          ]

  join_upper-Tiles :
      (upper : List Chunk) → Tiles (stop c) upper e → Tiles c.ptr (join_upper c upper) e
  unfolding join_upper
  join_upper-Tiles [] t = (refl, t)
  join_upper-Tiles (u ∷ upper) t = elim (Bool-cases (is_compatible c u && leb u.ptr (stop c))) [
    | inl joined ↦
        rw joined (
          refl,
          Tiles-shift (stop c + u.size) (c.ptr + (c.size + u.size)) upper e (omega arith) t.1,
        )
    | inr apart ↦ rw apart (refl, t)
  ]

  view-join_upper :
      (upper : List Chunk) (va : ℕ)
      → Tiles (stop c) upper e
      → view (join_upper c upper) va ≡ (if covers c va then some (kind c) else view upper va)
  unfolding join_upper view
  view-join_upper [] va t = refl
  view-join_upper (u ∷ upper) va t = elim (Bool-cases (is_compatible c u && leb u.ptr (stop c))) [
    | inl joined ↦ rw joined (ground (arith, is_compatible-kind c u))
    | inr apart ↦ rw apart refl
  ]

  place-Placed :
      (lower : Chunk) (left right : List Chunk)
      → Back p left lower.ptr
      → Tiles (stop lower) right e
      → lower.ptr ≤ c.ptr
      → c.ptr < stop lower
      → Placed p e c
          (rezip left (lower ∷ right))
          (place c lower left (trim (stop c) (erase_covered (stop c) right)))
  unfolding place rezip view
  place-Placed lower left right b t lo near = elim (Bool-cases (ltb (stop c) (stop lower))) [
    | inl past ↦
        let early : stop c < stop lower = ltb→lt _ _ past in
        let differs : ((lower.ptr == c.ptr) && (lower.size == c.size)) ≡ false = ground arith in
        rw (trim-past (stop lower) right e (stop c) t early, differs, past)
          (split_lower-Placed lower left right b t lo early)
    | inr covered ↦ within (ground arith) covered
  ]
    where
      upper : List Chunk
      upper = trim (stop c) (erase_covered (stop c) right)

      within :
          stop lower ≤ stop c
          → ltb (stop c) (stop lower) ≡ false
          → Placed p e c (rezip left (lower ∷ right)) (place c lower left upper)
      within far covered = elim (Bool-cases ((lower.ptr == c.ptr) && (lower.size == c.size))) [
        | inl same ↦ rw same (
          _,
          refl,
          rezip-Inserted p left lower.ptr (lower ∷ right) _ e c b (refl, t)
              (refl, Tiles-shift (stop c) (lower.ptr + lower.size) upper e (ground arith) tu) lo
              (λ va h. ground (arith, vu va)),
        )
        | inr other ↦
            rw (other, covered)
              (elim (Bool-cases (is_compatible c lower && leb c.ptr (stop lower))) [
                | inl joined ↦ rw joined (
                  _,
                  refl,
                  rezip-Inserted p left lower.ptr (lower ∷ right) _ e c b (refl, t)
                      (
                        refl,
                        Tiles-shift (stop c) (lower.ptr + (stop c - lower.ptr)) upper e
                            (omega arith) tu,
                      )
                      lo (λ va h. ground (arith, vu va, is_compatible-kind c lower)),
                )
                | inr apart ↦
                    rw (apart, lt→ltb c.ptr (stop lower) near)
                      (
                        _,
                        refl,
                        rezip-Inserted p left lower.ptr (lower ∷ right) _ e c b (refl, t)
                            (
                              refl,
                              Tiles-shift c.ptr (lower.ptr + (c.ptr - lower.ptr))
                                  (join_upper c upper) e (omega arith) (join_upper-Tiles upper tu),
                            )
                            lo (λ va h. ground (arith, vu va, view-join_upper upper va tu)),
                      )
              ])
      ]
        where
          tu : Tiles (stop c) upper e
          tu = trim-Tiles (stop lower) right e (stop c) t far fit

          vu : (va : ℕ) → stop c ≤ va → view upper va ≡ view right va
          vu va h = view-trim (stop lower) right e (stop c) va t far h

  -- The search stops behind the chunk that holds the start.
  upper_bound-Placed :
      (lower : Chunk) (left right : List Chunk)
      → Back p left lower.ptr
      → Tiles (stop lower) right e
      → lower.ptr ≤ c.ptr
      → Placed p e c
          (rezip left (lower ∷ right))
          (insert_at c (upper_bound c.ptr (lower ∷ left) right))
  unfolding upper_bound insert_at rezip
  upper_bound-Placed lower left [] b t lo = place-Placed lower left [] b t lo (omega (arith, t))
  upper_bound-Placed lower left (d ∷ right) b t lo = elim (Bool-cases (ltb c.ptr d.ptr)) [
    | inl after ↦ rw after (place-Placed lower left (d ∷ right) b t lo (ground arith))
    | inr before ↦ rw before (
        upper_bound-Placed d (lower ∷ left) right (sym t.0, b)
          (Tiles-shift (stop lower + d.size) (stop d) right e (omega (arith, t.0)) t.1)
          (ground arith))
  ]

  -- `InsertChunk` on chunks that lie side by side from `p` to `e`, with a chunk that is not empty,
  -- starts past `p` and ends by `e`: it returns, the chunks still lie side by side from `p` to `e`,
  -- the range of the new chunk has its permission, state and attributes, and every other address
  -- keeps its own.
  pub insert_chunk_lem :
      (chunks : List Chunk)
      → Tiles p chunks e
      → (after : List Chunk) × (insert_chunk c chunks ≡ ok after) × Inserted p e c chunks after
  unfolding insert_chunk upper_bound rezip
  insert_chunk_lem [] t = absurd (omega (arith, t))
  insert_chunk_lem (d ∷ chunks) t = rw (ltb-false c.ptr d.ptr (omega (arith, t.0))) (
      upper_bound-Placed d [] chunks (sym t.0)
        (Tiles-shift (p + d.size) (stop d) chunks e (omega (arith, t.0)) t.1) (omega (arith, t.0)))
