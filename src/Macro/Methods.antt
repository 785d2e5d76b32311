-- ===== src/Macro/Methods.antt =====
-- The method address of macro_interpreter.cpp, and where consecutive sends go.
use skyline.Base.{ℕ, ◌+◌, ◌%◌, ◌^◌, ◌≡◌, refl, List, [], ◌∷◌, arith, ap, ◌∙◌}
use skyline.Macro.{Engine}
use skyline.Macro

module _ (e : Engine) where
  -- One `Send` for each value, as a burst of assignments makes them.
  pub sends : List ℕ → Macro.Interpreter e → Macro.Interpreter e
  sends [] m = m
  sends (x ∷ xs) m = sends xs (Macro.send e x m)

  -- The engine's calls for the values at `start`, `start + stride`, and so on, modulo 2^12.
  pub burst : e.State → ℕ → ℕ → List ℕ → e.State
  burst s start stride [] = s
  burst s start stride (x ∷ xs) =
      burst (e.call_method s (start % 2 ^ 12) x) (start + stride) stride xs

  increment-send :
      (x : ℕ) (m : Macro.Interpreter e) → Macro.increment e (Macro.send e x m) ≡ Macro.increment e m
  unfolding Macro.send
  increment-send x m = omega arith

  address-send :
      (x : ℕ) (m : Macro.Interpreter e)
      → Macro.address e (Macro.send e x m) ≡ (Macro.address e m + Macro.increment e m) % 2 ^ 12
  unfolding Macro.send
  address-send x m = omega arith

  engine-send :
      (x : ℕ) (m : Macro.Interpreter e)
      → (Macro.send e x m).engine ≡ e.call_method m.engine (Macro.address e m % 2 ^ 12) x
  unfolding Macro.send
  engine-send x m = ap (λ a. e.call_method m.engine a x) (omega arith)

  burst-mod :
      (s : e.State) (a b stride : ℕ) (xs : List ℕ)
      → a % 2 ^ 12 ≡ b % 2 ^ 12
      → burst s a stride xs ≡ burst s b stride xs
  unfolding burst
  burst-mod s a b stride [] h = refl
  burst-mod s a b stride (x ∷ xs) h =
      rw h (
        burst-mod (e.call_method s (b % 2 ^ 12) x) (a + stride) (b + stride) stride xs
          (omega arith))

  -- Values that are sent one after another reach the engine in order, at addresses that start at the
  -- method address and advance by the increment, modulo 2^12; the increment stays.
  pub sends_lem :
      (xs : List ℕ) (m : Macro.Interpreter e)
      → ((sends xs m).engine ≡ burst m.engine (Macro.address e m) (Macro.increment e m) xs)
        × (Macro.increment e (sends xs m) ≡ Macro.increment e m)
  unfolding sends burst
  sends_lem [] m = (refl, refl)
  sends_lem (x ∷ xs) m = (
    (sends_lem xs m').0
        ∙ ap (λ i. burst m'.engine (Macro.address e m') i xs) (increment-send x m)
        ∙ burst-mod m'.engine (Macro.address e m') (Macro.address e m + Macro.increment e m)
            (Macro.increment e m) xs (omega (arith, address-send x m))
        ∙ ap (λ s. burst s (Macro.address e m + Macro.increment e m) (Macro.increment e m) xs)
            (engine-send x m),
    (sends_lem xs m').1 ∙ increment-send x m,
  )
    where
      m' : Macro.Interpreter e
      m' = Macro.send e x m
