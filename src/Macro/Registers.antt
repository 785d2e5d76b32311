-- ===== src/Macro/Registers.antt =====
-- The register file of macro_interpreter.cpp through a run.
use skyline.Base.{
  ℕ, suc, zero, ◌+◌, ◌≡◌, Bool, true, false, ◌==◌, arith, ok, err, Ensures, Ensures->>=,
  Ensures-any, Ensures-if, get_or, set, length, length-set, List, [], ◌∷◌, refl, Option, some, none,
  or_throw, ◌>>◌, guard, ◌∙◌, ◌≢◌, get_or-set_ne, Bool-cases, inl, inr, fault, ltb,
}
use skyline.Macro.Opcode
use skyline.Macro.Opcode.{
  Operation, alu_register, add_immediate, bitfield_replace, bitfield_extract_shift_left_immediate,
  bitfield_extract_shift_left_register, read_immediate, branch, AssignmentOperation,
  ignore_and_fetch, move, move_and_set_method, fetch_and_send, move_and_send, fetch_and_set_method,
  move_and_set_method_then_fetch_and_send, move_and_set_method_then_send_high,
}
use skyline.Macro.Alu.{handle_alu}
use skyline.Macro.{Engine}
use skyline.Macro

module _ (e : Engine) where
  abbrev I : Type 0
  I = Macro.Interpreter e

  abbrev pub IsFile : List ℕ → Type 0
  IsFile rs = (length rs ≡ 8) × (get_or rs 0 0 ≡ 0)

  abbrev pub HasFile : Macro.Interpreter e → Type 0
  HasFile m = IsFile m.registers

  set-IsFile : (rs : List ℕ) (r v : ℕ) → r ≢ 0 → IsFile rs → IsFile (set rs r v)
  set-IsFile rs r v ne h = (length-set rs r v ∙ h.0, get_or-set_ne rs v 0 ne ∙ h.1)

  write_register-HasFile : (r v : ℕ) (m : I) → HasFile m → HasFile (Macro.write_register e r v m)
  unfolding Macro.write_register
  write_register-HasFile r v m h = elim (Bool-cases (r == 0)) [
    | inl z ↦ rw z h
    | inr nz ↦ rw nz (set-IsFile m.registers r v (ground arith) h)
  ]

  fetch-HasFile : (m : I) → HasFile m → Ensures (λ r. HasFile (r.1)) (Macro.fetch e m)
  unfolding Macro.fetch
  fetch-HasFile m h = go m.argument
    where
      go :
          (xs : List ℕ)
          → Ensures {A = ℕ × I}
              (λ r. HasFile (r.1))
              (elim xs [ [] ↦ err fault | x ∷ rest ↦ ok (x, record m { argument = rest }) ])
      go [] = tt
      go (x ∷ xs) = h

  handle_assignment-HasFile :
      (a : AssignmentOperation) (r v : ℕ) (m : I)
      → HasFile m
      → Ensures HasFile (Macro.handle_assignment e a r v m)
  unfolding Macro.handle_assignment
  handle_assignment-HasFile ignore_and_fetch r v m h =
      Ensures->>= _ HasFile (Macro.fetch e m) _ (fetch-HasFile m h)
        λ p k. write_register-HasFile r (p.0) (p.1) k
  handle_assignment-HasFile move r v m h = write_register-HasFile r v m h
  handle_assignment-HasFile move_and_set_method r v m h = write_register-HasFile r v m h
  handle_assignment-HasFile fetch_and_send r v m h =
      Ensures->>= _ HasFile (Macro.fetch e m) _ (fetch-HasFile m h)
        λ p k. write_register-HasFile r (p.0) (p.1) k
  handle_assignment-HasFile move_and_send r v m h = write_register-HasFile r v m h
  handle_assignment-HasFile fetch_and_set_method r v m h =
      Ensures->>= _ HasFile (Macro.fetch e m) _ (fetch-HasFile m h)
        λ p k. write_register-HasFile r (p.0) (p.1) k
  handle_assignment-HasFile move_and_set_method_then_fetch_and_send r v m h =
      Ensures->>= _ HasFile (Macro.fetch e (Macro.set_method e v (Macro.write_register e r v m))) _
        (fetch-HasFile _ (write_register-HasFile r v m h)) λ p k. k
  handle_assignment-HasFile move_and_set_method_then_send_high r v m h =
      write_register-HasFile r v m h

  shifted :
      (b : Bool) (v : ℕ) (m : I)
      → HasFile m
      → Ensures {A = ℕ × I} (λ r. HasFile (r.1)) (guard b fault >> ok (v, m))
  shifted true v m h = h
  shifted false v m h = tt

  compute-HasFile :
      (o : Operation) (op : ℕ) (m : I)
      → HasFile m
      → Ensures (λ r. HasFile (r.1)) (Macro.compute e o op m)
  unfolding Macro.compute
  compute-HasFile alu_register op m h =
      Ensures->>= _ _ (handle_alu (Opcode.alu_operation op) m.carry_flag _ _) _ (Ensures-any _)
        λ p k. h
  compute-HasFile add_immediate op m h = h
  compute-HasFile bitfield_replace op m h = h
  compute-HasFile bitfield_extract_shift_left_immediate op m h =
      shifted (ltb (Macro.register e m (Opcode.src_a op)) 32) _ m h
  compute-HasFile bitfield_extract_shift_left_register op m h =
      shifted (ltb (Macro.register e m (Opcode.src_a op)) 32) _ m h
  compute-HasFile read_immediate op m h = h
  compute-HasFile branch op m h = tt

  assign-HasFile :
      (o : Operation) (op : ℕ) (m : I) → HasFile m → Ensures HasFile (Macro.assign e o op m)
  unfolding Macro.assign
  assign-HasFile o op m h =
      Ensures->>= _ HasFile (Macro.compute e o op m) _ (compute-HasFile o op m h)
        λ p k. handle_assignment-HasFile (Opcode.assignment_operation op) _ (p.0) (p.1) k

  delay_slot-HasFile :
      (o : Operation) (op target : ℕ) (m : I)
      → HasFile m
      → Ensures HasFile (Macro.delay_slot e o op target m)
  unfolding Macro.delay_slot
  delay_slot-HasFile branch op target m h = tt
  delay_slot-HasFile o op target m h =
      Ensures->>= HasFile HasFile (Macro.assign e o op m) _ (assign-HasFile o op m h) λ p k. k

  step_delayed-HasFile :
      (code : List ℕ) (target : ℕ) (m : I)
      → HasFile m
      → Ensures HasFile (Macro.step_delayed e code target m)
  unfolding Macro.step_delayed
  step_delayed-HasFile code target m h =
      Ensures->>= (λ op. Unit {0}) HasFile (Macro.current e code m) _ (Ensures-any _)
        λ op _.
          Ensures->>= (λ o. Unit {0}) HasFile (Macro.operation_of e op) _ (Ensures-any _)
            λ o _. delay_slot-HasFile o op target m h

  finish-HasFile :
      (code : List ℕ) (op : ℕ) (m : I)
      → HasFile m
      → Ensures (λ r. HasFile (r.1)) (Macro.finish e code op m)
  unfolding Macro.finish
  finish-HasFile code op m h = elim (Bool-cases (Opcode.exit op)) [
    | inl x ↦ rw x (
        Ensures->>= HasFile (λ r. HasFile (r.1))
          (Macro.step_delayed e code (m.opcode + 1) (Macro.advance e m)) _
          (step_delayed-HasFile code (m.opcode + 1) (Macro.advance e m) h) λ p k. k)
    | inr x ↦ rw x h
  ]

  take_branch-HasFile :
      (code : List ℕ) (op : ℕ) (m : I)
      → HasFile m
      → Ensures (λ r. HasFile (r.1)) (Macro.take_branch e code op m)
  unfolding Macro.take_branch
  take_branch-HasFile code op m h =
      Ensures-if (λ r. HasFile (r.1)) _ _ _
        (Ensures->>= (λ t. Unit {0}) (λ r. HasFile (r.1)) (or_throw (Opcode.jump op m.opcode) fault)
          _ (Ensures-any _)
          λ target _.
            Ensures-if (λ r. HasFile (r.1)) (Opcode.no_delay op) _ _ h
              (Ensures->>= HasFile (λ r. HasFile (r.1))
                (Macro.step_delayed e code target (Macro.advance e m)) _
                (step_delayed-HasFile code target (Macro.advance e m) h) λ p k. k))
        (finish-HasFile code op m h)

  dispatch-HasFile :
      (o : Operation) (code : List ℕ) (op : ℕ) (m : I)
      → HasFile m
      → Ensures (λ r. HasFile (r.1)) (Macro.dispatch e o code op m)
  unfolding Macro.dispatch
  dispatch-HasFile branch code op m h = take_branch-HasFile code op m h
  dispatch-HasFile o code op m h =
      Ensures->>= HasFile (λ r. HasFile (r.1)) (Macro.assign e o op m) _ (assign-HasFile o op m h)
        λ p k. finish-HasFile code op p k

  step-HasFile :
      (code : List ℕ) (m : I) → HasFile m → Ensures (λ r. HasFile (r.1)) (Macro.step e code m)
  unfolding Macro.step
  step-HasFile code m h =
      Ensures->>= (λ op. Unit {0}) (λ r. HasFile (r.1)) (Macro.current e code m) _ (Ensures-any _)
        λ op _.
          Ensures->>= (λ o. Unit {0}) (λ r. HasFile (r.1)) (Macro.operation_of e op) _
            (Ensures-any _) λ o _. dispatch-HasFile o code op m h

  -- A run that has ended has the register file; one that ran out of fuel says nothing.
  abbrev pub Ended : Option I → Type 0
  Ended none = Unit {0}
  Ended (some m) = HasFile m

  run-Ended :
      (code : List ℕ) (fuel : ℕ) (m : I) → HasFile m → Ensures Ended (Macro.run e code fuel m)
  unfolding Macro.run
  run-Ended code zero m h = tt
  run-Ended code (suc fuel) m h =
      Ensures->>= (λ r. HasFile (r.1)) Ended (Macro.step e code m) _ (step-HasFile code m h)
        λ r k. go (r.0) (r.1) (run-Ended code fuel (r.1) k) k
    where
      go :
          (b : Bool) (n : I)
          → Ensures Ended (Macro.run e code fuel n)
          → HasFile n
          → Ensures Ended (elim b [ true ↦ Macro.run e code fuel n | false ↦ ok (some n) ])
      go true n h k = h
      go false n h k = k

  -- Whatever the macro, its arguments and the engine do: where `Execute` returns, there are eight
  -- registers and register 0 holds zero.
  pub execute-Ended :
      (code args : List ℕ) (offset : ℕ) (engine : e.State) (fuel : ℕ)
      → Ensures Ended (Macro.execute e code offset args engine fuel)
  unfolding Macro.execute
  execute-Ended code [] offset engine fuel = tt
  execute-Ended code (x ∷ rest) offset engine fuel = run-Ended code fuel _ (refl, refl)
