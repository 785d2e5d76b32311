-- ===== src/CommandFifo/Total.antt =====
-- The fuel of the loop over a gather of soc/host1x/command_fifo.cpp.
use skyline.Base.{
  ℕ, zero, suc, ◌+◌, ◌/◌, ◌%◌, ◌≤◌, ◌≡◌, refl, List, [], ◌∷◌, ◌==◌, if◌then◌else◌, length, arith,
  Bool-cases, inl, inr, ok, err, Option, some, Bool, true, false,
}
use skyline.CommandFifo.{
  host1x, Call, send, method_count, offset_mask, class_method_mask, class_id, method_address,
  opcode, Sent, after_send, send_words, send_mask, Processed, with_class, process_header, Outcome,
  after_calls, go_on, process_from, process, immd_data,
}

-- No more than `n` words are left.
abbrev Left : ℕ → Sent → Type 0
Left n (err e) = Unit {0}
Left n (ok (calls, words)) = length words ≤ n

abbrev LeftProcessed : ℕ → Processed → Type 0
LeftProcessed n (err e) = Unit {0}
LeftProcessed n (ok (target, calls, words)) = length words ≤ n

after_send-Left :
    (n m : ℕ) (calls : List Call) (sent : Sent)
    → n ≤ m
    → Left n sent
    → Left m (after_send calls sent)
after_send-Left n m calls (err e) le l = tt
after_send-Left n m calls (ok (more, words)) le l = omega arith

send_words-Left :
    (c method stride count : ℕ) (words : List ℕ)
    → Left (length words) (send_words c method stride count words)
unfolding send_words
send_words-Left c method stride zero words = omega arith
send_words-Left c method stride (suc count) [] = tt
send_words-Left c method stride (suc count) (word ∷ words) =
    after_send-Left (length words) (suc (length words)) _ _ (omega arith)
      (send_words-Left c (method + stride) stride count words)

if-Left : (b : Bool) (n : ℕ) (s t : Sent) → Left n s → Left n t → Left n (if b then s else t)
if-Left true n s t l r = l
if-Left false n s t l r = r

send_mask-Left :
    (c method mask digits : ℕ) (words : List ℕ)
    → Left (length words) (send_mask c method mask digits words)
unfolding send_mask
send_mask-Left c method mask zero words = omega arith
send_mask-Left c method mask (suc digits) [] =
    if-Left (mask % 2 == 0) 0 _ _ (send_mask-Left c (suc method) (mask / 2) digits []) tt
send_mask-Left c method mask (suc digits) (word ∷ words) =
    if-Left (mask % 2 == 0) (suc (length words)) _ _
      (send_mask-Left c (suc method) (mask / 2) digits (word ∷ words))
      (after_send-Left (length words) (suc (length words)) _ _ (omega arith)
        (send_mask-Left c (suc method) (mask / 2) digits words))

with_class-Left :
    (n target : ℕ) (sent : Sent) → Left n sent → LeftProcessed n (with_class target sent)
with_class-Left n target (err e) l = tt
with_class-Left n target (ok (calls, words)) l = l

process_header-Left :
    (target raw : ℕ) (words : List ℕ)
    → LeftProcessed (length words) (process_header target raw words)
unfolding process_header
process_header-Left target raw words = elim (Bool-cases (opcode raw == 0)) [
  | inl e ↦ rw e (
      with_class-Left (length words) (class_id raw) _
        (send_mask-Left (class_id raw) (method_address raw) (class_method_mask raw) 8 words))
  | inr e ↦ rw e (
      with_class-Left (length words) target _ (
        if-Left (opcode raw == 1) _ _ _
          (send_words-Left target (method_address raw) 1 (method_count raw) words)
          (if-Left (opcode raw == 2) _ _ _
            (send_words-Left target (method_address raw) 0 (method_count raw) words)
            (if-Left (opcode raw == 3) _ _ _
              (send_mask-Left target (method_address raw) (offset_mask raw) 16 words)
              (if-Left (opcode raw == 4) (length words)
                (ok (send target (method_address raw) (immd_data raw), words)) (err _) (omega arith)
                tt)))))
]

go_on-returns :
    (more : ℕ → List ℕ → Option Outcome) (n : ℕ) (next : Processed)
    → LeftProcessed n next
    → ((target : ℕ) (rest : List ℕ)
        → length rest ≤ n
        → (outcome : Outcome) × (more target rest ≡ some outcome))
    → (outcome : Outcome) × (go_on more next ≡ some outcome)
go_on-returns more n (err e) l ih = (err e, refl)
go_on-returns more n (ok (target, calls, words)) l ih =
    let (outcome, e) = ih target words l in (after_calls calls outcome, rw e refl)

process_from-returns :
    (fuel target : ℕ) (words : List ℕ)
    → length words ≤ fuel
    → (outcome : Outcome) × (process_from fuel target words ≡ some outcome)
unfolding process_from
process_from-returns fuel target [] le = (ok [], refl)
process_from-returns zero target (raw ∷ words) le = ground arith
process_from-returns (suc fuel) target (raw ∷ words) le =
    go_on-returns (λ t ws. process_from fuel t ws) (length words) _
      (process_header-Left target raw words)
      (λ t rest h. process_from-returns fuel t rest (omega arith))

-- As much fuel as there are words suffices for every gather.
pub process-returns : (words : List ℕ) → (outcome : Outcome) × (process words ≡ some outcome)
unfolding process
process-returns words = process_from-returns (length words) host1x words (omega arith)
