-- ===== src/CommandFifo/Sends.antt =====
-- The loops of soc/host1x/command_fifo.cpp, and the methods that they call.
use skyline.Base.{
  ℕ, zero, suc, ◌+◌, ◌/◌, ◌%◌, ◌≡◌, refl, ap, ◌∙◌, true, false, List, [], ◌∷◌, ◌++◌, ◌==◌,
  if◌then◌else◌, length, arith, Bool-cases, inl, inr, ok,
}
use skyline.CommandFifo.{Call, send, after_send, send_words, send_mask}

-- The methods that a mask selects, from `method` on.
unfoldable pub selected : ℕ → ℕ → ℕ → List ℕ
selected method mask zero = []
selected method mask (suc digits) =
    let rest = selected (suc method) (mask / 2) digits in
    if mask % 2 == 0 then rest else method ∷ rest

-- One call for each method and argument.
unfoldable pub sends : ℕ → List ℕ → List ℕ → List Call
sends target_class [] arguments = []
sends target_class (method ∷ methods) [] = []
sends target_class (method ∷ methods) (x ∷ xs) =
    send target_class method x ++ sends target_class methods xs

-- `count` methods, `stride` apart.
unfoldable pub strided : ℕ → ℕ → ℕ → List ℕ
strided method stride zero = []
strided method stride (suc count) = method ∷ strided (method + stride) stride count

pub send_words_lem :
    (c method stride : ℕ) (xs rest : List ℕ)
    → send_words c method stride (length xs) (xs ++ rest)
      ≡ ok (sends c (strided method stride (length xs)) xs, rest)
unfolding send_words sends strided
send_words_lem c method stride [] rest = refl
send_words_lem c method stride (x ∷ xs) rest =
    rw (send_words_lem c (method + stride) stride xs rest) refl

send_mask-skip :
    (c method mask digits : ℕ) (words : List ℕ)
    → (mask % 2 == 0) ≡ true
    → send_mask c method mask (suc digits) words ≡ send_mask c (suc method) (mask / 2) digits words
unfolding send_mask
send_mask-skip c method mask digits [] e = rw e refl
send_mask-skip c method mask digits (word ∷ words) e = rw e refl

send_mask-take :
    (c method mask digits word : ℕ) (words : List ℕ)
    → (mask % 2 == 0) ≡ false
    → send_mask c method mask (suc digits) (word ∷ words)
      ≡ after_send (send c method word) (send_mask c (suc method) (mask / 2) digits words)
unfolding send_mask
send_mask-take c method mask digits word words e = rw e refl

selected-skip :
    (method mask digits : ℕ)
    → (mask % 2 == 0) ≡ true
    → selected method mask (suc digits) ≡ selected (suc method) (mask / 2) digits
unfolding selected
selected-skip method mask digits e = rw e refl

selected-take :
    (method mask digits : ℕ)
    → (mask % 2 == 0) ≡ false
    → selected method mask (suc digits) ≡ method ∷ selected (suc method) (mask / 2) digits
unfolding selected
selected-take method mask digits e = rw e refl

send_mask-bit :
    (c method mask digits : ℕ) (xs rest : List ℕ)
    → (mask % 2 == 0) ≡ false
    → length xs ≡ suc (length (selected (suc method) (mask / 2) digits))
    → ((ys : List ℕ)
        → length ys ≡ length (selected (suc method) (mask / 2) digits)
        → send_mask c (suc method) (mask / 2) digits (ys ++ rest)
          ≡ ok (sends c (selected (suc method) (mask / 2) digits) ys, rest))
    → send_mask c method mask (suc digits) (xs ++ rest)
      ≡ ok (sends c (method ∷ selected (suc method) (mask / 2) digits) xs, rest)
unfolding sends
send_mask-bit c method mask digits [] rest bit e ih = ground arith
send_mask-bit c method mask digits (x ∷ xs) rest bit e ih =
    rw (send_mask-take c method mask digits x (xs ++ rest) bit, ih xs (omega arith)) refl

no_bits :
    (c method mask : ℕ) (xs rest : List ℕ)
    → length xs ≡ length (selected method mask 0)
    → send_mask c method mask 0 (xs ++ rest) ≡ ok (sends c (selected method mask 0) xs, rest)
unfolding send_mask selected sends
no_bits c method mask [] rest e = refl
no_bits c method mask (x ∷ xs) rest e = ground arith

pub send_mask_lem :
    (c method mask digits : ℕ) (xs rest : List ℕ)
    → length xs ≡ length (selected method mask digits)
    → send_mask c method mask digits (xs ++ rest)
      ≡ ok (sends c (selected method mask digits) xs, rest)
send_mask_lem c method mask zero xs rest e = no_bits c method mask xs rest e
send_mask_lem c method mask (suc digits) xs rest e = elim (Bool-cases (mask % 2 == 0)) [
  | inl skip ↦
      rw
        (
          send_mask-skip c method mask digits (xs ++ rest) skip,
          selected-skip method mask digits skip,
        )
        (send_mask_lem c (suc method) (mask / 2) digits xs rest
          (e ∙ ap length (selected-skip method mask digits skip)))
  | inr bit ↦ rw (selected-take method mask digits bit) (
      send_mask-bit c method mask digits xs rest bit
        (e ∙ ap length (selected-take method mask digits bit))
        (λ ys e. send_mask_lem c (suc method) (mask / 2) digits ys rest e))
]
