-- ===== src/BufferQueue/Ledger.antt =====
-- The ledger of a buffer queue of GraphicBufferProducer.cpp: its slots, their textures, and the nvmap
-- handles that they hold.
use skyline.Base.{
  ℕ, zero, suc, ◌+◌, ◌≡◌, refl, ap, ◌∙◌, List, [], ◌∷◌, Option, none, some, ◌==◌, if◌then◌else◌,
  get_elem?, set, length, length-set, arith, ◌⊎◌, inl, subst, some-injective, replicate,
}
use skyline.BufferQueue.Types.{
  free, dequeued, GraphicBuffer, nvmap_handle, BufferSlot, Producer, init, empty_slot,
}
use skyline.BufferQueue.Slots.{clear, clear_slots, freed_by, freed_by_all, handle_held}

abbrev pub one : ℕ → ℕ → ℕ
one h k = if h == k then 1 else 0

-- How often a handle is in a list of handles.
abbrev pub count : ℕ → List ℕ → ℕ
count h [] = 0
count h (k ∷ ks) = one h k + count h ks

-- What a slot's texture holds of a handle.
abbrev pub held_by : ℕ → Option ℕ → Option GraphicBuffer → ℕ
held_by h none g = 0
held_by h (some t) none = 0
held_by h (some t) (some g) = one h (nvmap_handle g)

abbrev pub held : ℕ → BufferSlot → ℕ
held h b = held_by h b.texture b.graphic_buffer

abbrev pub held_by_all : ℕ → List BufferSlot → ℕ
held_by_all h [] = 0
held_by_all h (b ∷ bs) = held h b + held_by_all h bs

-- A texture needs a buffer.
abbrev pub Backed : Option ℕ → Option GraphicBuffer → Type 0
Backed none g = Unit {0}
Backed (some t) none = ⊥
Backed (some t) (some g) = Unit {0}

abbrev pub IsSlot : BufferSlot → Type 0
IsSlot b = ((b.state ≡ free) ⊎ (b.state ≡ dequeued)) × Backed b.texture b.graphic_buffer

abbrev pub AllSlots : List BufferSlot → Type 0
AllSlots [] = Unit {0}
AllSlots (b ∷ bs) = IsSlot b × AllSlots bs

pub record Ledger (q : List BufferSlot) (duplicated freed : List ℕ) : Type 0 where
  pub size : length q ≡ 16
  pub slots : AllSlots q
  pub balance : (h : ℕ) → count h duplicated ≡ count h freed + held_by_all h q

abbrev pub IsValid : Producer → Type 0
IsValid p = Ledger p.queue p.duplicated p.freed

pub AllSlots-get :
    (q : List BufferSlot) (i : ℕ) {b : BufferSlot} → AllSlots q → get_elem? q i ≡ some b → IsSlot b
AllSlots-get [] i a e = cc
AllSlots-get (x ∷ q) zero {b} a e = subst IsSlot (some-injective e) a.0
AllSlots-get (x ∷ q) (suc i) a e = AllSlots-get q i a.1 e

AllSlots-set :
    (q : List BufferSlot) (i : ℕ) (b : BufferSlot) → AllSlots q → IsSlot b → AllSlots (set q i b)
AllSlots-set [] i b a s = tt
AllSlots-set (x ∷ q) zero b a s = (s, a.1)
AllSlots-set (x ∷ q) (suc i) b a s = (a.0, AllSlots-set q i b a.1 s)

held-set :
    (h : ℕ) (q : List BufferSlot) (i : ℕ) {b : BufferSlot} (c : BufferSlot)
    → get_elem? q i ≡ some b
    → held_by_all h (set q i c) + held h b ≡ held_by_all h q + held h c
held-set h [] i c e = cc
held-set h (x ∷ q) zero c e = omega (arith, ap (held h) (some-injective e))
held-set h (x ∷ q) (suc i) c e = omega (arith, held-set h q i c e)

pub Ledger-set :
    {q : List BufferSlot} {ds fs : List ℕ} (ds' fs' : List ℕ) (i : ℕ) {b : BufferSlot}
    (c : BufferSlot)
    → Ledger q ds fs
    → get_elem? q i ≡ some b
    → IsSlot c
    → ((h : ℕ) → count h ds' + count h fs + held h b ≡ count h ds + count h fs' + held h c)
    → Ledger (set q i c) ds' fs'
Ledger-set {q} {ds} {fs} ds' fs' i {b} c l e s k = record {
  size = length-set q i c ∙ l.size;
  slots = AllSlots-set q i c l.slots s;
  balance = λ h. omega (arith, held-set h q i c e, l.balance h, k h);
}

pub count-handle_held :
    (h : ℕ) (t : Option ℕ) (g : Option GraphicBuffer) (fs : List ℕ)
    → count h (handle_held t g fs) ≡ count h fs + held_by h t g
count-handle_held h none g fs = omega arith
count-handle_held h (some t) none fs = omega arith
count-handle_held h (some t) (some g) fs = omega arith

held-clear_slots : (h : ℕ) (q : List BufferSlot) → held_by_all h (clear_slots q) ≡ 0
unfolding clear_slots
held-clear_slots h [] = refl
held-clear_slots h (b ∷ q) = omega (arith, held-clear_slots h q)

count-freed_by_all :
    (h : ℕ) (q : List BufferSlot) (fs : List ℕ)
    → count h (freed_by_all q fs) ≡ count h fs + held_by_all h q
unfolding freed_by_all
count-freed_by_all h [] fs = omega arith
count-freed_by_all h (b ∷ q) fs = omega (
  arith,
  count-freed_by_all h q (freed_by b fs),
  count-handle_held h b.texture b.graphic_buffer fs,
)

clear_slots-AllSlots : (q : List BufferSlot) → AllSlots (clear_slots q)
unfolding clear_slots clear
clear_slots-AllSlots [] = tt
clear_slots-AllSlots (b ∷ q) = ((inl refl, tt), clear_slots-AllSlots q)

length-clear_slots : (q : List BufferSlot) → length (clear_slots q) ≡ length q
unfolding clear_slots
length-clear_slots [] = refl
length-clear_slots (b ∷ q) = ap suc (length-clear_slots q)

pub Ledger-clear_all :
    {q : List BufferSlot} {ds fs : List ℕ}
    → Ledger q ds fs
    → Ledger (clear_slots q) ds (freed_by_all q fs)
Ledger-clear_all {q} {ds} {fs} l = record {
  size = length-clear_slots q ∙ l.size;
  slots = clear_slots-AllSlots q;
  balance = λ h. omega (arith, held-clear_slots h q, count-freed_by_all h q fs, l.balance h);
}

AllSlots-replicate : (n : ℕ) (b : BufferSlot) → IsSlot b → AllSlots (replicate n b)
AllSlots-replicate zero b s = tt
AllSlots-replicate (suc n) b s = (s, AllSlots-replicate n b s)

pub init-IsValid : IsValid init
init-IsValid = record {
  size = refl;
  slots = AllSlots-replicate 16 empty_slot (inl refl, tt);
  balance = λ h. refl;
}
