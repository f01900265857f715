-- ===== src/Alloc/Overlap.antt =====
-- Slots of a tiled heap: which stay when others are replaced, and that they do not overlap.
use cs162hw.Base.{
  ℕ, ◌+◌, ◌≤◌, ◌<◌, ◌≡◌, ◌≢◌, ◌∙◌, refl, ap, true, false, List, [], ◌∷◌, ◌++◌, Bool-cases, inl, inr,
  ◌⊎◌, ◌==◌, arith,
}
use cs162hw.Alloc.{Slot, slot_size, clear, replace}
use cs162hw.Alloc.Tiles.{Tile, Has, Has-above}

pub Has-append : (ss ts : List Slot) (u : Slot) → Has u ss → Has u (ss ++ ts)
Has-append [] ts u has = elim has [ ]
Has-append (s ∷ ss) ts u (inl same) = inl same
Has-append (s ∷ ss) ts u (inr has) = inr (Has-append ss ts u has)

pub Has-behind : (ss ts : List Slot) (u : Slot) → Has u ts → Has u (ss ++ ts)
Has-behind [] ts u has = has
Has-behind (s ∷ ss) ts u has = inr (Has-behind ss ts u has)

-- The other slots stay, and the new ones are there.
pub replace-old :
    (ss new : List Slot) (a : ℕ) (u : Slot) → Has u ss → u.addr ≢ a → Has u (replace a new ss)
unfolding replace
replace-old [] new a u has ne = elim has [ ]
replace-old (s ∷ ss) new a u has ne = elim (Bool-cases (s.addr == a)) [
  | inl here ↦ rw here (elim has [
    | inl same ↦ absurd (ne (ap (λ x. x.addr) same ∙ ground arith))
    | inr there ↦ Has-behind new ss u there
  ])
  | inr other ↦
      rw other
        (elim has [ inl same ↦ inl same | inr there ↦ inr (replace-old ss new a u there ne) ])
]

pub replace-new :
    (ss new : List Slot) (s u : Slot) → Has s ss → Has u new → Has u (replace s.addr new ss)
unfolding replace
replace-new [] new s u has is = elim has [ ]
replace-new (t ∷ ss) new s u has is = elim (Bool-cases (t.addr == s.addr)) [
  | inl here ↦ rw here (Has-append new ss u is)
  | inr other ↦ rw other (elim has [
    | inl same ↦ absurd (ground (arith, ap (λ x. x.addr) same))
    | inr there ↦ inr (replace-new ss new s u there is)
  ])
]

-- A slot ends where the heap ends, or before; and a used one does not overlap with a free one.
pub Has-below :
    (ss : List Slot) (u : Slot) (a end : ℕ)
    → Tile a ss end
    → Has u ss
    → u.addr + (slot_size + u.size) ≤ end
Has-below [] u a end tile has = elim has [ ]
Has-below (s ∷ []) u a end tile (inl same) = rw same (omega (arith, tile.0, tile.1))
Has-below (s ∷ t ∷ ss) u a end tile (inl same) =
    rw same (omega (arith, tile.0, tile.1.0, Has-below (t ∷ ss) t _ end tile.1 (inl refl)))
Has-below (s ∷ ss) u a end tile (inr there) = Has-below ss u _ end tile.1 there

pub disjoint :
    (ss : List Slot) (u s : Slot) (a end : ℕ)
    → Tile a ss end
    → Has u ss
    → Has s ss
    → u.is_free ≡ false
    → s.is_free ≡ true
    → (u.addr + (slot_size + u.size) ≤ s.addr) ⊎ (s.addr + (slot_size + s.size) ≤ u.addr)
disjoint [] u s a end tile hu hs used free = elim hu [ ]
disjoint (t ∷ ss) u s a end tile (inl eu) (inl es) used free =
    absurd (ground (arith, ap (λ x. x.is_free) eu, ap (λ x. x.is_free) es))
disjoint (t ∷ ss) u s a end tile (inl eu) (inr hs) used free = inl (
    omega (arith, ap (λ x. x.addr) eu, ap (λ x. x.size) eu, tile.0, Has-above ss s _ end tile.1 hs))
disjoint (t ∷ ss) u s a end tile (inr hu) (inl es) used free = inr (
    omega (arith, ap (λ x. x.addr) es, ap (λ x. x.size) es, tile.0, Has-above ss u _ end tile.1 hu))
disjoint (t ∷ ss) u s a end tile (inr hu) (inr hs) used free =
    disjoint ss u s _ end tile.1 hu hs used free

pub clear_in : (a n : ℕ) (memory : ℕ → ℕ) (x : ℕ) → a ≤ x → x < a + n → clear a n memory x ≡ 0
clear_in a n memory x le lt = ground arith

pub clear_out :
    (a n : ℕ) (memory : ℕ → ℕ) (x : ℕ) → (x < a) ⊎ (a + n ≤ x) → clear a n memory x ≡ memory x
clear_out a n memory x out = ground (arith, out)
