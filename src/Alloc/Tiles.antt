-- ===== src/Alloc/Tiles.antt =====
-- The slots tile the heap: each begins where the one before it ends, and the last ends at the
-- break. So no two of them overlap.
use cs162hw.Base.{
  lt→ltb, ℕ, ◌+◌, ◌-◌, ◌≤◌, ◌<◌, ◌≡◌, refl, ap, sym, subst, true, false, none, some, List, [], ◌∷◌,
  ◌++◌, Bool-cases, inl, inr, ◌⊎◌, Option-cases, ◌>>=◌, leb, ◌==◌, arith, ◌&&◌,
}
use cs162hw.Alloc.{
  Slot, Heap, slot_size, wrap, find_list_elem, split_slot, replace, last_slot, tail_is_free, grow,
  extend, increment, absorb,
}

abbrev pub Tile : ℕ → List Slot → ℕ → Type 0
Tile a [] end = a ≡ end
Tile a (s ∷ ss) end = (s.addr ≡ a) × Tile (a + (slot_size + s.size)) ss end

-- Before the first call there is no list.
pub record IsHeap (h : Heap) : Type 0 where
  pub tile : h.is_init ≡ true → Tile (h.head + slot_size) h.slots h.brk

Tile-append :
    (ss ts : List Slot) (a m end : ℕ) → Tile a ss m → Tile m ts end → Tile a (ss ++ ts) end
Tile-append [] ts a m end hs ht = subst (λ x. Tile x ts end) (sym hs) ht
Tile-append (s ∷ ss) ts a m end hs ht = (hs.0, Tile-append ss ts _ m end hs.1 ht)

abbrev pub Has : Slot → List Slot → Type 0
Has s [] = ⊥
Has s (t ∷ ss) = (s ≡ t) ⊎ Has s ss

pub Has-above : (ss : List Slot) (s : Slot) (a end : ℕ) → Tile a ss end → Has s ss → a ≤ s.addr
Has-above [] s a end tile has = elim has [ ]
Has-above (t ∷ ss) s a end tile (inl same) = rw same (omega (arith, tile.0))
Has-above (t ∷ ss) s a end tile (inr has) = omega (arith, Has-above ss s _ end tile.1 has)

pub find-Has : (size : ℕ) (ss : List Slot) (s : Slot) → find_list_elem size ss ≡ some s → Has s ss
unfolding find_list_elem
find-Has size [] s found = cc
find-Has size (t ∷ ss) s found = elim (Bool-cases (t.is_free && leb size t.size)) [
  | inl here ↦ inl (ground (arith, found))
  | inr later ↦ inr (find-Has size ss s (ground (arith, found)))
]

pub wrap-small : (n : ℕ) → n < 18446744073709551616 → wrap n ≡ n
wrap-small n lt = omega arith

-- A split slot takes up the same room.
pub split_slot-Tile :
    (size : ℕ) (s : Slot)
    → size + 36 < 18446744073709551616
    → Tile s.addr (split_slot size s) (s.addr + (slot_size + s.size))
unfolding split_slot
split_slot-Tile size s small = elim (Bool-cases (leb (wrap (size + (slot_size + 4))) s.size)) [
  | inl fits ↦
      rw fits
        (refl, (omega arith, ground (arith, wrap-small (size + (slot_size + 4)) (omega arith))))
  | inr whole ↦ rw whole (refl, refl)
]

addr_eq : (m n : ℕ) → m ≡ n → (n == m) ≡ true
addr_eq m n eq = ground arith

addr_ne : (m n : ℕ) → n < m → (n == m) ≡ false
addr_ne m n lt = ground arith

pub last-Has : (ss : List Slot) (t : Slot) → last_slot ss ≡ some t → Has t ss
unfolding last_slot
last-Has [] t is = cc
last-Has (s ∷ []) t is = inl cc
last-Has (s ∷ u ∷ ss) t is = inr (last-Has (u ∷ ss) t is)

-- Other slots in the place of one of the list.
pub replace-Tile :
    (ss : List Slot) (s : Slot) (new : List Slot) (a end : ℕ)
    → Has s ss
    → Tile a ss end
    → Tile s.addr new (s.addr + (slot_size + s.size))
    → Tile a (replace s.addr new ss) end
unfolding replace
replace-Tile [] s new a end has tile part = elim has [ ]
replace-Tile (t ∷ ss) s new a end (inl same) tile part =
    rw (addr_eq (s.addr) (t.addr) (ap (λ x. x.addr) same)) (
      Tile-append new ss a (a + (slot_size + t.size)) end
        (subst (λ x. Tile x new (x + (slot_size + t.size))) tile.0
          (subst (λ x. Tile x.addr new (x.addr + (slot_size + x.size))) same part))
        tile.1)
replace-Tile (t ∷ ss) s new a end (inr has) tile part =
    rw (addr_ne (s.addr) (t.addr) (omega (arith, tile.0, Has-above ss s _ end tile.1 has)))
      (tile.0, replace-Tile ss s new _ end has tile.1 part)

-- The last slot grows.
module _ (t : Slot) (size : ℕ) (larger : t.size ≤ size) where
  grow-Tile :
      (ss : List Slot) (a end : ℕ)
      → last_slot ss ≡ some t
      → Tile a ss end
      → Tile a
          (replace t.addr (record t { is_free = false; size = size } ∷ []) ss)
          (end + (size - t.size))
  unfolding last_slot replace
  grow-Tile [] a end is tile = cc
  grow-Tile (s ∷ []) a end is tile =
      let same : s.addr ≡ t.addr = cc in
      let size_same : s.size ≡ t.size = cc in
      rw (addr_eq t.addr s.addr (sym same))
        (omega (arith, same, tile.0), omega (arith, size_same, tile.1, larger))
  grow-Tile (s ∷ u ∷ ss) a end is tile =
      let above = Has-above (u ∷ ss) t _ end tile.1 (last-Has (u ∷ ss) t is) in
      rw (addr_ne t.addr s.addr (omega (arith, tile.0, above)))
        (tile.0, grow-Tile (u ∷ ss) _ end is tile.1)

-- Where the search fails, a free slot is too small.
pub find-none :
    (size : ℕ) (ss : List Slot) (t : Slot)
    → find_list_elem size ss ≡ none
    → Has t ss
    → t.is_free ≡ true
    → t.size < size
unfolding find_list_elem
find-none size [] t gone has free = elim has [ ]
find-none size (s ∷ ss) t gone has free = elim (Bool-cases (s.is_free && leb size s.size)) [
  | inl here ↦ absurd (ground (arith, gone))
  | inr later ↦ elim has [
    | inl same ↦ ground (arith, ap (λ x. x.size) same, ap (λ x. x.is_free) same)
    | inr there ↦ find-none size ss t (ground (arith, gone)) there free
  ]
]

pub tail_cases :
    (ss : List Slot)
    → ((t : Slot) × (tail_is_free ss ≡ some t) × (last_slot ss ≡ some t) × (t.is_free ≡ true))
      ⊎ (tail_is_free ss ≡ none)
unfolding tail_is_free
tail_cases ss = elim (Option-cases (last_slot ss)) [
  | inl gone ↦ inr (rw gone refl)
  | inr (t, is) ↦ elim (Bool-cases t.is_free) [
    | inl free ↦ inl (t, rw (is, ◌>>=◌, free) refl, is, free)
    | inr used ↦ inr (rw (is, ◌>>=◌, used) refl)
  ]
]

grow_lem :
    (h : Heap) (size a : ℕ)
    → size + 36 < 18446744073709551616
    → find_list_elem size h.slots ≡ none
    → Tile a h.slots h.brk
    → Tile a (grow h size).1.slots (grow h size).1.brk
unfolding grow
grow_lem h size a small gone tile = elim (tail_cases h.slots) [
  | inl (t, is, last, free) ↦
      let less = find-none size h.slots t gone (last-Has h.slots t last) free in
      elim (Bool-cases (leb (h.brk + (size - t.size)) h.limit)) [
        | inl room ↦ rw (is, grow, room) (grow-Tile t size (omega arith) h.slots a h.brk last tile)
        | inr full ↦ rw (is, grow, full) tile
      ]
  | inr used ↦ elim (Bool-cases (leb (h.brk + wrap (slot_size + size)) h.limit)) [
    | inl room ↦ rw (used, grow, room) (Tile-append h.slots _ a h.brk _ tile (refl, omega arith))
    | inr full ↦ rw (used, grow, full) tile
  ]
]

-- For sizes below 2^63, sbrk is called with a positive increment.
pub extend-grow :
    (h : Heap) (size : ℕ) → size + 36 < 9223372036854775808 → extend h size ≡ grow h size
unfolding extend
extend-grow h size small = rw (lt→ltb (increment h size) 9223372036854775808 below) refl
  where
    below : increment h size < 9223372036854775808
    below =
        unfold increment in
        elim (Option-cases (tail_is_free h.slots)) [
          | inl used ↦
              rw (used, increment)
                (omega (arith, wrap-small (slot_size + size) (omega (arith, small))))
          | inr (t, free) ↦ rw (free, increment) (omega (arith, small))
        ]

pub extend-Tile :
    (h : Heap) (size a : ℕ)
    → size + 36 < 9223372036854775808
    → find_list_elem size h.slots ≡ none
    → Tile a h.slots h.brk
    → Tile a (extend h size).1.slots (extend h size).1.brk
extend-Tile h size a small gone tile =
    rw (extend-grow h size small) (grow_lem h size a (omega (arith, small)) gone tile)

-- What a slot takes in behind it and before it.
pub absorb-Tile :
    (rest : List Slot) (s : Slot) (a end : ℕ)
    → Tile a (s ∷ rest) end
    → Tile a ((absorb s rest).0 ∷ (absorb s rest).1) end
unfolding absorb
absorb-Tile [] s a end tile = tile
absorb-Tile (t ∷ rest) s a end tile = elim (Bool-cases t.is_free) [
  | inr used ↦ rw used tile
  | inl free ↦ simp free (
      absorb-Tile rest (record s { size = s.size + (t.size + slot_size) }) a end
        (tile.0, subst (λ m. Tile m rest end) (omega arith) tile.1.1))
]
