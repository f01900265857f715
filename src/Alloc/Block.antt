-- ===== src/Alloc/Block.antt =====
-- What a caller of mm_malloc gets.
use cs162hw.Base.{
  ℕ, ◌+◌, ◌-◌, ◌≤◌, ◌<◌, ◌≡◌, ◌∙◌, refl, ap, sym, subst, true, false, Option, none, some, List, [],
  ◌∷◌, ◌++◌, Bool-cases, Option-cases, inl, inr, ◌⊎◌, leb, ◌==◌, arith, ◌&&◌, if◌then◌else◌,
}
use cs162hw.Alloc.{
  Slot, Heap, slot_size, wrap, clear, init_malloc, find_list_elem, split_slot, replace, last_slot,
  grow, malloc_ready, mm_malloc,
}
use cs162hw.Alloc.Tiles.{Tile, IsHeap, Has, find-Has, last-Has, tail_cases, wrap-small, extend-grow}
use cs162hw.Alloc.Overlap.{
  Has-append, Has-behind, replace-old, replace-new, Has-below, disjoint, clear_in, clear_out,
}

-- The block at `q` of `g`, which comes of a heap `h`: a used slot of at least the size, zeroed; and
-- every block that was in use is in use, apart from the new one and with the bytes that it had.
abbrev pub Block : Heap → ℕ → ℕ → Heap → Type 0
Block h size q g =
    ((s : Slot) × Has s g.slots × (s.is_free ≡ false) × (s.addr + slot_size ≡ q) × (size ≤ s.size))
    × ((x : ℕ) → q ≤ x → x < q + size → g.memory x ≡ 0)
    × ((u : Slot)
        → Has u h.slots
        → u.is_free ≡ false
        → Has u g.slots
          × ((u.addr + (slot_size + u.size) ≤ q) ⊎ (q + size ≤ u.addr))
          × ((x : ℕ)
              → u.addr + slot_size ≤ x
              → x < u.addr + (slot_size + u.size)
              → g.memory x ≡ h.memory x))

split-used :
    (size : ℕ) (s : Slot)
    → size ≤ s.size
    → (t : Slot) × Has t (split_slot size s)
      × (t.is_free ≡ false)
      × (t.addr ≡ s.addr)
      × (size ≤ t.size)
unfolding split_slot
split-used size s le = elim (Bool-cases (leb (wrap (size + (slot_size + 4))) s.size)) [
  | inl fits ↦
      rw fits (record s { is_free = false; size = size }, inl refl, refl, refl, omega arith)
  | inr whole ↦ rw whole (record s { is_free = false }, inl refl, refl, refl, le)
]

find-fits :
    (size : ℕ) (ss : List Slot) (s : Slot)
    → find_list_elem size ss ≡ some s
    → (s.is_free ≡ true) × (size ≤ s.size)
unfolding find_list_elem
find-fits size [] s found = cc
find-fits size (t ∷ ss) s found = elim (Bool-cases (t.is_free && leb size t.size)) [
  | inl here ↦ ground (arith, found)
  | inr later ↦ find-fits size ss s (ground (arith, found))
]

module _ (h : Heap) (size a : ℕ) (tile : Tile a h.slots h.brk) where
  found-Block :
      (s : Slot)
      → find_list_elem size h.slots ≡ some s
      → Block h size (s.addr + slot_size) (record h {
        slots = replace s.addr (split_slot size s) h.slots;
        memory = clear (s.addr + slot_size) s.size h.memory;
      })
  found-Block s found =
      let has = find-Has size h.slots s found in
      let (free, fits) = find-fits size h.slots s found in
      let (t, is, used, same, le) = split-used size s fits in
      (
        (t, replace-new h.slots (split_slot size s) s t has is, used, omega (arith, same), le),
        (λ x from to. clear_in (s.addr + slot_size) s.size h.memory x from (omega arith)),
        λ u hu uu.
            let apart = disjoint h.slots u s a h.brk tile hu has uu free in
            (
              replace-old h.slots (split_slot size s) s.addr u hu (λ eq. elim apart [
                | inl below ↦ omega (arith, eq, below)
                | inr above ↦ omega (arith, eq, above)
              ]),
              elim apart [
                | inl below ↦ inl (omega (arith, below))
                | inr above ↦ inr (omega (arith, above))
              ],
              λ x from to. clear_out (s.addr + slot_size) s.size h.memory x (elim apart [
                | inl below ↦ inl (omega (arith, below))
                | inr above ↦ inr (omega (arith, above))
              ]),
            ),
      )

last-end :
    (ss : List Slot) (t : Slot) (a end : ℕ)
    → Tile a ss end
    → last_slot ss ≡ some t
    → t.addr + (slot_size + t.size) ≡ end
unfolding last_slot
last-end [] t a end tile is = cc
last-end (s ∷ []) t a end tile is =
    let same : s.addr ≡ t.addr = cc in
    let size_same : s.size ≡ t.size = cc in omega (arith, same, size_same, tile.0, tile.1)
last-end (s ∷ u ∷ ss) t a end tile is = last-end (u ∷ ss) t _ end tile.1 is

module _ (h : Heap) (size a : ℕ) (tile : Tile a h.slots h.brk) where
  -- The last slot is free and grows.
  grown-Block :
      (t : Slot)
      → last_slot h.slots ≡ some t
      → t.is_free ≡ true
      → Block h size (t.addr + slot_size) (record h {
        slots = replace t.addr (record t { is_free = false; size = size } ∷ []) h.slots;
        brk = h.brk + (size - t.size);
        memory = clear (t.addr + slot_size) size h.memory;
      })
  grown-Block t is free =
      let has = last-Has h.slots t is in
      let new : Slot = record t { is_free = false; size = size } in
      let end = last-end h.slots t a h.brk tile is in
      (
        (new, replace-new h.slots (new ∷ []) t new has (inl refl), refl, refl, omega arith),
        (λ x from to. clear_in (t.addr + slot_size) size h.memory x from to),
        λ u hu uu.
            let room = Has-below h.slots u a h.brk tile hu in
            let apart : u.addr + (slot_size + u.size) ≤ t.addr =
              elim (disjoint h.slots u t a h.brk tile hu has uu free) [
                | inl below ↦ below
                | inr above ↦ absurd (omega (arith, above, room, end))
              ] in
            (
              replace-old h.slots (new ∷ []) t.addr u hu (λ eq. omega (arith, eq, apart)),
              inl (omega (arith, apart)),
              λ x from to.
                  clear_out (t.addr + slot_size) size h.memory x (inl (omega (arith, apart))),
            ),
      )

  -- A new slot at the break.
  new-Block :
      (n : ℕ)
      → n ≡ slot_size + size
      → Block h size (h.brk + slot_size) (record h {
        slots = h.slots ++ record { addr = h.brk; is_free = false; size = size } ∷ [];
        brk = h.brk + n;
        memory = clear h.brk n h.memory;
      })
  new-Block n eq =
      let new : Slot = record { addr = h.brk; is_free = false; size = size } in
      (
        (new, Has-behind h.slots (new ∷ []) new (inl refl), refl, refl, omega arith),
        (λ x from to. clear_in h.brk n h.memory x (omega arith) (omega (arith, eq))),
        λ u hu uu.
            let room = Has-below h.slots u a h.brk tile hu in
            (
              Has-append h.slots (new ∷ []) u hu,
              inl (omega (arith, room)),
              λ x from to. clear_out h.brk n h.memory x (inl (omega (arith, room))),
            ),
      )

  grow-Block :
      size + 36 < 18446744073709551616
      → ((grow h size).0 ≡ none)
        ⊎ ((q : ℕ) × ((grow h size).0 ≡ some q) × Block h size q (grow h size).1)
  unfolding grow
  grow-Block small = elim (tail_cases h.slots) [
    | inl (t, is, last, free) ↦ elim (Bool-cases (leb (h.brk + (size - t.size)) h.limit)) [
      | inl room ↦ rw (is, grow, room) (inr (t.addr + slot_size, refl, grown-Block t last free))
      | inr full ↦ rw (is, grow, full) (inl refl)
    ]
    | inr used ↦ elim (Bool-cases (leb (h.brk + wrap (slot_size + size)) h.limit)) [
      | inl room ↦
          rw (used, grow, room)
            (inr (
              h.brk + slot_size,
              refl,
              new-Block (wrap (slot_size + size))
                  (wrap-small (slot_size + size) (omega (arith, small))),
            ))
      | inr full ↦ rw (used, grow, full) (inl refl)
    ]
  ]

abbrev Result : Heap → ℕ → Option ℕ × Heap → Type 0
Result h size r = (r.0 ≡ none) ⊎ ((q : ℕ) × (r.0 ≡ some q) × Block h size q r.1)

module _ (h : Heap) (size : ℕ) (there : h.is_init ≡ true) (some_size : 0 < size) where
  ready-eq : mm_malloc h size ≡ malloc_ready h size
  unfolding mm_malloc
  ready-eq = ap (λ b. malloc_ready (if b then h else init_malloc h) size) there

  nonzero : (size == 0) ≡ false
  nonzero = ground arith

  pub malloc-grow :
      size + 36 < 9223372036854775808
      → find_list_elem size h.slots ≡ none
      → mm_malloc h size ≡ grow h size
  unfolding malloc_ready
  malloc-grow small gone = ready-eq ∙ rw (nonzero, gone) (extend-grow h size small)

  pub malloc-found :
      (s : Slot)
      → find_list_elem size h.slots ≡ some s
      → mm_malloc h size ≡ (
        some (s.addr + slot_size),
        record h {
          slots = replace s.addr (split_slot size s) h.slots;
          memory = clear (s.addr + slot_size) s.size h.memory;
        },
      )
  unfolding malloc_ready
  malloc-found s found = ready-eq ∙ rw (nonzero, found) refl

-- On a heap that is set up and well-formed, mm_malloc of a size that is not 0, and whose sum with
-- the header and the least rest is below 2^63, either returns NULL, or a pointer to a used slot
-- with at least that many bytes, of which those asked for are 0; then every slot that was in use is
-- still there, does not overlap with the bytes asked for, and keeps its own.
pub malloc-Block :
    (h : Heap) (size : ℕ)
    → IsHeap h
    → h.is_init ≡ true
    → 0 < size
    → size + 36 < 9223372036854775808
    → ((mm_malloc h size).0 ≡ none)
      ⊎ ((q : ℕ) × ((mm_malloc h size).0 ≡ some q) × Block h size q (mm_malloc h size).1)
malloc-Block h size inv there some_size small =
    let tile = inv.tile there in
    elim (Option-cases (find_list_elem size h.slots)) [
      | inl gone ↦
          subst (Result h size) (sym (malloc-grow h size there some_size small gone))
            (grow-Block h size (h.head + slot_size) tile (omega (arith, small)))
      | inr (s, found) ↦
          subst (Result h size) (sym (malloc-found h size there some_size s found))
            (inr (s.addr + slot_size, refl, found-Block h size (h.head + slot_size) tile s found))
    ]
