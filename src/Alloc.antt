-- ===== src/Alloc.antt =====
-- hw3/mm_alloc.c: the allocator. The list of slots is in the order of their addresses; `slots`
-- are those behind the first, which has no data and is never free. The headers are the slots;
-- `memory` is for the bytes of the data. Nothing else calls sbrk.
pub mod Tiles
pub mod Joins
pub mod Calls
pub mod Overlap
pub mod Block
pub mod Freed
pub mod Realloc
mod Tests
use cs162hw.Base.{
  ℕ, zero, suc, ◌+◌, ◌-◌, ◌%◌, ◌^◌, Bool, true, false, ◌&&◌, ◌||◌, Option, none, some, List, [],
  ◌∷◌, ◌++◌, ltb, leb, ◌==◌, if◌then◌else◌, ◌>>=◌,
}

-- struct slot, at its address.
pub record Slot : Type 0 where
  pub addr : ℕ
  pub is_free : Bool
  pub size : ℕ

-- sizeof(slot): two pointers, a flag and a size.
abbrev pub slot_size : ℕ
slot_size = 32

-- head, the list, whether it is set up, and the process: its break, how far it may grow and shrink,
-- and whether it has written behind it.
pub record Heap : Type 0 where
  pub is_init : Bool
  pub head : ℕ
  pub slots : List Slot
  pub brk : ℕ
  pub limit : ℕ
  pub floor : ℕ
  pub crashed : Bool
  pub memory : ℕ → ℕ

-- Sums of type size_t.
abbrev pub wrap : ℕ → ℕ
wrap n = n % 18446744073709551616

-- memset(a, 0, n) and memcpy(dst, src, n)
abbrev pub clear : ℕ → ℕ → (ℕ → ℕ) → ℕ → ℕ
clear a n memory x = if leb a x && ltb x (a + n) then 0 else memory x

abbrev pub copy : ℕ → ℕ → ℕ → (ℕ → ℕ) → ℕ → ℕ
copy dst src n memory x =
    if leb dst x && ltb x (dst + n) then memory (src + (x - dst)) else memory x

-- init_malloc. A failure of this sbrk is not looked at.
unfoldable pub init_malloc : Heap → Heap
init_malloc h = record h { is_init = true; head = h.brk; slots = []; brk = h.brk + slot_size }

-- find_list_elem
unfoldable pub find_list_elem : ℕ → List Slot → Option Slot
find_list_elem size [] = none
find_list_elem size (s ∷ ss) =
    if s.is_free && leb size s.size then some s else find_list_elem size ss

-- find_list_elem_data_location
unfoldable pub find_data : ℕ → List Slot → Option Slot
find_data p [] = none
find_data p (s ∷ ss) = if s.addr + slot_size == p then some s else find_data p ss

-- split_slot, and the mark that the first part is in use.
unfoldable pub split_slot : ℕ → Slot → List Slot
split_slot size s =
    if leb (wrap (size + (slot_size + 4))) s.size
    then record s { is_free = false; size = size }
      ∷ record {
        addr = s.addr + slot_size + size;
        is_free = true;
        size = s.size - size - slot_size;
      }
      ∷ []
    else record s { is_free = false } ∷ []

-- The slot at an address makes room for others.
unfoldable pub replace : ℕ → List Slot → List Slot → List Slot
replace a new [] = []
replace a new (s ∷ ss) = let rest = replace a new ss in if s.addr == a then new ++ ss else s ∷ rest

-- tail, where there is one behind the head.
unfoldable pub last_slot : List Slot → Option Slot
last_slot [] = none
last_slot (s ∷ []) = some s
last_slot (s ∷ t ∷ ss) = last_slot (t ∷ ss)

unfoldable pub tail_is_free : List Slot → Option Slot
tail_is_free ss = last_slot ss >>= λ t. if t.is_free then some t else none

-- mm_malloc behind the search, for a new slot at the end, where sbrk is called with a positive
-- increment.
unfoldable pub grow : Heap → ℕ → Option ℕ × Heap
grow h size = elim (tail_is_free h.slots) [
  | some t ↦
      if leb (h.brk + (size - t.size)) h.limit
      then (
        some (t.addr + slot_size),
        record h {
          slots = replace t.addr (record t { is_free = false; size = size } ∷ []) h.slots;
          brk = h.brk + (size - t.size);
          memory = clear (t.addr + slot_size) size h.memory;
        },
      )
      else (none, h)
  | none ↦
      if leb (h.brk + wrap (slot_size + size)) h.limit
      then (
        some (h.brk + slot_size),
        record h {
          slots = h.slots ++ record { addr = h.brk; is_free = false; size = size } ∷ [];
          brk = h.brk + wrap (slot_size + size);
          memory = clear h.brk (wrap (slot_size + size)) h.memory;
        },
      )
      else (none, h)
]

-- The argument of sbrk in mm_malloc, as a size_t.
unfoldable pub increment : Heap → ℕ → ℕ
increment h size = elim (tail_is_free h.slots) [
  | some t ↦ size - t.size
  | none ↦ wrap (slot_size + size)
]

-- mm_malloc behind the search. An increment of 2^63 or more is negative for sbrk: it lowers the
-- break, and memset writes behind it; or it would pass the start of the heap, and sbrk fails.
unfoldable pub extend : Heap → ℕ → Option ℕ × Heap
extend h size =
    let by = increment h size in
    if ltb by 9223372036854775808 then grow h size else (
      none,
      record h { crashed = h.crashed || leb (h.floor + (18446744073709551616 - by)) h.brk },
    )

-- mm_malloc on a list that is set up; `none` is NULL.
unfoldable pub malloc_ready : Heap → ℕ → Option ℕ × Heap
malloc_ready h size = if size == 0 then (none, h) else elim (find_list_elem size h.slots) [
  | some s ↦ (
    some (s.addr + slot_size),
    record h {
      slots = replace s.addr (split_slot size s) h.slots;
      memory = clear (s.addr + slot_size) s.size h.memory;
    },
  )
  | none ↦ extend h size
]

abbrev pub ready : Heap → Heap
ready h = if h.is_init then h else init_malloc h

-- mm_malloc
unfoldable pub mm_malloc : Heap → ℕ → Option ℕ × Heap
mm_malloc h size = malloc_ready (ready h) size

-- merge_free_space: the free slots behind a slot, and those before it.
unfoldable pub absorb : Slot → List Slot → Slot × List Slot
absorb s [] = (s, [])
absorb s (t ∷ rest) =
    let merged = absorb (record s { size = s.size + (t.size + slot_size) }) rest in
    if t.is_free then merged else (s, t ∷ rest)

unfoldable pub merge_before : List Slot → Slot → List Slot × Slot
merge_before [] s = ([], s)
merge_before (b ∷ before) s =
    let merged = merge_before before (record b { size = b.size + (s.size + slot_size) }) in
    if b.is_free then merged else (b ∷ before, s)

-- The list again, from the slots before a place in reverse order.
unfoldable pub rejoin : List Slot → List Slot → List Slot
rejoin [] ss = ss
rejoin (b ∷ before) ss = rejoin before (b ∷ ss)

-- The slot at an address is set free and merged; the slot that comes of it, and the list.
unfoldable pub free_at : List Slot → ℕ → List Slot → Option (Slot × List Slot)
free_at before a [] = none
free_at before a (s ∷ rest) =
    let later = free_at (s ∷ before) a rest in
    let (s1, rest1) = absorb (record s { is_free = true }) rest in
    let (before1, s2) = merge_before before s1 in
    if s.addr + slot_size == a then some (s2, rejoin before1 (s2 ∷ rest1)) else later

-- mm_free; `none` where the pointer is to no slot and NULL is read.
unfoldable pub mm_free : Heap → Option ℕ → Option Heap
mm_free h none = some h
mm_free h (some p) = free_at [] p h.slots >>= λ (s, slots).
    some (record h { slots = slots; memory = clear (s.addr + slot_size) s.size h.memory })

-- mm_realloc
unfoldable pub mm_realloc : Heap → Option ℕ → ℕ → Option (Option ℕ × Heap)
mm_realloc h ptr zero = mm_free h ptr >>= λ h'. some (none, h')
mm_realloc h none (suc n) = some (mm_malloc h (suc n))
mm_realloc h (some p) (suc n) =
    let (new, h') = mm_malloc h (suc n) in
    elim new [
      | none ↦ some (none, h')
      | some q ↦ find_data p h'.slots >>= λ s.
          let moved = if leb s.size (suc n) then s.size else suc n in
          mm_free (record h' { memory = copy q p moved h'.memory }) (some p) >>= λ h''.
          some (some q, h'')
    ]
