-- ===== src/Mm/Frames.antt =====
-- mm/pmm.c: the table of physical page frames and the buddy allocator over it. A frame pointer is
-- the frame's index, `none` for NULL. An access behind the table or behind `mm_free_region`, and a
-- use of NULL, is a `fault`.
pub mod Access
pub mod Accounts
pub mod Alloc
pub mod Buddy
pub mod Chain
pub mod Divide
pub mod Detached
pub mod Distinct
pub mod Coverage
pub mod Free
pub mod Handout
pub mod Merge
pub mod Orders
pub mod Reach
pub mod Region
pub mod Remove
pub mod Supply
pub mod Unreserve
mod Tests
use fynaos.Base.{
  ℕ, zero, suc, ◌+◌, ◌-◌, ◌*◌, ◌/◌, ◌^◌, bit_and, bit_or, bit_xor, Bool, true, false, ◌&&◌, not,
  Option, none, some, ℤ, pos, negsuc, ◌==ℤ◌, ltb, leb, ◌==◌, if◌then◌else◌, update, u64, not32,
  invalid_address, M, ok, fault, out_of_fuel, pure, panic, undefined, get, ◌>>=◌, ◌>>◌,
}
use fynaos.Mm.Layout.{page_shift}

abbrev pub frame_allocated : ℕ
frame_allocated = 1

abbrev pub frame_reserved : ℕ
frame_reserved = 2

abbrev pub max_order : ℕ
max_order = 11

-- `struct frame`
pub record Frame : Type 0 where
  pub next : Option ℕ
  pub flags : ℕ
  pub order : ℤ

-- `mm_frames` (the table that it points to), `mm_frames_count` and `mm_free_region`
pub record Frames : Type 0 where
  pub frame : ℕ → Frame
  pub count : ℕ
  pub free_region : ℕ → Option ℕ

unfoldable pub frame_at : ℕ → M Frames Frame
frame_at i s = if ltb i s.count then ok (s.frame i, s) else fault

unfoldable pub set_frame : ℕ → Frame → M Frames (Unit {0})
set_frame i f s = if ltb i s.count then ok (tt, record s { frame = update s.frame i f }) else fault

unfoldable pub free_head : ℕ → M Frames (Option ℕ)
free_head order s = if leb order max_order then ok (s.free_region order, s) else fault

unfoldable pub set_free_head : ℕ → Option ℕ → M Frames (Unit {0})
set_free_head order head s =
    if leb order max_order
    then ok (tt, record s { free_region = update s.free_region order head })
    else fault

-- the use of a pointer that C does not test
unfoldable pub deref : Option ℕ → M Frames ℕ
deref none = undefined
deref (some i) = pure i

-- a shift count and an index from an `int` that must not be negative
unfoldable pub unsigned : ℤ → M Frames ℕ
unsigned (pos n) = pure n
unsigned (negsuc n) = undefined

-- `mm_frames[i].flags &= ~flag` and `|= flag`
abbrev pub clear_flag : Frame → ℕ → Frame
clear_flag f flag = record f { flags = bit_and f.flags (not32 flag) }

abbrev pub add_flag : Frame → ℕ → Frame
add_flag f flag = record f { flags = bit_or f.flags flag }

-- the loop of `unreserve_frame_region` at `begin`, with `limit - begin` rounds left
unreserve_loop : ℕ → ℕ → M Frames (Unit {0})
unreserve_loop zero begin = pure tt
unreserve_loop (suc rounds) begin = do
  f ← frame_at begin
  set_frame begin (clear_flag f frame_reserved)
  unreserve_loop rounds (begin + 1)

unfoldable pub unreserve_frame_region : ℕ → ℕ → M Frames (Unit {0})
unfolding unreserve_loop frame_at set_frame
unreserve_frame_region begin limit = unreserve_loop (limit - begin) begin

-- the two tests of a round of `get_max_order`
order_fits : ℕ → ℕ → ℕ → Bool
order_fits order begin limit =
    bit_and begin (2 ^ order - 1) == 0 && not (leb limit (u64 (begin + 2 ^ order)))

-- The rounds from `order` down. At 0 the last round and the `return 0` behind the loop agree.
max_order_from : ℕ → ℕ → ℕ → ℕ
max_order_from zero begin limit = 0
max_order_from (suc order) begin limit =
    let rest = max_order_from order begin limit in
    if order_fits (suc order) begin limit then suc order else rest

unfoldable pub get_max_order : ℕ → ℕ → ℕ
unfolding max_order_from order_fits
get_max_order begin limit = max_order_from max_order begin limit

-- `init_buddy_allocator`, a round of its loop and the loop; each round moves `begin` on
add_block : ℕ → ℕ → M Frames (Unit {0})
unfolding frame_at set_frame free_head set_free_head
add_block begin order = do
  f ← frame_at begin
  head ← free_head order
  set_frame begin (record f { order = pos order; next = head })
  set_free_head order (some begin)

buddy_loop : ℕ → ℕ → ℕ → M Frames (Unit {0})
buddy_loop zero begin limit = λ _. out_of_fuel
buddy_loop (suc fuel) begin limit = elim (ltb begin limit) [
  | false ↦ pure tt
  | true ↦ do
    add_block begin (get_max_order begin limit)
    buddy_loop fuel (u64 (begin + 2 ^ get_max_order begin limit)) limit
]

unfoldable pub init_buddy_allocator : ℕ → ℕ → M Frames (Unit {0})
unfolding buddy_loop add_block get_max_order
init_buddy_allocator begin limit = buddy_loop (suc (limit - begin)) begin limit

-- the walk of `remove_frame_from_list` up to `target`; the result is `prev`
find_prev : ℕ → ℕ → Option ℕ → Option ℕ → M Frames (Option ℕ)
find_prev target fuel prev none = panic
find_prev target zero prev (some cur) = λ _. out_of_fuel
find_prev target (suc fuel) prev (some cur) = elim (cur == target) [
  | true ↦ pure prev
  | false ↦ do f ← frame_at cur; find_prev target fuel (some cur) f.next
]

-- `if (prev) prev->next = next; else mm_free_region[order] = next;`
set_link : Option ℕ → ℕ → Option ℕ → M Frames (Unit {0})
unfolding frame_at set_frame set_free_head
set_link none order next = set_free_head order next
set_link (some prev) order next = do p ← frame_at prev; set_frame prev (record p { next = next })

-- A list of distinct frames ends within `count` rounds.
unfoldable pub remove_frame_from_list : ℕ → M Frames (Unit {0})
unfolding find_prev set_link frame_at free_head unsigned
remove_frame_from_list target = do
  f ← frame_at target
  order ← unsigned f.order
  head ← free_head order
  s ← get
  prev ← find_prev target s.count none head
  set_link prev order f.next

unfoldable pub divide_buddy : ℕ → M Frames (Unit {0})
unfolding frame_at set_frame free_head set_free_head deref
divide_buddy zero = undefined
divide_buddy (suc order) = do
  head ← free_head (suc order)
  frame ← deref head
  f ← frame_at frame
  set_free_head (suc order) f.next
  set_frame frame (record f { order = pos order })
  b ← frame_at (frame + 2 ^ order)
  lower ← free_head order
  set_frame (frame + 2 ^ order) (record b { order = pos order; flags = f.flags; next = lower })
  g ← frame_at frame
  set_frame frame (record g { next = some (frame + 2 ^ order) })
  set_free_head order (some frame)

-- The end of a round of `merge_buddy`: the buddy leaves its list, and the lower half stands for both.
join : ℕ → ℕ → ℕ → M Frames (Option ℕ)
join order frame buddy = do
  remove_frame_from_list buddy
  let low = if ltb buddy frame then buddy else frame
  g ← frame_at low
  set_frame low (record g { order = pos (order + 1) })
  pure (some low)

-- the two tests of the buddy; `none` is a `break`
merge_with : ℕ → ℕ → ℕ → M Frames (Option ℕ)
merge_with order frame buddy = do
  b ← frame_at buddy
  if b.order ==ℤ pos order && bit_and b.flags 3 == 0 then join order frame buddy else pure none

-- one round, with the test of the loop; the shift is by the order of `frame`
merge_round : ℕ → M Frames (Option ℕ)
merge_round frame = do
  f ← frame_at frame
  order ← unsigned f.order
  s ← get
  let buddy = bit_xor frame (2 ^ order)
  if ltb order max_order && ltb buddy s.count then merge_with order frame buddy else pure none

-- Each round raises the order of `frame`, so 12 rounds are enough.
pub merge_loop : ℕ → ℕ → M Frames ℕ
merge_loop zero frame = λ _. out_of_fuel
merge_loop (suc fuel) frame = do
  result ← merge_round frame
  elim result [ none ↦ pure frame | some low ↦ merge_loop fuel low ]

unfoldable pub merge_buddy : ℕ → M Frames (Unit {0})
unfolding merge_loop merge_round merge_with join remove_frame_from_list frame_at set_frame free_head
    set_free_head unsigned
merge_buddy pfn = do
  frame ← merge_loop 13 pfn
  f ← frame_at frame
  order ← unsigned f.order
  head ← free_head order
  set_frame frame (record f { next = head })
  set_free_head order (some frame)

-- the search for an order with a free block, `rounds` orders below `max_order`
find_order : ℕ → ℕ → M Frames ℕ
find_order zero current = pure current
find_order (suc rounds) current = do
  head ← free_head current
  elim head [ some _ ↦ pure current | none ↦ find_order rounds (current + 1) ]

-- `for (; current_order != order; current_order--) divide_buddy(current_order);`
divide_loop : ℕ → ℕ → M Frames (Unit {0})
divide_loop zero order = pure tt
divide_loop (suc rounds) order = do divide_buddy (order + suc rounds); divide_loop rounds order

-- the block at the head of the list, taken out and marked
take_block : ℕ → M Frames ℕ
unfolding frame_at set_frame free_head set_free_head deref
take_block order = do
  head ← free_head order
  frame ← deref head
  f ← frame_at frame
  set_free_head order f.next
  set_frame frame (add_flag f frame_allocated)
  pure (u64 (frame * 2 ^ page_shift))

alloc_block : ℕ → M Frames ℕ
unfolding find_order divide_loop take_block
alloc_block order = do
  current ← find_order (max_order - order) order
  head ← free_head current
  elim head [
    | none ↦ pure invalid_address
    | some _ ↦ do divide_loop (current - order) order; take_block order
  ]

unfoldable pub alloc_frames : ℤ → M Frames ℕ
unfolding alloc_block unsigned
alloc_frames order = do n ← unsigned order; alloc_block n

unfoldable pub free_frame : ℕ → M Frames (Unit {0})
unfolding frame_at set_frame
free_frame addr = do
  let pfn = addr / 2 ^ page_shift
  f ← frame_at pfn
  set_frame pfn (clear_flag f frame_allocated)
  merge_buddy pfn
