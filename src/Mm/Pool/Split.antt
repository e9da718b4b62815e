-- ===== src/Mm/Pool/Split.antt =====
-- divide of mm/pool.c: what a split does to the words of the pool.
pub mod Joined
use fynaos.Base.{
  ℕ, ◌+◌, ◌-◌, ◌%◌, ◌^◌, ◌≤◌, ◌<◌, ◌≡◌, ◌≢◌, ◌⊎◌, inl, inr, refl, ap, sym, ◌∙◌, arith, true, false,
  ◌==◌, if◌then◌else◌, leb, ltb, ◌&&◌, u64, sub64, bit_and, update, ok, Returns, returns,
  Bool-cases, ◌>>=◌, ◌>>◌, pure,
}
use fynaos.Base.Bits.{and_mask}
use fynaos.Base.Bits.Fields.{and_field, field}
use fynaos.Mm.Layout.{kernel_direct_base}
use fynaos.Mm.Machine.{Machine, usable, load, store}
use fynaos.Mm.Pool.{divide, get_block_len, block_next, block_prev, block_size, is_block_used}

-- A free block of `len` bytes that is longer than a block of `data_len` bytes, with `next` behind it
-- in the list: nothing, or the block that starts where it ends.
pub record IsWide (s : Machine) (block data_len len next : ℕ) : Type 0 where
  pub high : kernel_direct_base ≤ block
  pub low : block + len + 32 < 2 ^ 64
  pub word : block % 8 ≡ 0
  pub data_words : data_len % 8 ≡ 0
  pub len_words : len % 8 ≡ 0
  pub header : s.mem block ≡ len
  pub small : len < 2 ^ 63
  pub longer : data_len + 32 < len
  pub link : s.mem (block + 8) ≡ next
  pub follows : (next ≡ 0) ⊎ (next ≡ block + len)

pub usable-at :
    (block i : ℕ)
    → kernel_direct_base ≤ block
    → block + i < 2 ^ 64
    → block % 8 ≡ 0
    → i % 8 ≡ 0
    → usable (block + i) ≡ true
usable-at block i high low word words = ground (arith, high, low, word, words)

get_block_len-small : (len : ℕ) → len < 2 ^ 63 → get_block_len len ≡ len
unfolding get_block_len
get_block_len-small len h = omega (arith, and_mask 63 len, h)

-- the words of the two blocks after a split
abbrev pub halves : (ℕ → ℕ) → ℕ → ℕ → ℕ → ℕ → ℕ → ℕ → ℕ
halves mem block second size rest next =
    update
      (update (update (update (update mem second rest) block size) (block + 8) second) (second + 8)
        next)
      (second + 16) block

-- an address in the block or just behind it
pub at :
    {s : Machine} {block data_len len next : ℕ} (i : ℕ)
    → IsWide s block data_len len next
    → i ≤ len + 31
    → u64 (block + i) ≡ block + i
at i w h = omega (arith, w.low, h)

pub here :
    {s : Machine} {block data_len len next : ℕ} (i : ℕ)
    → IsWide s block data_len len next
    → i ≤ len + 31
    → i % 8 ≡ 0
    → usable (block + i) ≡ true
here {block} i w h words = usable-at block i w.high (omega (arith, w.low, h)) w.word words

pub start :
    {s : Machine} {block data_len len next : ℕ}
    → IsWide s block data_len len next
    → usable block ≡ true
start {block} w = ground (arith, w.high, w.low, w.word)

-- an address of the second block
pub second_at :
    {s : Machine} {block data_len len next : ℕ} (i : ℕ)
    → IsWide s block data_len len next
    → i ≤ 31
    → u64 (block + data_len + 32 + i) ≡ block + data_len + 32 + i
second_at i w h = omega (arith, w.low, w.longer, h)

pub second_here :
    {s : Machine} {block data_len len next : ℕ} (i : ℕ)
    → IsWide s block data_len len next
    → i ≤ 31
    → i % 8 ≡ 0
    → usable (block + data_len + 32 + i) ≡ true
second_here i w h words = ground (arith, w.high, w.low, w.longer, w.word, w.data_words, h, words)

pub second_start :
    {s : Machine} {block data_len len next : ℕ}
    → IsWide s block data_len len next
    → usable (block + data_len + 32) ≡ true
second_start w = ground (arith, w.high, w.low, w.longer, w.word, w.data_words)

module _ {s : Machine} {block data_len len next : ℕ} (w : IsWide s block data_len len next) where
  size_word : u64 (data_len + block_size) ≡ data_len + 32
  size_word = omega (arith, w.low, w.longer)

  goes_on : leb len (data_len + 32) ≡ false
  goes_on = ground (arith, w.longer)

  pub second_word : u64 (block + data_len + block_size) ≡ block + data_len + 32
  second_word = omega (arith, w.low, w.longer)

  rest_word : sub64 len (data_len + 32) ≡ len - (data_len + 32)
  rest_word = omega (arith, w.low, w.longer)

  pub halved : Machine
  halved = record s {
    mem = halves s.mem block (block + data_len + 32) (data_len + 32) (len - (data_len + 32)) next;
  }

  pub next_here : usable (block + len + 16) ≡ true
  next_here = ground (arith, w.high, w.low, w.word, w.len_words)

  divide-runs :
      divide block data_len s
      ≡ (do
        if next == 0 then pure tt else store (block_prev next) (block + data_len + 32)
        pure true)
          halved
  unfolding divide load store halved
  divide-runs =
      rw
        (
          start w,
          w.header,
          get_block_len-small len w.small,
          size_word,
          goes_on,
          at 8 w (omega arith),
          here 8 w (omega arith) refl,
          w.link,
          second_word,
          rest_word,
          second_start w,
          start w,
          here 8 w (omega arith) refl,
          second_at 8 w (omega arith),
          second_here 8 w (omega arith) refl,
          second_at 16 w (omega arith),
          second_here 16 w (omega arith) refl,
        )
        refl

  pub divide-last : next ≡ 0 → divide block data_len s ≡ ok (true, halved)
  divide-last last =
      let none : (next == 0) ≡ true = ground (arith, last) in divide-runs ∙ rw none refl

  pub divide-next :
      next ≡ block + len
      → divide block data_len s
        ≡ ok (
          true,
          record halved { mem = update halved.mem (block + len + 16) (block + data_len + 32) },
        )
  unfolding store
  divide-next follows =
      let there : (next == 0) ≡ false = ground (arith, follows, w.longer) in
      let field : u64 (next + 16) ≡ block + len + 16 = omega (arith, follows, w.low) in
      divide-runs ∙ rw (there, field, next_here) refl

-- An address of the direct map, as a header, has the bit of a used block.
address_used : (a : ℕ) → kernel_direct_base ≤ a → a < 2 ^ 64 → is_block_used a ≡ true
unfolding is_block_used
address_used a high low =
    let bit : bit_and a 0x8000000000000000 ≡ 2 ^ 63 = omega (arith, and_field 1 63 a, high, low) in
    rw bit refl

-- Where a split leaves 16 bytes, fewer than the three words of a block, the pointer `prev` of the new
-- block is the header of the block behind it: divide returns TRUE, and the header of that block is
-- the address of the block that was split, so it counts as used.
pub divide-overwrites :
    {s : Machine} {block data_len len : ℕ}
    → IsWide s block data_len len (block + len)
    → len ≡ data_len + 48
    → Returns
        (λ divided t.
          (divided ≡ true)
          × (t.mem (block + len) ≡ block)
          × (is_block_used (t.mem (block + len)) ≡ true))
        (divide block data_len s)
unfolding halved
divide-overwrites {s} {block} {data_len} {len} w short = rw (divide-next w refl) (
    let header = overwritten w short in
    returns
      (refl, header, ap is_block_used header ∙ address_used block w.high (omega (arith, w.low))))
  where
    overwritten :
        (w : IsWide s block data_len len (block + len))
        → len ≡ data_len + 48
        → update (halved w).mem (block + len + 16) (block + data_len + 32) (block + len) ≡ block
    overwritten w short = ground (arith, short)
