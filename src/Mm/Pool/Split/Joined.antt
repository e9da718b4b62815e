-- ===== src/Mm/Pool/Split/Joined.antt =====
-- merge of mm/pool.c after divide: the block is whole again.
use fynaos.Base.{
  ℕ, ◌+◌, ◌≤◌, ◌≡◌, ◌≢◌, ◌⊎◌, inl, inr, refl, ap, sym, ◌∙◌, arith, true, false, ◌==◌, if◌then◌else◌,
  u64, update, Returns, returns, Bool-cases, ◌>>=◌, pure, ==→eq,
}
use fynaos.Mm.Machine.{Machine, usable, load, store}
use fynaos.Mm.Pool.{divide, merge, block_prev}
use fynaos.Mm.Pool.Split.{
  IsWide, at, here, start, second_start, halved, divide-last, divide-next, next_here,
}

module _ {s : Machine} {block data_len len next : ℕ} (w : IsWide s block data_len len next)
    (t : Machine) (second : t.mem (block + 8) ≡ block + data_len + 32)
    (third : t.mem (block + data_len + 40) ≡ next)
    (whole : t.mem block + t.mem (block + data_len + 32) ≡ len) where
  whole_word : u64 (t.mem block + t.mem (block + data_len + 32)) ≡ len
  whole_word = omega (arith, whole, w.small)

  third_word : u64 (block + data_len + 32 + 8) ≡ block + data_len + 40
  third_word = omega (arith, w.low, w.longer)

  third_here : usable (block + data_len + 40) ≡ true
  third_here = ground (arith, w.high, w.low, w.longer, w.word, w.data_words)

  joined : Machine
  joined = record t { mem = update (update t.mem block len) (block + 8) next }

  kept_third : update t.mem block len (block + data_len + 40) ≡ next
  kept_third = ground (arith, third)

  kept_after : update (update t.mem block len) (block + 8) next (block + data_len + 40) ≡ next
  kept_after = ground (arith, third)

  merge-runs : merge block t ≡ (if next == 0 then pure tt else store (block_prev next) block) joined
  unfolding merge load store joined
  merge-runs =
      rw
        (
          at 8 w (omega arith),
          here 8 w (omega arith) refl,
          second,
          start w,
          second_start w,
          whole_word,
          third_word,
          start w,
          third_here,
          kept_third,
          here 8 w (omega arith) refl,
          kept_after,
          third_here,
        )
        refl

-- Every word is as before, but for the three words of the second block.
abbrev pub IsJoined : ℕ → Machine → Machine → Type 0
IsJoined second s t = (a : ℕ) → a ≢ second → a ≢ second + 8 → a ≢ second + 16 → t.mem a ≡ s.mem a

module _ {s : Machine} {block data_len len next : ℕ} (w : IsWide s block data_len len next) where
  -- the words of the split block are as before it, the others were not touched
  restored :
      (a : ℕ)
      → a ≢ block + data_len + 32
      → a ≢ block + data_len + 32 + 8
      → a ≢ block + data_len + 32 + 16
      → update (update (halved w).mem block len) (block + 8) next a ≡ s.mem a
  unfolding halved
  restored a a2 a3 a4 = elim (Bool-cases (a == block + 8)) [
    | inl e ↦ rw e (sym w.link ∙ ap s.mem (sym (==→eq a (block + 8) e)))
    | inr e ↦ elim (Bool-cases (a == block)) [
      | inl e' ↦ rw (e, e') (sym w.header ∙ ap s.mem (sym (==→eq a block e')))
      | inr e' ↦ ground (arith, e, e', a2, a3, a4)
    ]
  ]

  sewn : Machine
  sewn = record (halved w) {
    mem = update (halved w).mem (block + len + 16) (block + data_len + 32);
  }

  restored_next :
      s.mem (block + len + 16) ≡ block
      → (a : ℕ) → a ≢ block + data_len + 32
      → a ≢ block + data_len + 32 + 8
      → a ≢ block + data_len + 32 + 16
      → update (update (update sewn.mem block len) (block + 8) next) (block + len + 16) block a
        ≡ s.mem a
  unfolding sewn
  restored_next back a a2 a3 a4 = elim (Bool-cases (a == block + len + 16)) [
    | inl e ↦ rw e (sym back ∙ ap s.mem (sym (==→eq a (block + len + 16) e)))
    | inr e ↦ rw e (restored a a2 a3 a4)
  ]

-- Where a split leaves room for the three words of a block, and the block behind points back, merge
-- undoes divide: both return, and every word but those three is as it was before.
pub merge-divide :
    {s : Machine} {block data_len len next : ℕ}
    → IsWide s block data_len len next
    → data_len + 56 ≤ len
    → (next ≡ 0) ⊎ ((next ≡ block + len) × (s.mem (block + len + 16) ≡ block))
    → Returns
        (λ _. IsJoined (block + data_len + 32) s)
        ((divide block data_len >>= λ _. merge block) s)
unfolding halved joined sewn store
merge-divide {s} {block} {data_len} {len} {next} w room (inl last) =
    let none : (next == 0) ≡ true = ground (arith, last) in
    rw
      (
        divide-last w last,
        merge-runs w (halved w) (ground arith) (ground arith) (ground (arith, w.longer)),
        none,
      )
      (returns (restored w))
merge-divide {s} {block} {data_len} {len} {next} w room (inr (follows, back)) =
    let there : (next == 0) ≡ false = ground (arith, follows, w.longer) in
    let field : u64 (next + 16) ≡ block + len + 16 = omega (arith, follows, w.low) in
    rw
      (
        divide-next w follows,
        merge-runs w (sewn w) (ground (arith, w.longer)) (ground (arith, room))
            (ground (arith, w.longer, room)),
        there,
        field,
        next_here w,
      )
      (returns (restored_next w back))
