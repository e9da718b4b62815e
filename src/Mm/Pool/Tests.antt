-- ===== src/Mm/Pool/Tests.antt =====
-- The theorems on mm/pool.c at one pool, which lies at 0x1000 and has one free block of
-- 4072 bytes.
use fynaos.Base.{
  ℕ, Returns, inl, inr, ◌+◌, ◌≡◌, ◌>>=◌, refl, arith, true, ◌==◌, if◌then◌else◌, none, negsuc,
  panicked,
}
use fynaos.Base.Word.{align_up}
use fynaos.Mm.Machine.{Machine}
use fynaos.Mm.Pool.{kmalloc, kfree, divide, merge, is_block_used}
use fynaos.Mm.Pool.Split.{IsWide, divide-overwrites}
use fynaos.Mm.Pool.Split.Joined.{IsJoined, merge-divide}
use fynaos.Mm.Pool.Release.{first_data, kfree-panicked}
use fynaos.Mm.Pool.Interrupts.{Answer, kmalloc-Answer}

abbrev one_pool : Machine
one_pool = record {
  frames = record {
    frame = λ _. record { next = none; flags = 0; order = negsuc 0 };
    count = 0;
    free_region = λ _. none;
  };
  mem = λ a. if a == 0xFFFF800000001000 then 4096 else if a == 0xFFFF800000001018 then 4072 else 0;
  interrupts = true;
  cr3 = 0;
  pools = 0xFFFF800000001000;
  tail = 0xFFFF800000001000;
  current_mm = 0;
  kernel_mm = 0;
}

kmalloc-Answer_example : Answer true (kmalloc 16 one_pool)
kmalloc-Answer_example = kmalloc-Answer 16 one_pool

kfree-panicked_example : kfree (first_data 0xFFFF800000001000) one_pool ≡ panicked
kfree-panicked_example = kfree-panicked 0xFFFF800000001000 one_pool (omega arith) refl refl

-- The first block that kmalloc hands out cannot be freed.
free_after_alloc : (kmalloc 16 >>= kfree) one_pool ≡ panicked
unfolding kmalloc kfree align_up
free_after_alloc = refl

abbrev first : ℕ
first = 0xFFFF800000001018

first-IsWide : IsWide one_pool first 16 4072 0
first-IsWide = record {
  high = omega arith;
  low = omega arith;
  word = refl;
  data_words = refl;
  len_words = refl;
  header = refl;
  small = omega arith;
  longer = omega arith;
  link = refl;
  follows = inl refl;
}

merge-divide_example :
    Returns
      (λ _. IsJoined (first + 16 + 32) one_pool)
      ((divide first 16 >>= λ _. merge first) one_pool)
merge-divide_example = merge-divide first-IsWide (omega arith) (inl refl)

-- a free block of 80 bytes with another behind it
abbrev two_blocks : Machine
two_blocks = record one_pool {
  mem = λ a. if a == first then 80 else if a == first + 8 then first + 80 else 0;
}

two-IsWide : IsWide two_blocks first 32 80 (first + 80)
two-IsWide = record {
  high = omega arith;
  low = omega arith;
  word = refl;
  data_words = refl;
  len_words = refl;
  header = refl;
  small = omega arith;
  longer = omega arith;
  link = refl;
  follows = inr refl;
}

divide-overwrites_example :
    Returns
      (λ divided t.
        (divided ≡ true)
        × (t.mem (first + 80) ≡ first)
        × (is_block_used (t.mem (first + 80)) ≡ true))
      (divide first 32 two_blocks)
divide-overwrites_example = divide-overwrites two-IsWide refl
