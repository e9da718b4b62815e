-- ===== src/Mm/Init/Tests.antt =====
-- The theorems on mm/mm.c at a few pages of memory.
use fynaos.Base.{refl, arith, none, negsuc, Returns, List, [], ◌∷◌}
use fynaos.Base.{inl, inr, true, leb, ◌&&◌, ◌≡◌}
use fynaos.Base.Word.{align_up}
use fynaos.Mm.Frames.Region.{span}
use fynaos.Mm.Init.{Entry, Image, Memory, init_memory, find_largest, find_ram_limit}
use fynaos.Mm.Init.Plan.{first}
use fynaos.Mm.Init.Plan.Planned.{IsFit, IsPlanned, init_memory-IsPlanned}
use fynaos.Mm.Init.Protected.{AreWhole, IsProtected, init_memory-IsProtected}
use fynaos.Mm.Init.Ready.{largest, IsUsable}

abbrev started : Memory
started = record {
  boot = record { begin = 0x1000; tail = 0x1008; limit = 0x4000 };
  frames = record {
    frame = λ _. record { next = none; flags = 0; order = negsuc 0 };
    count = 0;
    free_region = λ _. none;
  };
}

-- one usable region of 64 pages, and one that is reserved
abbrev regions : List Entry
regions =
    record { addr = 0; len = 0x40000; type = 1; reserved = 0 }
    ∷ record { addr = 0x40000; len = 0x1000; type = 2; reserved = 0 }
    ∷ []

-- the kernel in its pages 16 to 20
abbrev kernel : Image
kernel = record { start = 0x10000; end = 0x14008 }

regions-IsUsable : IsUsable kernel regions
unfolding find_largest find_ram_limit align_up span
regions-IsUsable = record {
  some_region = refl;
  some_ram = refl;
  unwrapped = ((λ e. omega arith), ((λ e. omega arith), tt));
  once = λ i. ground arith;
  room = omega arith;
  low = omega arith;
  ordered = omega arith;
  image_low = omega arith;
}

abbrev usable_region : Entry
usable_region = record { addr = 0; len = 0x40000; type = 1; reserved = 0 }

regions-IsFit : IsFit kernel usable_region regions
unfolding span
regions-IsFit = record {
  longest = first refl (omega arith) ((λ e. omega arith), tt);
  unwrapped = regions-IsUsable.unwrapped;
  once = regions-IsUsable.once;
  room = omega arith;
  low = omega arith;
  ordered = omega arith;
  image_low = omega arith;
}

init_memory-IsPlanned_example :
    Returns (λ _. IsPlanned kernel usable_region regions) (init_memory kernel regions started)
init_memory-IsPlanned_example =
    init_memory-IsPlanned kernel usable_region regions started regions-IsFit (λ k. refl)

regions-AreWhole : AreWhole kernel.start (largest regions).limit regions
unfolding find_largest
regions-AreWhole = ((λ e. inl (omega arith, omega arith)), ((λ e. inr (inr (omega arith))), tt))

kernel_inside :
    (leb (largest regions).begin kernel.start && leb kernel.end (largest regions).limit) ≡ true
unfolding find_largest
kernel_inside = refl

init_memory-IsProtected_example :
    Returns (λ _. IsProtected kernel regions) (init_memory kernel regions started)
init_memory-IsProtected_example =
    init_memory-IsProtected kernel regions started regions-IsUsable (λ k. refl) kernel_inside
      regions-AreWhole
