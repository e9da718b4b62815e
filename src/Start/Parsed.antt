-- ===== src/Start/Parsed.antt =====
-- parse_multiboot_info of init/main.c on the tags of a boot loader.
use fynaos.Base.{
  ℕ, zero, suc, ◌+◌, ◌*◌, ◌≤◌, ◌<◌, ◌^◌, ◌≡◌, refl, arith, true, false, leb, ◌==◌, if◌then◌else◌,
  List, [], ◌∷◌, length, ok, u64, Bool-cases, inl, inr, le→leb,
}
use fynaos.Base.Bits.{align_up_pow}
use fynaos.Multiboot.{
  tag_end, tag_memory_map, tag_framebuffer_information, first_tag, tag_type, tag_size, next_tag,
}
use fynaos.Start.{World, buffer_size, parse_loop, parse_multiboot_info}

-- The tags from an address on, each with its address and its type, up to the end tag.
pub data Tags (mem : ℕ → ℕ) (limit : ℕ) : ℕ → List (ℕ × ℕ) → Type 0 where
  end : {i : ℕ} → i + 4 ≤ limit → (tag_type mem i == tag_end) ≡ true → Tags mem limit i []
  tag :
      {i kind : ℕ} {tags : List (ℕ × ℕ)}
      → i + 8 ≤ limit
      → tag_type mem i ≡ kind
      → (kind == tag_end) ≡ false
      → 8 ≤ tag_size mem i
      → i + tag_size mem i + 8 ≤ 2 ^ 64
      → Tags mem limit (next_tag mem i) tags
      → Tags mem limit i ((i, kind) ∷ tags)

-- the last tag of a type, or what was known before
unfoldable pub found : ℕ → ℕ → List (ℕ × ℕ) → ℕ
found kind known [] = known
found kind known ((i, k) ∷ tags) = found kind (if k == kind then i else known) tags

next_tag-above :
    (mem : ℕ → ℕ) (i : ℕ)
    → 8 ≤ tag_size mem i
    → i + tag_size mem i + 8 ≤ 2 ^ 64
    → i + 8 ≤ next_tag mem i
unfolding next_tag
next_tag-above mem i some small = omega (
  arith,
  small,
  some,
  align_up_pow 3 (u64 (i + tag_size mem i)) (omega arith) (omega (arith, small)),
)

-- Each tag takes 8 bytes.
Tags-length :
    {mem : ℕ → ℕ} {limit i : ℕ} {tags : List (ℕ × ℕ)}
    → Tags mem limit i tags
    → i + length tags * 8 + 4 ≤ limit
Tags-length (end fits _) = omega (arith, fits)
Tags-length {mem} {i} (tag fits _ _ some small rest) =
    omega (arith, next_tag-above mem i some small, Tags-length rest)

-- the globals behind the walk
abbrev pub with_tags : World → List (ℕ × ℕ) → World
with_tags s tags = record s {
  mmap_info = found tag_memory_map s.mmap_info tags;
  framebuffer_info = found tag_framebuffer_information s.framebuffer_info tags;
}

parse_loop-found :
    (buffer fuel : ℕ) (s : World) {i : ℕ} {tags : List (ℕ × ℕ)}
    → buffer ≤ i
    → Tags s.mem (buffer + buffer_size) i tags
    → length tags < fuel
    → parse_loop buffer fuel i s ≡ ok (tt, with_tags s tags)
unfolding parse_loop found
parse_loop-found buffer zero s lo t h = absurd (omega arith)
parse_loop-found buffer (suc fuel) s {i} lo (end fits last) h =
    rw (le→leb buffer i lo, le→leb (i + 4) (buffer + buffer_size) fits, last) refl
parse_loop-found buffer (suc fuel) s {i} lo (tag {kind} {tags} fits is other some small rest) h =
    let here : leb (i + 4) (buffer + buffer_size) ≡ true =
      le→leb (i + 4) (buffer + buffer_size) (omega (arith, fits)) in
    let there = le→leb (i + 8) (buffer + buffer_size) fits in
    let above : buffer ≤ next_tag s.mem i = omega (arith, lo, next_tag-above s.mem i some small) in
    let go : (t : World)
        → t.mem ≡ s.mem
        → parse_loop buffer fuel (next_tag s.mem i) t ≡ ok (tt, with_tags t tags) =
      λ t e. parse_loop-found buffer fuel t {tags = tags} above (rw e rest) (omega (arith, h)) in
    elim (Bool-cases (kind == tag_memory_map)) [
      | inl e ↦
          rw (le→leb buffer i lo, here, is, other, is, e, there, map_only kind e)
            (go (record s { mmap_info = i }) refl)
      | inr e ↦ elim (Bool-cases (kind == tag_framebuffer_information)) [
        | inl e' ↦
            rw (le→leb buffer i lo, here, is, other, is, e, e', there)
              (go (record s { framebuffer_info = i }) refl)
        | inr e' ↦ rw (le→leb buffer i lo, here, is, other, is, e, e', there) (go s refl)
      ]
    ]
  where
    map_only :
        (kind : ℕ) → (kind == tag_memory_map) ≡ true → (kind == tag_framebuffer_information) ≡ false
    map_only kind e = ground (arith, e)

-- For a list of tags within the buffer, from its first tag to an end tag, each of at least 8 bytes,
-- parse_multiboot_info returns: the two globals are the addresses of the last memory map tag and of
-- the last framebuffer tag, and as before where there is none.
pub parse_multiboot_info-found :
    (buffer : ℕ) (s : World) (tags : List (ℕ × ℕ))
    → buffer + buffer_size ≤ 2 ^ 64
    → Tags s.mem (buffer + buffer_size) (buffer + 8) tags
    → parse_multiboot_info buffer s ≡ ok (tt, with_tags s tags)
unfolding parse_multiboot_info
parse_multiboot_info-found buffer s tags small t =
    let start : first_tag buffer ≡ buffer + 8 = omega (arith, small) in
    rw start (parse_loop-found buffer 2048 s (omega arith) t (omega (arith, Tags-length t)))
