-- ===== src/Mm/Frames/Reach.antt =====
-- The clients of mm/pmm.c: states that calls of alloc_frames and free_frame lead to.
use fynaos.Base.{
  ℕ, ◌+◌, ◌*◌, ◌/◌, ◌^◌, ◌≤◌, ◌<◌, ◌≡◌, ◌≢◌, inl, inr, refl, sym, ap, ◌∙◌, subst, arith, List, pos,
  contains, true, u64, ok, Returns, invalid_address,
}
use fynaos.Base.Run
use fynaos.Base.Bits.{pow-pos}
use fynaos.Mm.Frames.{Frames, max_order, alloc_frames, free_frame}
use fynaos.Mm.Frames.Accounts.{IsHeld, IsAccounted}
use fynaos.Mm.Frames.Chain.{IsFree}
use fynaos.Mm.Frames.Coverage.{coverage}
use fynaos.Mm.Frames.Free.{without_page, free_frame-IsReleased}
use fynaos.Mm.Frames.Handout.{with_page, alloc_frames-IsHandout}

-- From `first`, where `mine` is handed out, calls lead to `s`, where `owned` is handed out: by an
-- allocation, by one that fails, and by the release of a block that is handed out.
pub data Reachable (first : Frames) (mine : ℕ → List ℕ) : Frames → (ℕ → List ℕ) → Type 0 where
  started : Reachable first mine first mine
  allocated :
      {s t : Frames} {owned : ℕ → List ℕ} (order addr : ℕ)
      → Reachable first mine s owned
      → order ≤ max_order
      → alloc_frames (pos order) s ≡ ok (addr, t)
      → addr ≢ invalid_address
      → Reachable first mine t (with_page owned order (addr / 2 ^ 12))
  refused :
      {s t : Frames} {owned : ℕ → List ℕ} (order addr : ℕ)
      → Reachable first mine s owned
      → order ≤ max_order
      → alloc_frames (pos order) s ≡ ok (addr, t)
      → addr ≡ invalid_address
      → Reachable first mine t owned
  released :
      {s t : Frames} {owned : ℕ → List ℕ} (k addr : ℕ)
      → Reachable first mine s owned
      → k ≤ max_order
      → contains (addr / 2 ^ 12) (owned k) ≡ true
      → free_frame addr s ≡ ok (tt, t)
      → Reachable first mine t (without_page owned k (addr / 2 ^ 12))

-- Some free lists account for the frames, with the blocks `owned`, in a table of the same size.
abbrev pub Accounted : ℕ → Frames → (ℕ → List ℕ) → Type 0
Accounted count s owned = (lists : ℕ → List ℕ) × IsAccounted s lists owned × (s.count ≡ count)

-- the page of an address below 2^64
page_of : (page : ℕ) → page < 2 ^ 52 → u64 (page * 2 ^ 12) / 2 ^ 12 ≡ page
page_of page h = omega arith

-- INVALID_ADDRESS is the address of no page.
valid_address :
    (page addr : ℕ) → page < 2 ^ 52 → addr ≡ u64 (page * 2 ^ 12) → addr ≢ invalid_address
valid_address page addr h e e' = omega (arith, e, e', h)

page_small :
    {t : Frames} {lists : ℕ → List ℕ} (owned : ℕ → List ℕ) (order page : ℕ)
    → IsAccounted t lists (with_page owned order page)
    → order ≤ max_order
    → t.count ≤ 2 ^ 52
    → page < 2 ^ 52
page_small owned order page acc h small =
    omega (arith, (acc.held order page h (ground arith)).inside, small, pow-pos order)

module _ {count : ℕ} (small : count ≤ 2 ^ 52) {s t : Frames} {owned : ℕ → List ℕ}
    (a : Accounted count s owned) where
  after_alloc :
      (order addr : ℕ)
      → order ≤ max_order
      → alloc_frames (pos order) s ≡ ok (addr, t)
      → addr ≢ invalid_address
      → Accounted count t (with_page owned order (addr / 2 ^ 12))
  after_alloc order addr h run valid =
      let (lists, acc, size) = a in
      elim (Run.result_of (alloc_frames-IsHandout order acc h) run) [
        | inl (e, same, empty) ↦ absurd (valid e)
        | inr (page, after, e, acc', conserved, size') ↦
            let same : addr / 2 ^ 12 ≡ page =
              ap (λ (x : ℕ). x / 2 ^ 12) e
              ∙ page_of page
                  (page_small owned order page acc' h (omega (arith, size, size', small))) in
            (
              after,
              subst (λ p. IsAccounted t after (with_page owned order p)) (sym same) acc',
              omega (arith, size, size'),
            )
      ]

  after_refusal :
      (order addr : ℕ)
      → order ≤ max_order
      → alloc_frames (pos order) s ≡ ok (addr, t)
      → addr ≡ invalid_address
      → Accounted count t owned
  after_refusal order addr h run failed =
      let (lists, acc, size) = a in
      elim (Run.result_of (alloc_frames-IsHandout order acc h) run) [
        | inl (e, same, empty) ↦ subst (λ u. Accounted count u owned) (sym same) a
        | inr (page, after, e, acc', conserved, size') ↦ absurd (
            valid_address page addr
              (page_small owned order page acc' h (omega (arith, size, size', small))) e failed)
      ]

  after_release :
      (k addr : ℕ)
      → k ≤ max_order
      → contains (addr / 2 ^ 12) (owned k) ≡ true
      → free_frame addr s ≡ ok (tt, t)
      → Accounted count t (without_page owned k (addr / 2 ^ 12))
  after_release k addr h m run =
      let (lists, acc, size) = a in
      let (after, acc', same, size') =
        Run.result_of (free_frame-IsReleased acc k (addr / 2 ^ 12) h m addr refl) run in
      (after, acc', omega (arith, size, size'))

-- What the clients of the allocator rely on in a state.
pub record IsServed (s : Frames) (owned : ℕ → List ℕ) : Type 0 where
  pub lists : ℕ → List ℕ
  pub free : IsFree s lists
  pub disjoint : (i : ℕ) → coverage lists i + coverage owned i ≤ 1
  pub held : (k p : ℕ) → k ≤ max_order → contains p (owned k) ≡ true → IsHeld s k p
  pub allocates :
      (order : ℕ) → order ≤ max_order → Returns (λ _ _. Unit {0}) (alloc_frames (pos order) s)
  pub releases :
      (k addr : ℕ)
      → k ≤ max_order
      → contains (addr / 2 ^ 12) (owned k) ≡ true
      → Returns (λ _ _. Unit {0}) (free_frame addr s)

pub Reachable-Accounted :
    {first : Frames} {lists mine : ℕ → List ℕ} {s : Frames} {owned : ℕ → List ℕ}
    → IsAccounted first lists mine
    → first.count ≤ 2 ^ 52
    → Reachable first mine s owned
    → Accounted first.count s owned
Reachable-Accounted {lists = lists} acc small started = (lists, acc, refl)
Reachable-Accounted acc small (allocated order addr r h run valid) =
    after_alloc small (Reachable-Accounted acc small r) order addr h run valid
Reachable-Accounted acc small (refused order addr r h run failed) =
    after_refusal small (Reachable-Accounted acc small r) order addr h run failed
Reachable-Accounted acc small (released k addr r h m run) =
    after_release small (Reachable-Accounted acc small r) k addr h m run

-- Whatever calls of alloc_frames and free_frame were made from a table of at most 2^52 frames that
-- is accounted for, with orders up to 11 and where only blocks that are handed out are released:
-- the free lists are well formed, no page is handed out twice or both handed out and free, every
-- handed out block is marked and inside the table, and the next allocation of an order up to 11
-- and the next release of such a block return, with no panic and no fault.
pub Reachable-IsServed :
    {first : Frames} {lists mine : ℕ → List ℕ} {s : Frames} {owned : ℕ → List ℕ}
    → IsAccounted first lists mine
    → first.count ≤ 2 ^ 52
    → Reachable first mine s owned
    → IsServed s owned
Reachable-IsServed acc small r =
    let (lists, acc', size) = Reachable-Accounted acc small r in
    record {
      lists = lists;
      free = acc'.free;
      disjoint = acc'.apart;
      held = acc'.held;
      allocates = λ order h. Run.mono (alloc_frames-IsHandout order acc' h) λ _ _ _. tt;
      releases = λ k addr h m.
          Run.mono (free_frame-IsReleased acc' k (addr / 2 ^ 12) h m addr refl) λ _ _ _. tt;
    }
