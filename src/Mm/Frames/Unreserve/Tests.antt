-- ===== src/Mm/Frames/Unreserve/Tests.antt =====
-- The theorem on unreserve_frame_region at a table of eight reserved frames.
use fynaos.Base.{ℕ, ◌≡◌, refl, arith, none, List, [], negsuc, Returns}
use fynaos.Mm.Frames.{Frames, unreserve_frame_region}
use fynaos.Mm.Frames.Accounts.{IsAccounted}
use fynaos.Mm.Frames.Chain.{nil}
use fynaos.Mm.Frames.Coverage.{coverage, coverage_to, covered}
use fynaos.Mm.Frames.Supply.{IsUnclaimed}
use fynaos.Mm.Frames.Unreserve.{IsBlank, unreserve_frame_region-IsUnclaimed}

abbrev reserved : Frames
reserved = record {
  frame = λ _. record { next = none; flags = 2; order = negsuc 0 };
  count = 8;
  free_region = λ _. none;
}

abbrev nobody : ℕ → List ℕ
nobody _ = []

reserved-IsAccounted : IsAccounted reserved nobody nobody
unfolding coverage coverage_to covered
reserved-IsAccounted = record {
  free = record { chain = λ k hk. nil };
  held = λ k p hk m. cc;
  apart = λ i. omega arith;
  known = λ q k lt order unused. cc;
}

reserved-IsBlank : IsBlank reserved nobody nobody 2 8
unfolding coverage coverage_to covered
reserved-IsBlank = record {
  within = omega arith;
  reserved = λ i lo hi. refl;
  orderless = λ i lo hi. refl;
  uncovered = λ i lo hi. refl;
  unowned = λ i lo hi. refl;
}

unreserve_frame_region-IsUnclaimed_example :
    Returns
      (λ _ t. IsAccounted t nobody nobody × IsUnclaimed t nobody nobody 2 8 × (t.count ≡ 8))
      (unreserve_frame_region 2 8 reserved)
unreserve_frame_region-IsUnclaimed_example =
    unreserve_frame_region-IsUnclaimed 2 8 (omega arith) reserved-IsAccounted reserved-IsBlank
