-- ===== src/Metrics/Histogram.antt =====
-- `SimpleHistogram` and the checked increment of `SimpleCounter`, in modules/metrics:
-- include/chainforge/metrics/internal/simple_metrics.hpp and src/simple_metrics.cpp. Every atomic
-- operation is one step.
pub mod Counts
use chain_forge.Base.Double.{Double}
use chain_forge.Base.Map.{Map, lookup, insert}
use chain_forge.Base.{
  ℕ, suc, ◌+◌, ◌%◌, ◌^◌, Bool, true, false, not, ◌||◌, Option, none, some, List, [], ◌∷◌, Eq, ◌==◌,
  if◌then◌else◌,
}

module _ {D : Type 0} (double : Double D) where
  -- `SimpleCounter::increment(double)`: a negative number changes nothing.
  unfoldable pub counter_increment : D → D → D
  counter_increment val value =
      if double.less val (double.literal 0 1) then value else double.add value val

pub record SimpleHistogram (D : Type 0) : Type 0 where
  pub buckets : List D
  pub bucket_counts : Map D ℕ
  pub count : ℕ
  pub sum : D

-- 0 where a bound has no entry, which `operator[]` would add.
module _ {D : Type 0} ⦃e : Eq D⦄ where
  abbrev pub count_at : D → Map D ℕ → ℕ
  count_at bucket counts = elim (lookup bucket counts) [ none ↦ 0 | some n ↦ n ]

module _ {D : Type 0} ⦃e : Eq D⦄ (double : Double D) where
  abbrev pub at_most : D → D → Bool
  at_most value bucket = double.less value bucket || (value == bucket)

  abbrev default_buckets : List D
  default_buckets =
      double.literal 1 1000
      ∷ double.literal 1 100
      ∷ double.literal 1 10
      ∷ double.literal 1 1
      ∷ double.literal 10 1
      ∷ double.literal 100 1
      ∷ double.literal 1000 1
      ∷ []

  abbrev pub buckets_or_default : List D → List D
  buckets_or_default [] = default_buckets
  buckets_or_default (b ∷ bs) = b ∷ bs

  -- `std::sort`
  unfoldable pub insert_sorted : D → List D → List D
  insert_sorted x [] = x ∷ []
  insert_sorted x (y ∷ ys) =
      let rest = insert_sorted x ys in if double.less y x then y ∷ rest else x ∷ y ∷ ys

  unfoldable pub sort : List D → List D
  sort [] = []
  sort (x ∷ xs) = insert_sorted x (sort xs)

  unfoldable pub zero_counts : List D → Map D ℕ → Map D ℕ
  zero_counts [] counts = counts
  zero_counts (b ∷ bs) counts = zero_counts bs (insert b 0 counts)

  unfoldable pub make : List D → SimpleHistogram D
  make given =
      let sorted = sort (buckets_or_default given) in
      record {
        buckets = sorted;
        bucket_counts = zero_counts sorted [];
        count = 0;
        sum = double.literal 0 1;
      }

  -- The loop of `observe`; `bucket_counts_[bucket]` wraps around at 64 bits.
  unfoldable pub count_buckets : D → List D → Map D ℕ → Map D ℕ
  count_buckets value [] counts = counts
  count_buckets value (b ∷ bs) counts =
      count_buckets value bs
        (if at_most value b then insert b ((count_at b counts + 1) % 2 ^ 64) counts else counts)

  unfoldable pub observe : D → SimpleHistogram D → SimpleHistogram D
  observe value h = record h {
    count = (h.count + 1) % 2 ^ 64;
    sum = double.add h.sum value;
    bucket_counts = count_buckets value h.buckets h.bucket_counts;
  }
