-- ===== src/Metrics/Tests.antt =====
-- The theorems about the metrics at concrete data.
use chain_forge.Base.{ltb, ◌+◌, ◌/◌, ℕ, ◌*◌, ◌≡◌, refl, List, [], ◌∷◌, arith, nat_eq}
use chain_forge.Base.Double.{Double}
use chain_forge.Metrics.Histogram.{
  make, observe, count_buckets, zero_counts, count_at, sort, insert_sorted,
}
use chain_forge.Metrics.Histogram.Counts.{observe_all, how_many, occurs, count_at-make}

-- Whole numbers in the place of floating point.
abbrev whole_numbers : Double ℕ
whole_numbers = record {
  of_u64 = λ n. n;
  to_u64 = λ n. n;
  literal = λ n d. n / d;
  add = λ a b. a + b;
  mul = λ a b. a * b;
  div = λ a b. a / b;
  less = ltb;
}

abbrev bounds : List ℕ
bounds = 10 ∷ 5 ∷ 10 ∷ []

abbrev seen : List ℕ
seen = 3 ∷ 7 ∷ 12 ∷ []

count_at-make_example :
    (count_at 10 (observe_all whole_numbers seen (make whole_numbers bounds)).bucket_counts
      ≡ how_many whole_numbers 10 seen
        * occurs whole_numbers 10 (make whole_numbers bounds).buckets)
    × ((observe_all whole_numbers seen (make whole_numbers bounds)).count ≡ 3)
unfolding make sort insert_sorted
count_at-make_example = count_at-make whole_numbers bounds 10 seen (omega arith) (omega arith)

-- Two of the three values are at most 10, which was given twice.
counted_twice :
    count_at 10 (observe_all whole_numbers seen (make whole_numbers bounds)).bucket_counts ≡ 4
unfolding make sort insert_sorted observe count_buckets zero_counts
counted_twice = refl
