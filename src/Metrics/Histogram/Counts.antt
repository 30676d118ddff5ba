-- ===== src/Metrics/Histogram/Counts.antt =====
-- What the buckets of a histogram count.
use chain_forge.Metrics.Histogram.{
  SimpleHistogram, at_most, count_at, count_buckets, observe, make, zero_counts,
}
use chain_forge.Base.Double.{Double}
use chain_forge.Base.Map.{Map, insert}
use chain_forge.Base.Map.Laws.{lookup-insert}
use chain_forge.Base.{
  beq_self, inr, inl, ℕ, suc, ◌+◌, ◌*◌, ◌%◌, ◌^◌, ◌<◌, ◌≡◌, refl, true, List, [], ◌∷◌, Eq, ◌==◌,
  if◌then◌else◌, arith, Bool-cases, length,
}

module _ {D : Type 0} ⦃e : Eq D⦄ (double : Double D) where
  -- How often a bound stands among the buckets.
  abbrev pub occurs : D → List D → ℕ
  occurs b [] = 0
  occurs b (c ∷ cs) = (if b == c then 1 else 0) + occurs b cs

  -- How many of the values are at most the bound.
  abbrev pub how_many : D → List D → ℕ
  how_many b [] = 0
  how_many b (v ∷ vs) = (if at_most double v b then 1 else 0) + how_many b vs

  abbrev pub observe_all : List D → SimpleHistogram D → SimpleHistogram D
  observe_all [] h = h
  observe_all (v ∷ vs) h = observe_all vs (observe double v h)

  count_at-insert :
      (b c : D) (n : ℕ) (counts : Map D ℕ)
      → count_at b (insert c n counts) ≡ (if b == c then n else count_at b counts)
  count_at-insert b c n counts = ground (arith, lookup-insert b c n counts)

  bump_self :
      (b value : D) (counts : Map D ℕ)
      → count_at b counts + 1 < 2 ^ 64
      → count_at b (
          if at_most double value b
          then insert b ((count_at b counts + 1) % 2 ^ 64) counts
          else counts)
        ≡ count_at b counts + (if at_most double value b then (if b == b then 1 else 0) else 0)
  bump_self b value counts l = elim (Bool-cases (at_most double value b)) [
    | inl below ↦
        ground
          (arith, below, beq_self b, count_at-insert b b ((count_at b counts + 1) % 2 ^ 64) counts)
    | inr above ↦ ground (arith, above)
  ]

  bump_same :
      (b value c : D) (counts : Map D ℕ)
      → b ≡ c
      → (b == c) ≡ true
      → count_at b counts + (if b == c then 1 else 0) < 2 ^ 64
      → count_at b (
          if at_most double value c
          then insert c ((count_at c counts + 1) % 2 ^ 64) counts
          else counts)
        ≡ count_at b counts + (if at_most double value b then (if b == c then 1 else 0) else 0)
  bump_same b value c counts p same l = rw (← p) (bump_self b value counts (rw same at l))

  fewer :
      (b c : D) (cs : List D) (counts : Map D ℕ)
      → count_at b counts + occurs b (c ∷ cs) < 2 ^ 64
      → count_at b counts + (if b == c then 1 else 0) < 2 ^ 64
  fewer b c cs counts l = omega arith

  bump :
      (b value c : D) (counts : Map D ℕ)
      → count_at b counts + (if b == c then 1 else 0) < 2 ^ 64
      → count_at b (
          if at_most double value c
          then insert c ((count_at c counts + 1) % 2 ^ 64) counts
          else counts)
        ≡ count_at b counts + (if at_most double value b then (if b == c then 1 else 0) else 0)
  bump b value c counts l = elim (Bool-cases (b == c)) [
    | inl same ↦ bump_same b value c counts ((e.beq_iff b c).0 same) same l
    | inr other ↦ elim (Bool-cases (at_most double value c)) [
      | inl below ↦
          ground
            (arith, other, below, count_at-insert b c ((count_at c counts + 1) % 2 ^ 64) counts)
      | inr above ↦ ground (arith, other, above)
    ]
  ]

  within :
      (b value c : D) (cs : List D) (before after : ℕ)
      → after ≡ before + (if at_most double value b then (if b == c then 1 else 0) else 0)
      → before + occurs b (c ∷ cs) < 2 ^ 64
      → after + occurs b cs < 2 ^ 64
  within b value c cs before after h l = ground (arith, h)

  count_at-count_buckets :
      (b value : D) (bs : List D) (counts : Map D ℕ)
      → count_at b counts + occurs b bs < 2 ^ 64
      → count_at b (count_buckets double value bs counts)
        ≡ count_at b counts + (if at_most double value b then occurs b bs else 0)
  unfolding count_buckets
  count_at-count_buckets b value [] counts l = ground arith
  count_at-count_buckets b value (c ∷ cs) counts l =
      let next : Map D ℕ =
        if at_most double value c
        then insert c ((count_at c counts + 1) % 2 ^ 64) counts
        else counts in
      let one = bump b value c counts (fewer b c cs counts l) in
      let bound : count_at b next + occurs b cs < 2 ^ 64 =
        within b value c cs (count_at b counts) (count_at b next) one l in
      let more = count_at-count_buckets b value cs next bound in
      elim (Bool-cases (at_most double value b)) [
        | inl below ↦ ground (arith, below, one, more)
        | inr above ↦ ground (arith, above, one, more)
      ]

  suc_times : (n o : ℕ) → suc n * o ≡ o + n * o
  suc_times n o = omega arith

  one_more : (n o : ℕ) → (1 + n) * o ≡ o + n * o
  one_more n o = omega arith

  no_more : (n o : ℕ) → (0 + n) * o ≡ n * o
  no_more n o = omega arith

  -- Behind any values, fewer than 2^64 times the places of the bound, a bound's count is the number
  -- of values at most it, times the places at which it stands among the buckets.
  count_at-observe_all :
      (b : D) (vs : List D) (h : SimpleHistogram D)
      → count_at b h.bucket_counts + length vs * occurs b h.buckets < 2 ^ 64
      → count_at b (observe_all vs h).bucket_counts
        ≡ count_at b h.bucket_counts + how_many b vs * occurs b h.buckets
  unfolding observe
  count_at-observe_all b [] h l = ground arith
  count_at-observe_all b (v ∷ vs) h l =
      let o : ℕ = occurs b h.buckets in
      let split : length (v ∷ vs) * o ≡ o + length vs * o = suc_times (length vs) o in
      let here = count_at-count_buckets b v h.buckets h.bucket_counts (omega (arith, split)) in
      elim (Bool-cases (at_most double v b)) [
        | inl below ↦
            let now : count_at b (observe double v h).bucket_counts
                ≡ count_at b h.bucket_counts + o =
              ground (arith, below, here) in
            let more = count_at-observe_all b vs (observe double v h) (omega (arith, now, split)) in
            let all : how_many b (v ∷ vs) * o ≡ o + how_many b vs * o =
              rw below (one_more (how_many b vs) o) in
            omega (arith, more, now, all)
        | inr above ↦
            let now : count_at b (observe double v h).bucket_counts ≡ count_at b h.bucket_counts =
              ground (arith, above, here) in
            let more = count_at-observe_all b vs (observe double v h) (omega (arith, now, split)) in
            let all : how_many b (v ∷ vs) * o ≡ how_many b vs * o =
              rw above (no_more (how_many b vs) o) in
            omega (arith, more, now, all)
      ]

  count-observe_all :
      (vs : List D) (h : SimpleHistogram D)
      → h.count + length vs < 2 ^ 64
      → ((observe_all vs h).count ≡ h.count + length vs) × ((observe_all vs h).buckets ≡ h.buckets)
  unfolding observe
  count-observe_all [] h l = (omega arith, refl)
  count-observe_all (v ∷ vs) h l =
      let (count, same) = count-observe_all vs (observe double v h) (omega arith) in
      (omega (arith, count), same)

  count_at-zero_counts :
      (b : D) (bs : List D) (counts : Map D ℕ)
      → count_at b counts ≡ 0
      → count_at b (zero_counts double bs counts) ≡ 0
  unfolding zero_counts
  count_at-zero_counts b [] counts h = h
  count_at-zero_counts b (c ∷ cs) counts h =
      count_at-zero_counts b cs (insert c 0 counts)
        (ground (arith, h, count_at-insert b c 0 counts))

  -- After a new histogram was given any values, a bound that stands once among its buckets has
  -- counted exactly the values that are at most the bound, and one that stands twice has counted
  -- each of them twice; the total counts every value once. The values, times the places of the
  -- bound, are fewer than 2^64.
  pub count_at-make :
      (given : List D) (b : D) (vs : List D)
      → length vs < 2 ^ 64
      → length vs * occurs b (make double given).buckets < 2 ^ 64
      → (count_at b (observe_all vs (make double given)).bucket_counts
          ≡ how_many b vs * occurs b (make double given).buckets)
        × ((observe_all vs (make double given)).count ≡ length vs)
  unfolding make
  count_at-make given b vs l m =
      let fresh = make double given in
      let zero = count_at-zero_counts b fresh.buckets [] refl in
      let (total, same) = count-observe_all vs fresh (omega arith) in
      (
        omega (arith, zero, count_at-observe_all b vs fresh (omega (arith, zero))),
        omega (arith, total),
      )
