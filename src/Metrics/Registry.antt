-- ===== src/Metrics/Registry.antt =====
-- `SimpleRegistry` of modules/metrics/src/simple_metrics.cpp and the keys of `MetricsRegistry` in
-- metrics_registry.cpp. A shared pointer is a number: the metrics made so far are counted.
pub mod Handles
use chain_forge.Base.Map.{Map, lookup, insert, contains}
use chain_forge.Base.Text.{Text, codes}
use chain_forge.Base.{ℕ, ◌+◌, Option, none, some, List, [], ◌∷◌, ◌++◌, bytes_eq, length}

pub record SimpleRegistry : Type 0 where
  pub counters : Map Text ℕ
  pub gauges : Map Text ℕ
  pub histograms : Map Text ℕ
  pub made : ℕ

abbrev pub empty : SimpleRegistry
empty = record { counters = []; gauges = []; histograms = []; made = 0 }

unfoldable pub get_counter : Text → SimpleRegistry → ℕ × SimpleRegistry
get_counter name r = elim (lookup name r.counters) [
  | some counter ↦ (counter, r)
  | none ↦ (r.made, record r { counters = insert name r.made r.counters; made = r.made + 1 })
]

unfoldable pub get_gauge : Text → SimpleRegistry → ℕ × SimpleRegistry
get_gauge name r = elim (lookup name r.gauges) [
  | some gauge ↦ (gauge, r)
  | none ↦ (r.made, record r { gauges = insert name r.made r.gauges; made = r.made + 1 })
]

unfoldable pub get_histogram : Text → SimpleRegistry → ℕ × SimpleRegistry
get_histogram name r = elim (lookup name r.histograms) [
  | some histogram ↦ (histogram, r)
  | none ↦ (r.made, record r { histograms = insert name r.made r.histograms; made = r.made + 1 })
]

-- The metrics that are held elsewhere live on.
unfoldable pub clear : SimpleRegistry → SimpleRegistry
clear r = record r { counters = []; gauges = []; histograms = [] }

unfoldable pub metrics_count : SimpleRegistry → ℕ
metrics_count r = length r.counters + length r.gauges + length r.histograms

-- The labels in the order of their keys, each behind a comma but the first.
unfoldable pub print_labels : List (Text × Text) → Text
print_labels [] = []
print_labels ((key, value) ∷ []) = key ++ (codes "=" ++ value)
print_labels ((key, value) ∷ l ∷ labels) =
    key ++ (codes "=" ++ (value ++ (codes "," ++ print_labels (l ∷ labels))))

-- `MetricsRegistry::generate_metric_key`
unfoldable pub generate_metric_key : Text → List (Text × Text) → Text
generate_metric_key name [] = name
generate_metric_key name (l ∷ labels) =
    name ++ (codes "{" ++ (print_labels (l ∷ labels) ++ codes "}"))
