-- ===== src/Metrics/Registry/Handles.antt =====
-- Which metric a name stands for.
use chain_forge.Metrics.Registry.{
  SimpleRegistry, get_counter, get_gauge, get_histogram, print_labels, generate_metric_key,
}
use chain_forge.Base.Map.{lookup}
use chain_forge.Base.Map.Laws.{lookup-insert_self, lookup-insert}
use chain_forge.Base.Text.{Text, codes}
use chain_forge.Base.{
  inr, bytes_beq_iff, inl, ℕ, ◌≡◌, refl, some, List, [], ◌∷◌, ◌++◌, bytes_eq, arith, Option-cases,
}
use mathlib.Core.List.{append_assoc}

-- A call on the registry.
pub data Call : Type 0 where
  counter gauge histogram : Text → Call

abbrev pub step : Call → SimpleRegistry → SimpleRegistry
step (counter name) r = (get_counter name r).1
step (gauge name) r = (get_gauge name r).1
step (histogram name) r = (get_histogram name r).1

abbrev pub run : List Call → SimpleRegistry → SimpleRegistry
run [] r = r
run (c ∷ cs) r = run cs (step c r)

keeps :
    (c : Call) (r : SimpleRegistry) (name : Text) (n : ℕ)
    → lookup name r.counters ≡ some n
    → lookup name (step c r).counters ≡ some n
unfolding get_counter get_gauge get_histogram
keeps (counter other) r name n h = elim (Option-cases (lookup other r.counters)) [
  | inl e ↦
      ground (arith, e, h, lookup-insert name other r.made r.counters, bytes_beq_iff name other)
  | inr (m, e) ↦ ground (arith, e, h)
]
keeps (gauge other) r name n h = elim (Option-cases (lookup other r.gauges)) [
  | inl e ↦ ground (arith, e, h)
  | inr (m, e) ↦ ground (arith, e, h)
]
keeps (histogram other) r name n h = elim (Option-cases (lookup other r.histograms)) [
  | inl e ↦ ground (arith, e, h)
  | inr (m, e) ↦ ground (arith, e, h)
]

run-keeps :
    (cs : List Call) (r : SimpleRegistry) (name : Text) (n : ℕ)
    → lookup name r.counters ≡ some n
    → lookup name (run cs r).counters ≡ some n
run-keeps [] r name n h = h
run-keeps (c ∷ cs) r name n h = run-keeps cs (step c r) name n (keeps c r name n h)

get_counter-held :
    (name : Text) (r : SimpleRegistry)
    → lookup name (get_counter name r).1.counters ≡ some (get_counter name r).0
unfolding get_counter
get_counter-held name r = elim (Option-cases (lookup name r.counters)) [
  | inl e ↦ ground (arith, e, lookup-insert_self name r.made r.counters)
  | inr (n, e) ↦ ground (arith, e)
]

get_counter-found :
    (name : Text) (r : SimpleRegistry) (n : ℕ)
    → lookup name r.counters ≡ some n
    → (get_counter name r).0 ≡ n
unfolding get_counter
get_counter-found name r n h = ground (arith, h)

-- A name stands for the same counter however many metrics are asked for in between, as long as the
-- registry is not cleared.
pub get_counter-same :
    (name : Text) (cs : List Call) (r : SimpleRegistry)
    → (get_counter name (run cs (get_counter name r).1)).0 ≡ (get_counter name r).0
get_counter-same name cs r =
    get_counter-found name (run cs (get_counter name r).1) (get_counter name r).0
      (run-keeps cs (get_counter name r).1 name (get_counter name r).0 (get_counter-held name r))

print_labels-merged :
    (k v l w : Text) (labels : List (Text × Text))
    → print_labels ((k, v ++ (codes "," ++ (l ++ (codes "=" ++ w)))) ∷ labels)
      ≡ print_labels ((k, v) ∷ (l, w) ∷ labels)
unfolding print_labels
print_labels-merged k v l w [] = refl
print_labels-merged k v l w (m ∷ labels) = simp append_assoc

-- The key of a metric does not tell its labels apart: a label whose value holds a comma and an
-- equals sign has the key of two labels, so that the registry returns the metric of the other.
pub generate_metric_key-collides :
    (name k v l w : Text) (labels : List (Text × Text))
    → generate_metric_key name ((k, v ++ (codes "," ++ (l ++ (codes "=" ++ w)))) ∷ labels)
      ≡ generate_metric_key name ((k, v) ∷ (l, w) ∷ labels)
unfolding generate_metric_key
generate_metric_key-collides name k v l w labels = rw (print_labels-merged k v l w labels) refl
