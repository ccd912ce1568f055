-- ===== src/Metrics/Pusher.antt =====
-- adapters/prometheus/pusher.go. The client library's counters, gauges and histograms are kept as the
-- calls that were made on them, newest first, and its pusher as the collectors that it was given.
use bridge_core.Prelude.{String, Option, none, some, List, [], ◌∷◌, ◌++◌}
use bridge_core.Prelude.Int.{ℤ, pos, negsuc}
use bridge_core.Prelude.Outcome.{Outcome, returns, panics, ◌>>=◌}
use bridge_core.Prelude.Map.{string_eq, lookup, insert}

pub data Kind : Type 0 where
  counter gauge histogram : Kind

pub record Collector : Type 0 where
  pub kind : Kind
  pub name : String
  pub help : String
  pub const_labels : List (String × String)

pub data Call : Type 0 where
  adds sets observes : ℤ → Call

pub record Pusher : Type 0 where
  pub counters : List (String × List Call)
  pub gauges : List (String × List Call)
  pub histograms : List (String × List Call)
  pub collectors : List Collector
  pub labels : List (String × String)

abbrev pub new_pusher : String → Pusher
new_pusher instance_name = record {
  counters = [];
  gauges = [];
  histograms = [];
  collectors = [];
  labels = ("instance", instance_name) ∷ [];
}

-- `for k, v := range p.labels { labels[k] = v }`, over a map that is there
abbrev pub merge : List (String × String) → List (String × String) → List (String × String)
merge [] labels = labels
merge ((k, v) ∷ own) labels = insert k v (merge own labels)

-- The loop over the labels that a caller gave; `none` is a nil map, in which a write panics.
abbrev pub merged :
    List (String × String) → Option (List (String × String)) → Outcome (List (String × String))
merged own (some labels) = returns (merge own labels)
merged [] none = returns []
merged (label ∷ own) none = panics

abbrev pub collector : Kind → String → String → List (String × String) → Collector
collector kind name description labels = record {
  kind = kind;
  name = name;
  help = description;
  const_labels = labels;
}

abbrev new_counter : String → String → List (String × String) → Pusher → Pusher
new_counter name description labels p = elim (lookup name p.counters) [
  | none ↦ record p {
    counters = insert name [] p.counters;
    collectors = p.collectors ++ collector counter name description labels ∷ [];
  }
  | some calls ↦ p
]

abbrev new_gauge : String → String → List (String × String) → Pusher → Pusher
new_gauge name description labels p = elim (lookup name p.gauges) [
  | none ↦ record p {
    gauges = insert name [] p.gauges;
    collectors = p.collectors ++ collector gauge name description labels ∷ [];
  }
  | some calls ↦ p
]

abbrev new_histogram : String → String → List (String × String) → Pusher → Pusher
new_histogram name description labels p = elim (lookup name p.histograms) [
  | none ↦ record p {
    histograms = insert name [] p.histograms;
    collectors = p.collectors ++ collector histogram name description labels ∷ [];
  }
  | some calls ↦ p
]

unfoldable pub add_counter : String → String → Pusher → Pusher
add_counter name description p = new_counter name description p.labels p

unfoldable pub add_counter_with_label :
    String → String → Option (List (String × String)) → Pusher → Outcome Pusher
add_counter_with_label name description labels p = elim (lookup name p.counters) [
  | some calls ↦ returns p
  | none ↦ (merged p.labels labels >>= λ all. returns (new_counter name description all p))
]

unfoldable pub add_gauge : String → String → Pusher → Pusher
add_gauge name description p = new_gauge name description p.labels p

unfoldable pub add_gauge_with_label :
    String → String → Option (List (String × String)) → Pusher → Outcome Pusher
add_gauge_with_label name description labels p = elim (lookup name p.gauges) [
  | some calls ↦ returns p
  | none ↦ (merged p.labels labels >>= λ all. returns (new_gauge name description all p))
]

unfoldable pub add_histogram : String → String → Pusher → Pusher
add_histogram name description p = new_histogram name description p.labels p

unfoldable pub add_histogram_with_labels :
    String → String → Option (List (String × String)) → Pusher → Outcome Pusher
add_histogram_with_labels name description labels p = elim (lookup name p.histograms) [
  | some calls ↦ returns p
  | none ↦ (merged p.labels labels >>= λ all. returns (new_histogram name description all p))
]

-- `Add` of a counter, which panics on a value below zero.
abbrev pub add_to : ℤ → List Call → Outcome (List Call)
add_to (pos n) calls = returns (adds (pos n) ∷ calls)
add_to (negsuc n) calls = panics

-- In this and the next ones `none` is the error that the metric was not initialized.
unfoldable pub incr_counter : String → ℤ → Pusher → Outcome (Option Pusher)
incr_counter name value p = elim (lookup name p.counters) [
  | none ↦ returns none
  | some calls ↦
      (add_to value calls >>= λ added.
      returns (some (record p { counters = insert name added p.counters })))
]

unfoldable pub incr_gauge : String → ℤ → Pusher → Option Pusher
incr_gauge name value p = elim (lookup name p.gauges) [
  | none ↦ none
  | some calls ↦ some (record p { gauges = insert name (adds value ∷ calls) p.gauges })
]

unfoldable pub set_gauge : String → ℤ → Pusher → Option Pusher
set_gauge name value p = elim (lookup name p.gauges) [
  | none ↦ none
  | some calls ↦ some (record p { gauges = insert name (sets value ∷ calls) p.gauges })
]

unfoldable pub observe_histogram : String → ℤ → Pusher → Option Pusher
observe_histogram name value p = elim (lookup name p.histograms) [
  | none ↦ none
  | some calls ↦ some (record p { histograms = insert name (observes value ∷ calls) p.histograms })
]
