-- ===== src/Metrics.antt =====
-- src/metrics.rs: the counters and the histograms, and what `handle_request` reports to them.
-- The vectors of the prometheus crate are a parameter: `C` is `IntCounterVec`, `H` is
-- `HistogramVec`, and `IsPrometheus` is what the crate documents. A series is named by the values
-- of its labels in order. The registry holds the same vectors, so it is left out.
pub mod Table
pub mod Reports
use sturnus.Prelude.{ℕ, ◌+◌, ◌/◌, ◌%◌, ◌≡◌, ◌≢◌, String, List, [], ◌∷◌, Option, none, some}
use sturnus.F64.{F64, u64_mod}
use sturnus.Tracker.{Duration}

pub record Prometheus (F C H : Type 0) : Type 0 where
  pub new_counters : C
  -- `with_label_values`, which makes the series if it is new.
  pub touch : List String → C → C
  -- `with_label_values(...).inc()`
  pub inc : List String → C → C
  -- What a series of the vector shows.
  pub count : C → List String → Option ℕ
  pub new_histograms : H
  -- `with_label_values(...).observe(x)`
  pub observe : List String → F → H → H
  -- The number of the observations of a series, and their sum.
  pub samples : H → List String → Option (ℕ × F)

-- What a series shows after an `inc`, whose counter has 64 bits.
abbrev pub increased : Option ℕ → ℕ
increased none = 1
increased (some n) = (n + 1) % u64_mod

abbrev pub touched : Option ℕ → ℕ
touched none = 0
touched (some n) = n

module _ {F : Type 0} ⦃d : F64 F⦄ where
  abbrev pub sampled : F → Option (ℕ × F) → ℕ × F
  sampled x none = (1, d.add (d.decimal 0 0) x)
  sampled x (some (n, sum)) = ((n + 1) % u64_mod, d.add sum x)

pub record IsPrometheus {F C H : Type 0} ⦃d : F64 F⦄ (prom : Prometheus F C H) : Type 0 where
  pub count-new_counters : (l : List String) → prom.count prom.new_counters l ≡ none
  pub count-touch_self :
      (l : List String) (c : C) → prom.count (prom.touch l c) l ≡ some (touched (prom.count c l))
  pub count-touch_ne :
      (l k : List String) (c : C) → l ≢ k → prom.count (prom.touch l c) k ≡ prom.count c k
  pub count-inc_self :
      (l : List String) (c : C) → prom.count (prom.inc l c) l ≡ some (increased (prom.count c l))
  pub count-inc_ne :
      (l k : List String) (c : C) → l ≢ k → prom.count (prom.inc l c) k ≡ prom.count c k
  pub samples-new_histograms : (l : List String) → prom.samples prom.new_histograms l ≡ none
  pub samples-observe_self :
      (l : List String) (x : F) (h : H)
      → prom.samples (prom.observe l x h) l ≡ some (sampled x (prom.samples h l))
  pub samples-observe_ne :
      (l k : List String) (x : F) (h : H)
      → l ≢ k
      → prom.samples (prom.observe l x h) k ≡ prom.samples h k

pub record Metrics (C H : Type 0) : Type 0 where
  pub requests_total : C
  pub ttfc_seconds : H
  pub latency_seconds : H
  pub errors_total : C
  -- The `IntCounter` without labels.
  pub buffer_rejections_total : ℕ

-- `Duration::as_secs_f64`
unfoldable pub as_secs_f64 : {F : Type 0} ⦃d : F64 F⦄ → Duration → F
as_secs_f64 ⦃d⦄ t =
    d.add (d.of_u64 (t / 1_000_000_000))
      (d.div (d.of_u64 (t % 1_000_000_000)) (d.of_u64 1_000_000_000))

module _ {F C H : Type 0} (prom : Prometheus F C H) where
  unfoldable pub new_metrics : Metrics C H
  new_metrics = record {
    requests_total = prom.new_counters;
    ttfc_seconds = prom.new_histograms;
    latency_seconds = prom.new_histograms;
    errors_total = prom.new_counters;
    buffer_rejections_total = 0;
  }

  -- The loop over the triples of alias, provider and model.
  unfoldable pub touch_all : List (String × String × String) → C → C
  touch_all [] c = c
  touch_all ((alias, provider, model) ∷ rest) c =
      touch_all rest (prom.touch (alias ∷ provider ∷ model ∷ []) c)

  unfoldable pub init_zero : Metrics C H → List (String × String × String) → Metrics C H
  unfolding touch_all
  init_zero m aliases = record m { errors_total = touch_all aliases m.errors_total }
