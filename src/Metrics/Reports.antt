-- ===== src/Metrics/Reports.antt =====
-- The series that `init_zero` makes.
use sturnus.Prelude.{
  ◌≡◌, refl, ◌∙◌, String, arith, List, [], ◌∷◌, none, some, map, contains, list_eq, string_eq,
  if◌then◌else◌,
}
use sturnus.F64.{F64}
use sturnus.Metrics.{Prometheus, IsPrometheus, touched, new_metrics, touch_all, init_zero}

-- The label values of a triple.
abbrev pub labels_of : String × String × String → List String
labels_of (alias, provider, model) = alias ∷ provider ∷ model ∷ []

module _ {F C H : Type 0} ⦃d : F64 F⦄ (prom : Prometheus F C H) (laws : IsPrometheus prom) where
  touch_all-counts :
      (ts : List (String × String × String)) (c : C) (l : List String)
      → prom.count (touch_all prom ts c) l ≡ (
          if contains (map labels_of ts) l then some (touched (prom.count c l)) else prom.count c l)
  unfolding touch_all
  touch_all-counts [] c l = refl
  touch_all-counts ((a, p, m) ∷ ts) c l =
      let key = a ∷ p ∷ m ∷ [] in
      touch_all-counts ts (prom.touch key c) l
      ∙ ground (arith, laws.count-touch_self key c, laws.count-touch_ne key l c)

  -- After `init_zero` on fresh metrics, the error counter shows a zero for each of the triples and
  -- no other series, and the request counter and both histograms show nothing.
  pub init_zero_lem :
      (ts : List (String × String × String)) (l : List String)
      → let m = init_zero prom (new_metrics prom) ts in
        (prom.count m.errors_total l ≡ (if contains (map labels_of ts) l then some 0 else none))
        × (prom.count m.requests_total l ≡ none)
        × (prom.samples m.ttfc_seconds l ≡ none)
        × (prom.samples m.latency_seconds l ≡ none)
        × (m.buffer_rejections_total ≡ 0)
  unfolding init_zero new_metrics
  init_zero_lem ts l = (
    touch_all-counts ts prom.new_counters l ∙ rw (laws.count-new_counters l) refl,
    laws.count-new_counters l,
    laws.samples-new_histograms l,
    laws.samples-new_histograms l,
    refl,
  )
