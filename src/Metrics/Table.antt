-- ===== src/Metrics/Table.antt =====
-- Counters and histograms as association lists: the interface with operations that run.
use sturnus.Prelude.{ℕ, refl, String, List, [], list_eq, string_eq}
use sturnus.Prelude.Dict.{Dict, lookup, insert, lookup-insert_self, lookup-insert_ne}
use sturnus.F64.{F64}
use sturnus.Metrics.{Prometheus, IsPrometheus, increased, touched, sampled}

abbrev pub Series : Type 0 → Type 0
Series A = Dict (List String) A

module _ {F : Type 0} ⦃d : F64 F⦄ where
  unfoldable pub table_prometheus : Prometheus F (Series ℕ) (Series (ℕ × F))
  unfolding insert
  table_prometheus = record {
    new_counters = [];
    touch = λ l c. insert l (touched (lookup l c)) c;
    inc = λ l c. insert l (increased (lookup l c)) c;
    count = λ c l. lookup l c;
    new_histograms = [];
    observe = λ l x h. insert l (sampled x (lookup l h)) h;
    samples = λ h l. lookup l h;
  }

  pub table-IsPrometheus : IsPrometheus table_prometheus
  unfolding table_prometheus lookup
  table-IsPrometheus = record {
    count-new_counters = λ l. refl;
    count-touch_self = λ l c. lookup-insert_self l _ c;
    count-touch_ne = λ l k c n. lookup-insert_ne l k _ c n;
    count-inc_self = λ l c. lookup-insert_self l _ c;
    count-inc_ne = λ l k c n. lookup-insert_ne l k _ c n;
    samples-new_histograms = λ l. refl;
    samples-observe_self = λ l x h. lookup-insert_self l _ h;
    samples-observe_ne = λ l k x h n. lookup-insert_ne l k _ h n;
  }
