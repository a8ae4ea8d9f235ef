-- ===== src/ModelMap/Tests.antt =====
-- Runs of the model map's construction, and the theorems at inputs where they apply.
use sturnus.Prelude.{
  ◌≡◌, ◌↔◌, refl, String, List, [], ◌∷◌, some, string_eq, pair_eq, ok, err, All, map, ℕ, Result,
}
use sturnus.Prelude.Dict.{lookup, insert, NodupKeys}
use sturnus.F64.Fixed.{Fixed, fixed_f64}
use sturnus.Http.Table.{Table, table_http}
use sturnus.Config.Sample.{sample, gemini, llama}
use sturnus.Config.Checks.{resolved_headers}
use sturnus.Config.{resolved_base_url}
use sturnus.Config.Sample.{sample_valid}
use sturnus.ModelMap.{ModelMap, MapError, slot_for, Registry, from_config, get, iter}
use sturnus.ModelMap.Sample.{fresh, gemini_ready, llama_ready, registry, model_map, built}
use sturnus.ModelMap.Slots.{SameModel, from_config_shares_slots}
use sturnus.ModelMap.Aliases.{Answers, from_config-Answers}
use sturnus.ModelMap.Startup.{HasHeaders, from_config_succeeds}

abbrev slots_of :
    Result MapError (Registry Fixed × ModelMap String Table) → List (String × String × ℕ)
slots_of (err e) = []
slots_of (ok (r, m)) = map (λ (alias, c). (alias, c.provider_name, c.stats_index)) (iter m)

slots_test :
    slots_of (from_config table_http sample fresh)
    ≡ ("fast", "vertex", 0) ∷ ("fast", "local", 1) ∷ ("big", "vertex", 0) ∷ []
unfolding from_config string_eq fixed_f64 table_http iter lookup resolved_base_url resolved_headers
    insert slot_for pair_eq
slots_test = refl

pairs_test :
    iter model_map ≡ ("fast", gemini_ready) ∷ ("fast", llama_ready) ∷ ("big", gemini_ready) ∷ []
unfolding iter
pairs_test = refl

from_config_shares_slots_example :
    All
      (λ (_, a). All (λ (_, b). (a.stats_index ≡ b.stats_index) ↔ SameModel a b) (iter model_map))
      (iter model_map)
from_config_shares_slots_example =
    from_config_shares_slots table_http sample fresh registry model_map built

sample_nodup : NodupKeys sample.model
unfolding lookup string_eq
sample_nodup = (refl, (refl, tt))

from_config-Answers_example :
    Answers table_http sample (lookup "big" sample.model) (get model_map "big")
from_config-Answers_example =
    from_config-Answers table_http sample fresh registry model_map "big" sample_nodup built

gemini-HasHeaders : HasHeaders table_http gemini
unfolding table_http string_eq
gemini-HasHeaders = record {
  provider_value = "vertex";
  provider_parsed = refl;
  affinity_value = "vertex/gemini";
  affinity_parsed = refl;
}

llama-HasHeaders : HasHeaders table_http llama
unfolding table_http string_eq
llama-HasHeaders = record {
  provider_value = "local";
  provider_parsed = refl;
  affinity_value = "local/llama";
  affinity_parsed = refl;
}

from_config_succeeds_example :
    (done : Registry Fixed × ModelMap String Table) × (from_config table_http sample fresh
      ≡ ok done)
from_config_succeeds_example =
    from_config_succeeds some table_http sample fresh sample_valid
      ((gemini-HasHeaders, (llama-HasHeaders, tt)), ((gemini-HasHeaders, tt), tt))
