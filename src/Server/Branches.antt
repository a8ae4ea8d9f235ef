-- ===== src/Server/Branches.antt =====
-- The response of every early return of `handle_request`.
use sturnus.Prelude.{
  ℕ, ◌+◌, ◌%◌, ◌≡◌, refl, false, String, List, Option, none, some, ok, err, ◌>>=◌, string_eq, ◌==◌,
}
use sturnus.F64.{F64, u64_mod}
use sturnus.Candidate.{ResolvedCandidate}
use sturnus.Tracker.{LatencyMode}
use sturnus.Router.{RoundRobinState}
use sturnus.Admission.{BufferBudget, length_required, payload_too_large, too_many_requests, admit}
use sturnus.Body.{RawBody, get_as, visit_map}
use sturnus.ModelMap.{get, alias_names}
use sturnus.Handler.{choose, affinity_of, latency_mode}
use sturnus.Proxy.{Bytes, OutboundBody, prepare_outbound, unwrap_or}
use sturnus.Server.{
  AppState, Env, Failure, method_not_allowed, no_content_length, budget_exhausted, too_large,
  unreadable_body, not_an_object, invalid_json, missing_model, unknown_alias, no_healthy_candidate,
  unserializable, data_category, other_category, Response, json_error,
}
use sturnus.Server.Request.{
  Incoming, length_limit, other_failure, answered, reading, Routed, rejected, forwarding, parsed,
  body_of,
}
use sturnus.Server.Stages.{
  accept, refuse, admitted, reject, give_back, dispatch, send_to, routed, begin, route,
}

module _ {F V M S C H J R E G : Type 0} ⦃d : F64 F⦄ (env : Env F V M S C H J R E)
    (state : AppState F V M S C H G) where
  -- A POST is answered at once where its body is refused, by 411, 413 or 429, of which only the 429
  -- is counted and says when to retry, and leaves the rest of the state as it was; admitted, it holds its permits, and the
  -- affinity header that it came with. A method that is neither GET nor POST is answered by 405.
  pub begin_branches :
      (req : Incoming M)
      → ((req.method == "GET") ≡ false
          → (req.method == "POST") ≡ false
          → begin env state req ≡ some (state, answered (json_error env 405 method_not_allowed)))
        × (req.method ≡ "POST"
            → (admit env.semaphore state.budget req.declared_len ≡ err length_required
                → begin env state req
                  ≡ some (state, answered (json_error env 411 no_content_length)))
              × (admit env.semaphore state.budget req.declared_len ≡ err payload_too_large
                  → begin env state req
                    ≡ some (
                      state,
                      answered (json_error env 413 (too_large state.budget.max_body_bytes)),
                    ))
              × (admit env.semaphore state.budget req.declared_len ≡ err too_many_requests
                  → (resp : Response M) × (resp.status ≡ 429)
                    × (resp.headers
                        ≡ (env.http.insert "retry-after"
                            (env.from_static "1")
                            (json_error env 429 budget_exhausted).headers).0)
                    × (begin env state req
                        ≡ some (
                          record state {
                            metrics = record state.metrics {
                              buffer_rejections_total =
                                  (state.metrics.buffer_rejections_total + 1) % u64_mod;
                            };
                          },
                          answered resp,
                        )))
              × ((budget : BufferBudget S) (owned : ℕ)
                  → admit env.semaphore state.budget req.declared_len ≡ ok (budget, owned)
                  → begin env state req
                    ≡ some (
                      record state { budget = budget },
                      reading owned (env.http.remove "x-session-affinity" req.headers).1,
                    )))
  unfolding begin admitted refuse json_error string_eq
  begin_branches req = (
    λ get post. rw (get, post) refl,
    λ post. (
      λ e. rw (post, e) refl,
      λ e. rw (post, e) refl,
      λ e. rw (post, e) (_, refl, refl, refl),
      λ budget owned e. rw (post, e) refl,
    ),
  )

module _ {F V M S C H J R E G : Type 0} ⦃d : F64 F⦄ (env : Env F V M S C H J R E)
    (state : AppState F V M S C H G) (owned : ℕ) (affinity : Option V) where
  -- A rejected request, with its permits released.
  abbrev pub rejection :
      AppState F V M S C H G → ℕ → Failure E → Option (AppState F V M S C H G × Routed V M)
  rejection after status failure =
      some (give_back env after owned, rejected (json_error env status failure))

  abbrev pub mode_of : RawBody R → LatencyMode
  mode_of body = latency_mode (get_as env.as_bool body "stream")

  -- How a request goes on: a body that is too long when it is read is a 413; one that cannot be
  -- read, is no object, is no JSON, has no model or has one that is no alias is a 400; an alias
  -- without candidates is a 502, and an outbound body that cannot be written a 500. Each of these
  -- releases the permits and, but for what the choice does to the counter of the router, changes
  -- nothing else. Otherwise the request goes to the chosen candidate with the prepared body.
  pub route_branches :
      (route env state owned affinity (err length_limit)
        ≡ rejection state 413 (too_large state.budget.max_body_bytes))
      × (route env state owned affinity (err other_failure) ≡ rejection state 400 unreadable_body)
      × ((bytes : Bytes) (e : E)
          → (env.entries bytes >>= visit_map) ≡ err (data_category e)
          → route env state owned affinity (ok bytes) ≡ rejection state 400 not_an_object)
      × ((bytes : Bytes) (e : E)
          → (env.entries bytes >>= visit_map) ≡ err (other_category e)
          → route env state owned affinity (ok bytes) ≡ rejection state 400 (invalid_json e))
      × ((bytes : Bytes) (body : RawBody R)
          → (env.entries bytes >>= visit_map) ≡ ok body
          → (get_as env.as_string body "model" ≡ none
              → route env state owned affinity (ok bytes) ≡ rejection state 400 missing_model)
            × ((alias : String)
                → get_as env.as_string body "model" ≡ some alias
                → (get state.model_map alias ≡ none
                    → route env state owned affinity (ok bytes)
                      ≡ rejection state 400 (unknown_alias alias (alias_names state.model_map)))
                  × ((cs : List (ResolvedCandidate V M)) (rr : RoundRobinState)
                      → get state.model_map alias ≡ some cs
                      → (choose alias cs state.tracker state.rr_state state.exploit_k
                              (mode_of body)
                              (affinity_of env.http affinity)
                            ≡ some (none, rr)
                          → route env state owned affinity (ok bytes)
                            ≡ rejection
                                (record state { rr_state = rr })
                                502
                                (no_healthy_candidate alias))
                        × ((c : ResolvedCandidate V M)
                            → choose alias cs state.tracker state.rr_state state.exploit_k
                                (mode_of body)
                                (affinity_of env.http affinity)
                              ≡ some (some c, rr)
                            → ((e : E)
                                → prepare_outbound env.json body c.model c.attribution_labels
                                    (some owned)
                                  ≡ err e
                                → route env state owned affinity (ok bytes)
                                  ≡ rejection (record state { rr_state = rr }) 500 unserializable)
                              × ((o : OutboundBody ℕ)
                                  → prepare_outbound env.json body c.model c.attribution_labels
                                      (some owned)
                                    ≡ ok o
                                  → route env state owned affinity (ok bytes)
                                    ≡ some (
                                      record state { rr_state = rr },
                                      forwarding (record {
                                        alias = alias;
                                        candidate = c;
                                        outbound = o;
                                        is_streaming =
                                            unwrap_or (get_as env.as_bool body "stream") false;
                                      }),
                                    ))))))
  unfolding route routed accept body_of parsed send_to dispatch reject
  route_branches = (
    refl,
    refl,
    λ bytes e parse. rw parse refl,
    λ bytes e parse. rw parse refl,
    λ bytes body parse. (
      λ missing. rw (parse, missing) refl,
      λ alias named. (
        λ unknown. rw (parse, named, unknown) refl,
        λ cs rr found. (
          λ empty. rw (parse, named, found, empty) refl,
          λ c chosen. (
            λ e bad. rw (parse, named, found, chosen, bad) refl,
            λ o good. rw (parse, named, found, chosen, good) refl,
          ),
        ),
      ),
    ),
  )
