-- ===== src/Listeners/Roles.antt =====
-- The observability listener against the full router.
use sturnus.Prelude.{
  ◌≡◌, refl, sym, ap, true, false, Option, none, some, some-injective, ◌==◌, string_eq,
}
use sturnus.Prelude.Partial.{◌>>=◌, >>=-eq-some}
use sturnus.F64.{F64}
use sturnus.Server.{AppState, Env, Response, json_error, not_found}
use sturnus.Server.Observability.{handle_observability_request, observability_get, or_not_found}
use sturnus.Server.Request.{Incoming, answered}
use sturnus.Server.Stages.{begin}
use sturnus.Server.Handle.{World, handle_request, after_begin}
use sturnus.Listeners.{full, observability, serve}

module _ {F V M S C H J R E G : Type 0} ⦃d : F64 F⦄ (env : Env F V M S C H J R E)
    (world : World M E) (state : AppState F V M S C H G) (req : Incoming M) where
  -- A GET gets the same response on both listeners; anything else is a 404 on the observability
  -- listener, which never changes the shared state, so that it never proxies.
  pub roles_agree :
      ((req.method == "GET") ≡ true
        → serve env world full state req ≡ serve env world observability state req)
      × ((req.method == "GET") ≡ false
          → serve env world observability state req ≡ some (state, json_error env 404 not_found))
      × ((after : AppState F V M S C H G) (response : Response M)
          → serve env world observability state req ≡ some (after, response)
          → after ≡ state)
  unfolding serve handle_request after_begin begin handle_observability_request
  roles_agree = (
    λ get. rw get (same (observability_get env state req.path)),
    λ other. rw other refl,
    λ after response e.
        let (r, _, f) =
          >>=-eq-some (handle_observability_request env state req.method req.path) _ e in
        ap (λ x. x.0) (sym (some-injective _ _ f)),
  )
    where
      same :
          (found : Option (Option (Response M)))
          → ((found >>= λ x. some (state, answered (or_not_found env x)))
              >>= after_begin env world req.path)
            ≡ ((found >>= λ x. some (or_not_found env x)) >>= λ x. some (state, x))
      same none = refl
      same (some x) = refl
