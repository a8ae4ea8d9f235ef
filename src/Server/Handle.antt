-- ===== src/Server/Handle.antt =====
-- `handle_request` from end to end, when no other request comes between.
use sturnus.Prelude.{ℕ, String, Option, none, some, Result}
use sturnus.Prelude.Partial.{◌>>=◌}
use sturnus.F64.{F64}
use sturnus.Proxy.{Bytes}
use sturnus.Proxy.Request.{
  ForwardError, ProxyResult, UpstreamRequest, UpstreamResponse, forward_request,
}
use sturnus.Server.{AppState, Env, Response}
use sturnus.Server.Request.{
  Incoming, ReadFailure, Begun, answered, reading, Forwarding, Routed, rejected, forwarding,
  owned_by,
}
use sturnus.Server.Stages.{begin, route, give_back, finish}

-- What the world answers: the body of the request, the response of the upstream and the token.
pub record World (M E : Type 0) : Type 0 where
  pub read : Result ReadFailure Bytes
  pub respond_to : UpstreamRequest M ℕ → Result (ForwardError E) (UpstreamResponse M E)
  pub token : Option String

module _ {F V M S C H J R E G : Type 0} ⦃d : F64 F⦄ (env : Env F V M S C H J R E)
    (world : World M E) where
  -- `state.gcp_token_provider.as_ref()`, with the result of its `get_token`.
  abbrev pub tokens : Option G → Option (Option String)
  tokens none = none
  tokens (some _) = some world.token

  unfoldable pub forward :
      AppState F V M S C H G → String → Forwarding V M → Result (ForwardError E) (ProxyResult M)
  forward state path f =
      forward_request env.http env.from_bytes env.error_event world.respond_to f.candidate path
        f.outbound f.is_streaming state.budget.max_body_bytes (tokens state.gcp_token_provider)

  -- The outbound body, and its permit, is gone when the upstream has answered.
  unfoldable pub after_route :
      String → AppState F V M S C H G × Routed V M → Option (AppState F V M S C H G × Response M)
  unfolding forward
  after_route path (state, rejected response) = some (state, response)
  after_route path (state, forwarding f) =
      finish env (give_back env state (owned_by f)) f (forward state path f)

  unfoldable pub after_begin :
      String → AppState F V M S C H G × Begun V M → Option (AppState F V M S C H G × Response M)
  unfolding after_route
  after_begin path (state, answered response) = some (state, response)
  after_begin path (state, reading owned affinity) =
      route env state owned affinity world.read >>= after_route path

  unfoldable pub handle_request :
      AppState F V M S C H G → Incoming M → Option (AppState F V M S C H G × Response M)
  unfolding after_begin
  handle_request state req = begin env state req >>= after_begin req.path
