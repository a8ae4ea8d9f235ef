-- ===== src/Config/Urls.antt =====
-- `resolved_base_url` and `resolved_kind` on all combinations of the provider shorthands.
use text.Mathlib.Text.{starts_with}
use text.Mathlib.TextLemmas.{append_assoc}
use text.Mathlib.TextPositions.{starts_with-append}
use sturnus.Prelude.{
  ◌≡◌, ◌≢◌, ◌↔◌, sym, ap, ◌∙◌, true, String, Option, none, some, arith, ◌⊎◌, inl, inr,
  some-injective, ◌<>◌, subst, Option-cases,
}
use sturnus.Config.{
  ProviderConfig, VertexAiConfig, AzureOpenAiConfig, GoogleAiConfig, AnthropicConfig, vertex_url,
  shorthand_url, resolved_base_url, kind_of, resolved_kind,
}
use sturnus.Candidate.{gcp_adc}

https : (rest u : String) → some ("https://" <> rest) ≡ some u → starts_with u "https://" ≡ true
https rest u e =
    subst (λ t. starts_with t "https://" ≡ true) (some-injective _ _ e)
      (starts_with-append "https://" rest)

shorthand_url-https :
    (v : Option VertexAiConfig) (az : Option AzureOpenAiConfig) (g : Option GoogleAiConfig)
    (a : Option AnthropicConfig) (u : String)
    → shorthand_url v az g a ≡ some u
    → starts_with u "https://" ≡ true
unfolding shorthand_url vertex_url
shorthand_url-https (some v) az g a u e = https _ u e
shorthand_url-https none (some az) g a u e = https _ u e
shorthand_url-https none none (some g) a u e =
    https ("generativelanguage.googleapis.com/" <> (g.api_version <> "/openai")) u (
      ap some (
        sym (
          append_assoc "https://" "generativelanguage.googleapis.com/"
            (g.api_version <> "/openai")))
      ∙ e)
shorthand_url-https none none none (some a) u e = https "api.anthropic.com/v1" u e
shorthand_url-https none none none none u e = cc

-- A provider's URL is the one that its configuration states; only without one is it a shorthand's,
-- and then it is an HTTPS URL.
pub resolved_base_url_lem :
    (p : ProviderConfig) (u : String)
    → resolved_base_url p ≡ some u
    → (p.base_url ≡ some u) ⊎ ((p.base_url ≡ none) × (starts_with u "https://" ≡ true))
unfolding resolved_base_url
resolved_base_url_lem p u e = elim (Option-cases p.base_url) [
  | inl unset ↦ inr (
    unset,
    shorthand_url-https p.vertex_ai p.azure_openai p.google_ai p.anthropic u (rw unset at e),
  )
  | inr (stated, set) ↦ inl (set ∙ (rw set at e))
]

kind_of-gcp_adc :
    (key : Option String) (v : Option VertexAiConfig) (az : Option AzureOpenAiConfig)
    (g : Option GoogleAiConfig) (a : Option AnthropicConfig)
    → (kind_of key v az g a ≡ gcp_adc) ↔ ((key ≡ none) × (v ≢ none))
unfolding kind_of
kind_of-gcp_adc (some key) (some v) az g a = ground arith
kind_of-gcp_adc none (some v) az g a = ground arith
kind_of-gcp_adc none none (some az) g a = ground arith
kind_of-gcp_adc none none none (some g) a = ground arith
kind_of-gcp_adc none none none none (some a) = ground arith
kind_of-gcp_adc none none none none none = ground arith
kind_of-gcp_adc (some key) none (some az) g a = ground arith
kind_of-gcp_adc (some key) none none (some g) a = ground arith
kind_of-gcp_adc (some key) none none none (some a) = ground arith
kind_of-gcp_adc (some key) none none none none = ground arith

-- Google credentials are fetched for exactly the Vertex AI providers that have no API key.
pub resolved_kind-gcp_adc :
    (p : ProviderConfig) → (resolved_kind p ≡ gcp_adc) ↔ ((p.api_key ≡ none) × (p.vertex_ai ≢ none))
unfolding resolved_kind
resolved_kind-gcp_adc p =
    kind_of-gcp_adc p.api_key p.vertex_ai p.azure_openai p.google_ai p.anthropic
