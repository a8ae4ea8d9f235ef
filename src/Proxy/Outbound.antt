-- ===== src/Proxy/Outbound.antt =====
-- `prepare_body` and `prepare_outbound`: what the upstream is sent.
use text.Mathlib.TextEquality.{eq_iff}
use sturnus.Prelude.{
  ◌≤◌, ◌≡◌, ◌≢◌, refl, sym, ap, ◌∙◌, subst, true, false, String, [], ◌∷◌, Option, none, some, arith,
  string_eq, ◌==◌, length, ok, >>=-eq-ok, ok-injective,
}
use sturnus.Prelude.Dict.{
  Dict, lookup, insert, lookup-insert, lookup-insert_self, lookup-insert_ne, NodupKeys,
}
use sturnus.F64.{u64_max}
use sturnus.Body.{RawBody, get, set}
use sturnus.Proxy.{
  Bytes, OutboundBody, poll_frame, is_end_stream, size_hint, Json, merge, labels_of, client_labels,
  set_labels, prepare_body, prepare_outbound,
}

model_not_labels : ◌≢◌ {A = String} "model" "labels"
model_not_labels = ground (arith, eq_iff "model" "labels")

module _ {R : Type 0} where
  get-set_self : (b : RawBody R) (key : String) (v : R) → get (set b key v) key ≡ some v
  unfolding get set
  get-set_self b key v = lookup-insert_self key v b.fields

  get-set_ne :
      (b : RawBody R) (key other : String) (v : R)
      → key ≢ other
      → get (set b key v) other ≡ get b other
  unfolding get set
  get-set_ne b key other v n = lookup-insert_ne key other v b.fields n

module _ {R J E : Type 0} (json : Json R J E) where
  -- A configured label, or else the client's.
  abbrev pub winner : Option String → Option J → Option J
  winner (some v) theirs = some (json.string_value v)
  winner none theirs = theirs

  -- The configured labels are merged over the client's: each of them wins, and the client keeps its
  -- other labels, where the configured ones have distinct keys.
  pub merge_wins :
      (theirs : Dict String J) (labels : Dict String String) (key : String)
      → NodupKeys labels
      → lookup key (merge json theirs labels) ≡ winner (lookup key labels) (lookup key theirs)
  unfolding merge lookup
  merge_wins theirs [] key _ = refl
  merge_wins theirs ((k, v) ∷ labels) key (fresh, u) =
      let later = merge_wins (insert k (json.string_value v) theirs) labels key u in
      let now = lookup-insert k key (json.string_value v) theirs in
      elim (string_eq.dec k key) [
        | no other ↦
            let miss : (k == key) ≡ false = ground (arith, other) in later ∙ rw (now, miss) refl
        | yes same ↦
            let hit : (k == key) ≡ true = ground (arith, same) in
            let absent : lookup key labels ≡ none =
              subst (λ x. lookup x labels ≡ none) same fresh in
            later ∙ rw (now, hit, absent) refl
      ]

  -- The labels of the outbound body.
  abbrev pub LabelsOf : RawBody R → Option (Dict String String) → RawBody R → Type 0
  LabelsOf body none sent = get sent "labels" ≡ get body "labels"
  LabelsOf body (some labels) sent =
      (raw : R) × (json.raw_object (merge json (client_labels json body) labels) ≡ ok raw)
      × (get sent "labels" ≡ some raw)

  client_labels-set :
      (body : RawBody R) (raw : R)
      → client_labels json (set body "model" raw) ≡ client_labels json body
  unfolding client_labels
  client_labels-set body raw =
      ap (labels_of json) (get-set_ne body "model" "labels" raw model_not_labels)

  -- What a prepared body holds.
  abbrev pub IsPrepared : RawBody R → String → Option (Dict String String) → RawBody R → Type 0
  IsPrepared body real_model labels sent =
      ((raw : R) × (json.raw_string real_model ≡ ok raw) × (get sent "model" ≡ some raw))
      × LabelsOf body labels sent
      × ((key : String) → "model" ≢ key → "labels" ≢ key → get sent key ≡ get body key)

  -- A prepared body has the upstream's name of the model, the labels merged where there are any to
  -- merge, and every other field of the client as it was.
  pub prepare_body_lem :
      (body sent : RawBody R) (real_model : String) (labels : Option (Dict String String))
      → prepare_body json body real_model labels ≡ ok sent
      → IsPrepared body real_model labels sent
  unfolding prepare_body set_labels
  prepare_body_lem body sent real_model none e =
      let (raw, e1, f) = >>=-eq-ok (json.raw_string real_model) _ e in
      subst (IsPrepared body real_model none) (ok-injective f) (
        (raw, e1, get-set_self body "model" raw),
        get-set_ne body "model" "labels" raw model_not_labels,
        λ key n _. get-set_ne body "model" key raw n,
      )
  prepare_body_lem body sent real_model (some labels) e =
      let (raw, e1, f) = >>=-eq-ok (json.raw_string real_model) _ e in
      let named = set body "model" raw in
      let (merged, e2, g) =
        >>=-eq-ok (json.raw_object (merge json (client_labels json named) labels)) _ f in
      let same = client_labels-set body raw in
      subst (IsPrepared body real_model (some labels)) (ok-injective g) (
        (
          raw,
          e1,
          get-set_ne named "labels" "model" merged (λ e. model_not_labels (sym e))
              ∙ get-set_self body "model" raw,
        ),
        (
          merged,
          subst (λ l. json.raw_object (merge json l labels) ≡ ok merged) same e2,
          get-set_self named "labels" merged,
        ),
        λ key n m. get-set_ne named "labels" key merged m ∙ get-set_ne body "model" key raw n,
      )

  -- A prepared body is sent in one frame of all its bytes, after which the stream ends; the size
  -- hint is the number of bytes still to send, before and after, and the permit stays with the body.
  pub prepare_outbound_once :
      {P : Type 0} (body : RawBody R) (real_model : String) (labels : Option (Dict String String))
      (permit : Option P) (o : OutboundBody P)
      → prepare_outbound json body real_model labels permit ≡ ok o
      → (sent : RawBody R) × (bytes : Bytes) × (prepare_body json body real_model labels ≡ ok sent)
        × (json.to_vec sent ≡ ok bytes)
        × (o.permit ≡ permit)
        × ((poll_frame o).0 ≡ some bytes)
        × (length bytes ≤ u64_max → size_hint o ≡ length bytes)
        × (is_end_stream (poll_frame o).1 ≡ true)
        × (size_hint (poll_frame o).1 ≡ 0)
        × ((poll_frame (poll_frame o).1).0 ≡ none)
  unfolding prepare_outbound poll_frame size_hint is_end_stream
  prepare_outbound_once body real_model labels permit o e =
      let (sent, e1, f) = >>=-eq-ok (prepare_body json body real_model labels) _ e in
      let (bytes, e2, g) = >>=-eq-ok (json.to_vec sent) _ f in
      let same = ok-injective g in
      (
        sent,
        bytes,
        e1,
        e2,
        ap (λ b. b.permit) (sym same),
        ap (λ b. b.data') (sym same),
        λ small. ap size_hint (sym same) ∙ ground arith,
        refl,
        refl,
        refl,
      )
