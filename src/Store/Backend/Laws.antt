-- ===== src/Store/Backend/Laws.antt =====
-- What the reads and conditional writes of internal/store/backend.go do to the object at a key,
-- for any S3 client that keeps to the laws of `IsS3`.
use arbetern.Base.{
  ◌≡◌, refl, sym, ap, ◌∙◌, ◌≢◌, ◌⊎◌, inl, inr, true, Option, none, some, String, arith, eq_iff,
  Option-cases,
}
use arbetern.Store.Client.{ApiError, Reply, done, failed, Client, IsS3, Meets}
use arbetern.Store.Backend.{
  Error, not_found, Result, ok, err, Condition, if_tag, headers, Codec, get, put, delete, get_json,
  put_json,
}

abbrev opened : {T : Type 0} → Codec T → Option String → Option T
opened json none = none
opened json (some b) = json.unmarshal b

-- The decoded document at a key.
abbrev pub stored : (c : Client) {T : Type 0} → Codec T → c.State → String → Option T
stored c json s key = opened json (c.object s key)

-- What stands at the key meets a condition of the code: it is the body with the condition's tag,
-- or there is none.
abbrev pub Allows : (c : Client) → Condition → Option String → Type 0
Allows c cond o =
    (cond.if_match ≢ "" → (b : String) × (o ≡ some b) × (c.etag b ≡ cond.if_match))
    × (cond.if_none_match ≡ true → o ≡ none)

-- The object at the key is as it was, or the condition held and it is the new document.
abbrev pub Written :
    (c : Client) {T : Type 0} → Codec T → String → T → Condition → c.State → c.State → Type 0
Written c json key v cond s s' =
    (b : String) × (json.marshal v ≡ some b)
    × (c.object s' key ≡ some b)
    × Allows c cond (c.object s key)

Reply-cases {ℓ} :
    {A : Type ℓ} (r : Reply A) → ((a : A) × (r ≡ done a)) ⊎ ((e : ApiError) × (r ≡ failed e))
Reply-cases (done a) = inl (a, refl)
Reply-cases (failed e) = inr (e, refl)

pub Result-cases {ℓ} :
    {A : Type ℓ} (r : Result A) → ((a : A) × (r ≡ ok a)) ⊎ ((e : Error) × (r ≡ err e))
Result-cases (ok a) = inl (a, refl)
Result-cases (err e) = inr (e, refl)

module _ (c : Client) (laws : IsS3 c) where
  Meets-Allows :
      (cond : Condition) (o : Option String) → Meets c.etag (headers cond) o → Allows c cond o
  unfolding headers
  Meets-Allows cond o m = (λ ne. m.0 cond.if_match (ground (arith, eq_iff cond.if_match "")), m.1)

  pub get-etag :
      (key : String) (s : c.State) (b t : String) → get c key s ≡ ok (b, t) → t ≡ c.etag b
  unfolding get
  get-etag key s b t h = elim (Reply-cases (c.get_object key s)) [
    | inl ((b', t'), e) ↦ let g = laws.get_done key s b' t' e in ground (arith, g.1)
    | inr (x, e) ↦ absurd (ground arith)
  ]

  module _ {T : Type 0} (json : Codec T) (key : String) where
    -- A document that was read is the one at the key, and the tag is that of its body.
    pub get_json-ok :
        (s : c.State) (v : T) (t : String)
        → get_json c json key s ≡ ok (v, t)
        → (b : String) × (c.object s key ≡ some b) × (json.unmarshal b ≡ some v) × (t ≡ c.etag b)
    unfolding get_json get
    get_json-ok s v t h = elim (Reply-cases (c.get_object key s)) [
      | inl (r, e) ↦
          let g = laws.get_done key s r.0 r.1 e in (r.0, g.0, ground arith, ground (arith, g.1))
      | inr (x, e) ↦ absurd (ground arith)
    ]

    pub get_json-not_found :
        (s : c.State) → get_json c json key s ≡ err not_found → c.object s key ≡ none
    unfolding get_json get
    get_json-not_found s h = elim (Reply-cases (c.get_object key s)) [
      | inl (r, e) ↦ absurd (ground arith)
      | inr (x, e) ↦ laws.get_missing key s x e (ground arith)
    ]

    -- A write that was acknowledged stored the document and met its condition.
    pub put_json-ok :
        (v : T) (cond : Condition) (s : c.State) (t : String)
        → (put_json c json key v cond s).0 ≡ ok t
        → Written c json key v cond s (put_json c json key v cond s).1
    unfolding put_json put
    put_json-ok v cond s t h = elim (Option-cases (json.marshal v)) [
      | inl e ↦ absurd (ground arith)
      | inr (b, e) ↦ elim (Reply-cases (c.put_object key b (headers cond) s).0) [
        | inl (u, d) ↦
            let w = laws.put_done key b (headers cond) s u d in
            rw (e, put_json) (b, refl, w.1, Meets-Allows cond (c.object s key) w.2)
        | inr (x, d) ↦ absurd (ground arith)
      ]
    ]

    -- The tag of an acknowledged write is that of the document's body.
    pub put_json-etag :
        (v : T) (cond : Condition) (s : c.State) (t : String)
        → (put_json c json key v cond s).0 ≡ ok t
        → (b : String) × (json.marshal v ≡ some b) × (t ≡ c.etag b)
    unfolding put_json put
    put_json-etag v cond s t h = elim (Option-cases (json.marshal v)) [
      | inl e ↦ absurd (ground arith)
      | inr (b, e) ↦ elim (Reply-cases (c.put_object key b (headers cond) s).0) [
        | inl (u, d) ↦
            let w = laws.put_done key b (headers cond) s u d in (b, e, ground (arith, w.0))
        | inr (x, d) ↦ absurd (ground arith)
      ]
    ]

    -- Any write leaves the object, or stores the document with its condition met.
    pub put_json_any :
        (v : T) (cond : Condition) (s : c.State)
        → (c.object (put_json c json key v cond s).1 key ≡ c.object s key)
          ⊎ Written c json key v cond s (put_json c json key v cond s).1
    unfolding put_json put
    put_json_any v cond s = elim (Option-cases (json.marshal v)) [
      | inl e ↦ inl (rw (e, put_json))
      | inr (b, e) ↦ elim (laws.put_any key b (headers cond) s) [
        | inl same ↦ inl (rw (e, put_json) same)
        | inr w ↦ inr (rw (e, put_json) (b, refl, w.0, Meets-Allows cond (c.object s key) w.1))
      ]
    ]

    -- No lost update: a conditional write under the tag of a document that was read before, once
    -- it is acknowledged, replaced that very document and stored the new one, whatever other
    -- replicas did to the bucket between the read and the write.
    pub put_after_get :
        (s u : c.State) (v w : T) (t r : String)
        → get_json c json key s ≡ ok (v, t)
        → (put_json c json key w (if_tag t) u).0 ≡ ok r
        → (stored c json u key ≡ some v)
          × (stored c json (put_json c json key w (if_tag t) u).1 key ≡ some w)
    put_after_get s u v w t r read wrote =
        let (b, at, opens, tag) = get_json-ok s v t read in
        let (b', shut, now, met) = put_json-ok w (if_tag t) u r wrote in
        let (x, was, same) = met.0 (λ e. laws.etag_nonempty b (sym tag ∙ e)) in
        let e = laws.etag_injective x b (same ∙ tag) in
        (rw (was, e) opens, rw now (json.round_trip w b' shut))

    pub stored-some :
        (s : c.State) (v : T)
        → stored c json s key ≡ some v
        → (b : String) × (c.object s key ≡ some b) × (json.unmarshal b ≡ some v)
    stored-some s v h = elim (Option-cases (c.object s key)) [
      | inl e ↦ absurd (ground arith)
      | inr (b, e) ↦ (b, e, rw e at h)
    ]

    -- A write under a tag that is not that of the object is not acknowledged and leaves it.
    pub put_json_lost :
        (v : T) (t : String) (s : c.State) (b : String)
        → c.object s key ≡ some b
        → t ≢ ""
        → c.etag b ≢ t
        → (c.object (put_json c json key v (if_tag t) s).1 key ≡ some b)
          × ((r : String) → (put_json c json key v (if_tag t) s).0 ≢ ok r)
    put_json_lost v t s b at tagged foreign = (
      elim (put_json_any v (if_tag t) s) [
        | inl same ↦ same ∙ at
        | inr (x, shut, now, met) ↦ absurd (other_body met)
      ],
      λ r e. let (x, shut, now, met) = put_json-ok v (if_tag t) s r e in other_body met,
    )
      where
        other_body : Allows c (if_tag t) (c.object s key) → ⊥
        other_body met =
            let (x, was, tag) = met.0 tagged in
            let q : x ≡ b = cc in foreign (ap c.etag (sym q) ∙ tag)

  -- A delete leaves the object, or removes it while it is the one with the tag.
  pub delete_any :
      (key t : String) (s : c.State)
      → (c.object (delete c key t s).1 key ≡ c.object s key)
        ⊎ ((c.object (delete c key t s).1 key ≡ none) × Allows c (if_tag t) (c.object s key))
  unfolding delete
  delete_any key t s = elim (laws.delete_any key (headers (if_tag t)) s) [
    | inl same ↦ inl same
    | inr w ↦ inr (w.0, Meets-Allows (if_tag t) (c.object s key) w.1)
  ]
