-- ===== src/Logging/Attrs.antt =====
-- The attributes that the request log of logging/middleware_gin.go carries.
use idp_sdk.Common.{
  String, ◌≡◌, ◌≢◌, refl, ap, ◌↔◌, ◌⊎◌, inl, inr, false, List, [], ◌∷◌, arith, eq_iff, ◌==◌,
  Bool-cases,
}
use idp_sdk.Common.{◌++◌}
use mathlib.Core.List.{Memᴰ}
use mathlib.Core.List.Memᴰ
use idp_sdk.Gin.{Gin}
use idp_sdk.Slog.{Attr, Value, text, Logger, with_attrs, Process}
use idp_sdk.Logging.{Context, with_trace, Requests, with_request_id, request_logger}

-- A text among attributes, and among those of a logger.
abbrev pub Among : String → String → List Attr → Type 0
Among key value attrs = Memᴰ {A = Attr} (key, text value) attrs

abbrev pub Has : String → String → Logger → Type 0
Has key value l = Among key value l.attrs

Has-with_attrs :
    (key value : String) (attrs : List Attr) (l : Logger)
    → Has key value (with_attrs attrs l) ↔ (Has key value l ⊎ Among key value attrs)
unfolding with_attrs
Has-with_attrs key value attrs l = (λ m. Memᴰ.append_cases l.attrs m, join)
  where
    join : Has key value l ⊎ Among key value attrs → Among key value (l.attrs ++ attrs)
    join (inl m) = Memᴰ.append_left attrs m
    join (inr m) = Memᴰ.append_right l.attrs m

abbrev text_of : Value → String
text_of (text s) = s
text_of v = ""

other_key : (key : String) → ("request_id" == key) ≡ false → "request_id" ≢ key
other_key key ne e = ground (arith, eq_iff "request_id" key)

-- The attributes of a trace have other keys.
trace_keys :
    (id a b : String) → ¬ Among "request_id" id (("trace_id", text a) ∷ ("span_id", text b) ∷ [])
trace_keys id a b (Memᴰ.head e) = other_key "trace_id" refl (ap (λ (p : Attr). p.0) e)
trace_keys id a b (Memᴰ.tail (Memᴰ.head e)) = other_key "span_id" refl (ap (λ (p : Attr). p.0) e)
trace_keys id a b (Memᴰ.tail (Memᴰ.tail m)) = elim m [ ]

Has-with_trace :
    (id : String) (ctx : Context) (l : Logger)
    → Has "request_id" id (with_trace ctx l) ↔ Has "request_id" id l
unfolding with_trace
Has-with_trace id ctx l = elim (Bool-cases ctx.span.valid) [
  | inr bare ↦ rw bare (λ m. m, λ m. m)
  | inl traced ↦ rw traced (only, λ m. (Has-with_attrs "request_id" id _ l).1 (inl m))
]
  where
    only :
        Has "request_id" id (
          with_attrs
            (("trace_id", text ctx.span.trace_id) ∷ ("span_id", text ctx.span.span_id) ∷ [])
            l)
        → Has "request_id" id l
    only m = old ((Has-with_attrs "request_id" id _ l).0 m)
      where
        old :
            Has "request_id" id l
              ⊎ Among "request_id" id
                  (("trace_id", text ctx.span.trace_id) ∷ ("span_id", text ctx.span.span_id) ∷ [])
            → Has "request_id" id l
        old (inl k) = k
        old (inr k) = absurd (trace_keys id ctx.span.trace_id ctx.span.span_id k)

only_one :
    (id header : String) → Among "request_id" id (("request_id", text header) ∷ []) → id ≡ header
only_one id header (Memᴰ.head e) = ap (λ (p : Attr). text_of p.1) e
only_one id header (Memᴰ.tail m) = elim m [ ]

module _ {Entry : Type 0} (g : Gin Entry) (q : Requests g) (p : Process) where
  Has-with_request_id :
      (id header : String) (l : Logger)
      → Has "request_id" id (with_request_id g q p header l)
        ↔ (Has "request_id" id l ⊎ (header ≢ "") × (id ≡ header))
  Has-with_request_id id header l = elim (Bool-cases (header == "")) [
    | inl bare ↦ rw bare (λ m. inl m, λ h. without h ((eq_iff header "").0 bare))
    | inr there ↦ rw there (
      λ m. split (λ e. ground (arith, eq_iff header "")) ((Has-with_attrs "request_id" id _ l).0 m),
      λ h. (Has-with_attrs "request_id" id _ l).1 (join h),
    )
  ]
    where
      without :
          Has "request_id" id l ⊎ (header ≢ "") × (id ≡ header)
          → header ≡ ""
          → Has "request_id" id l
      without (inl m) e = m
      without (inr (solid, same)) e = absurd (solid e)

      split :
          header ≢ ""
          → Has "request_id" id l ⊎ Among "request_id" id (("request_id", text header) ∷ [])
          → Has "request_id" id l ⊎ (header ≢ "") × (id ≡ header)
      split solid (inl m) = inl m
      split solid (inr m) = inr (solid, only_one id header m)

      join :
          Has "request_id" id l ⊎ (header ≢ "") × (id ≡ header)
          → Has "request_id" id l ⊎ Among "request_id" id (("request_id", text header) ∷ [])
      join (inl m) = inl m
      join (inr (solid, same)) = inr (Memᴰ.head (ap (λ s. ("request_id", text s)) same))

  -- The logger of a request has the request id of the request's own header, where there is one, and
  -- those that the logger below it has.
  pub request_logger_iff :
      (id : String) (base : Logger) (c : g.Context)
      → Has "request_id" id (request_logger g q p base c) ↔ (
          Has "request_id" id base
          ⊎ (g.get_header "X-Request-Id" c ≢ "") × (id ≡ g.get_header "X-Request-Id" c))
  unfolding request_logger
  request_logger_iff id base c =
      let (to, from) =
        Has-with_request_id id (g.get_header "X-Request-Id" c) (with_trace (q.context c) base) in
      let (down, up) = Has-with_trace id (q.context c) base in
      (λ m. left down (to m), λ h. from (left up h))
    where
      left : {P Q R : Type 0} → (P → Q) → P ⊎ R → Q ⊎ R
      left f (inl m) = inl (f m)
      left f (inr m) = inr m
