-- ===== src/Trace/Header.antt =====
-- The header against the context: printing and parsing are inverse.
use iot_athome.Prelude.{
  ℕ, ◌≡◌, ◌<◌, refl, ap, sym, ◌∙◌, inl, inr, List, [], ◌∷◌, ◌++◌, All, all, all-append, true, not,
  Option-cases, Result-cases, Bool-cases, Text, codes, text_eq, text_eq→eq, text_eq_refl, split,
  split-append, split-token, join, join-split, trim, trim-spaceless, spaceless, is_space, lacks,
  length, ok, hex_encode, hex_encode-lacks, arith,
}
use iot_athome.Trace.{
  TraceContext, bad_trace_id, bad_span_id, new_root, child_of, to_header, first_byte,
  hex_decode_fixed, parse_id, parse_segments, parse,
}
use iot_athome.Trace.Ids.{
  IsId, hex_encode-spaceless, hex_decode_fixed-hex_encode, parse_id-hex_encode, hex_encode-parse_id,
  one_byte, fresh_id-IsId,
}

pub record IsValid (t : TraceContext) : Type 0 where
  pub trace : IsId 16 t.trace_id
  pub span : IsId 8 t.span_id
  pub flags : t.flags < 256

split-to_header :
    (t : TraceContext)
    → split b'-' (to_header t)
      ≡ codes "00" ∷ hex_encode t.trace_id ∷ hex_encode t.span_id ∷ hex_encode (t.flags ∷ []) ∷ []
unfolding to_header
split-to_header t =
    let dash = λ (bytes : List ℕ). hex_encode-lacks b'-' bytes refl in
    split-append b'-' (codes "00") _ (unfold lacks all in refl)
    ∙ ap (◌∷◌ (codes "00")) (
        split-append b'-' (hex_encode t.trace_id) _ (dash t.trace_id)
        ∙ ap (◌∷◌ (hex_encode t.trace_id)) (
            split-append b'-' (hex_encode t.span_id) _ (dash t.span_id)
            ∙ ap (◌∷◌ (hex_encode t.span_id))
                (split-token b'-' (hex_encode (t.flags ∷ [])) (dash (t.flags ∷ [])))))

to_header-spaceless : (t : TraceContext) → spaceless (to_header t) ≡ true
unfolding to_header all
to_header-spaceless t =
    let p = λ (c : ℕ). not (is_space c) in
    ground (
      arith,
      all-append p (hex_encode t.trace_id)
          (b'-' ∷ (hex_encode t.span_id ++ b'-' ∷ hex_encode (t.flags ∷ []))),
      all-append p (hex_encode t.span_id) (b'-' ∷ hex_encode (t.flags ∷ [])),
      hex_encode-spaceless t.trace_id,
      hex_encode-spaceless t.span_id,
      hex_encode-spaceless (t.flags ∷ []),
    )

-- `parse` reads back every context that the service can have.
pub parse-to_header : (t : TraceContext) → IsValid t → parse (to_header t) ≡ ok t
unfolding parse parse_segments
parse-to_header t v = rw (trim-spaceless (to_header t) (to_header-spaceless t)) (
    rw (split-to_header t) (
      rw
        (
          parse_id-hex_encode 16 bad_trace_id t.trace_id v.trace,
          parse_id-hex_encode 8 bad_span_id t.span_id v.span,
          hex_decode_fixed-hex_encode 1 (t.flags ∷ []) refl (v.flags, tt),
          text_eq_refl (codes "00"),
        )
        refl))

parse_segments-shape :
    (segs : List Text) (t : TraceContext)
    → parse_segments segs ≡ ok t
    → (segs
        ≡ codes "00"
          ∷ hex_encode t.trace_id
          ∷ hex_encode t.span_id
          ∷ hex_encode (t.flags ∷ [])
          ∷ [])
      × IsValid t
unfolding parse_segments
parse_segments-shape [] t h = cc
parse_segments-shape (v ∷ []) t h = cc
parse_segments-shape (v ∷ a ∷ []) t h = cc
parse_segments-shape (v ∷ a ∷ b ∷ []) t h = cc
parse_segments-shape (v ∷ a ∷ b ∷ f ∷ g ∷ segs) t h = cc
parse_segments-shape (v ∷ a ∷ b ∷ f ∷ []) t h = elim (Bool-cases (text_eq v (codes "00"))) [
  | inr bad ↦ ground (arith, h, bad)
  | inl version ↦ elim (Result-cases (parse_id 16 bad_trace_id a)) [
    | inr (e, bad) ↦ ground (arith, h, version, bad)
    | inl (trace, a_ok) ↦ elim (Result-cases (parse_id 8 bad_span_id b)) [
      | inr (e, bad) ↦ ground (arith, h, version, a_ok, bad)
      | inl (span, b_ok) ↦ elim (Option-cases (hex_decode_fixed 1 f)) [
        | inl bad ↦ ground (arith, h, version, a_ok, b_ok, bad)
        | inr (bytes, f_ok) ↦
            let (a_text, a_id) = hex_encode-parse_id 16 bad_trace_id a trace a_ok in
            let (b_text, b_id) = hex_encode-parse_id 8 bad_span_id b span b_ok in
            let (f_text, small) = one_byte f bytes f_ok in
            let e : record { trace_id = trace; span_id = span; flags = first_byte bytes } ≡ t =
              ground (arith, h, version, a_ok, b_ok, f_ok) in
            rw (sym e) (
              cc (text_eq→eq v (codes "00") version, a_text, b_text, f_text),
              record { trace = a_id; span = b_id; flags = small },
            )
      ]
    ]
  ]
]

-- A header that `parse` accepts is the printed form of its context, up to white space around it, and
-- the context is one that the service can have: `parse` accepts no second spelling.
pub to_header-parse :
    (header : Text) (t : TraceContext)
    → parse header ≡ ok t
    → (to_header t ≡ trim header) × IsValid t
unfolding parse
to_header-parse header t h =
    let (segs, v) = parse_segments-shape (split b'-' (trim header)) t h in
    (
      sym (join-split b'-' (to_header t))
          ∙ ap (join b'-') (split-to_header t ∙ sym segs)
          ∙ join-split b'-' (trim header),
      v,
    )

-- A fresh or a derived context is one that the parser accepts, whatever the random generator gives,
-- all zeros included; the derived one keeps the trace id and the flags.
pub new-IsValid :
    (trace_bytes span_bytes : List ℕ)
    → length trace_bytes ≡ 16
    → length span_bytes ≡ 8
    → All (λ b. b < 256) trace_bytes
    → All (λ b. b < 256) span_bytes
    → IsValid (new_root trace_bytes span_bytes)
      × ((t : TraceContext)
          → IsValid t
          → IsValid (child_of t span_bytes)
            × ((child_of t span_bytes).trace_id ≡ t.trace_id)
            × ((child_of t span_bytes).flags ≡ t.flags))
unfolding new_root child_of
new-IsValid r s rn sn rb sb =
    let root = fresh_id-IsId 15 r rn rb in
    let span = fresh_id-IsId 7 s sn sb in
    (
      record { trace = root; span = span; flags = omega arith },
      λ t v. (record { trace = v.trace; span = span; flags = v.flags }, refl, refl),
    )
