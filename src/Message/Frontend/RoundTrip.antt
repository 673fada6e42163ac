-- ===== src/Message/Frontend/RoundTrip.antt =====
-- What a server finds in the messages that a client writes.
use pgrust_drop.Prelude.{
  ℕ, ◌^◌, ◌<◌, List, [], ◌∷◌, ◌++◌, Option, none, some, ◌≡◌, refl, ap, ◌∙◌, sym, arith, length, All,
  Option-cases, inl, inr, append_assoc, append-nil, Bytes,
}
use pgrust_drop.Prelude.Int.{ℤ, pos, negsuc, FitsWord}
use pgrust_drop.Message.{ok}
use pgrust_drop.Message.Reader.{Parse, ◌>>=◌, pure, read_cstring, read_u16, read_i16, repeat}
use pgrust_drop.Message.Reader.Laws.{
  NoNul, list_onto, read_cstring-append, read_u16-u16_be, read_i16-i16_be, repeat-list_onto,
}
use pgrust_drop.Message.Decode.{read_value}
use pgrust_drop.Message.Decode.Layout.{value_onto, ValueFits}
use pgrust_drop.Message.Decode.RoundTrip.{read_value-value_onto}
use pgrust_drop.Message.Frontend.{
  u16_be, i16_be, i32_be, cstring, count16, put_i16s, put_value, put_values, bind_body,
}

-- How a server reads a Bind message.
abbrev Bound : Type 0
Bound = Bytes × Bytes × List ℤ × List (Option Bytes) × List ℤ

pub read_bind : Parse Bound
read_bind = do
  portal_name ← read_cstring
  statement_name ← read_cstring
  nformats ← read_u16
  param_formats ← repeat nformats read_i16
  nparams ← read_u16
  params ← repeat nparams read_value
  nresults ← read_u16
  result_formats ← repeat nresults read_i16
  pure (portal_name, statement_name, param_formats, params, result_formats)

put_i16s-list_onto :
    (zs : List ℤ) (rest : Bytes)
    → put_i16s zs ++ rest
      ≡ list_onto read_i16 (λ z more. i16_be z ++ more) (FitsWord (2 ^ 15)) zs rest
unfolding put_i16s
put_i16s-list_onto [] rest = refl
put_i16s-list_onto (z ∷ zs) rest =
    append_assoc (i16_be z) (put_i16s zs) rest
    ∙ ap (λ bs. i16_be z ++ bs) (put_i16s-list_onto zs rest)

put_value_lem :
    (v : Bytes) {bs : Bytes}
    → put_value (some v) ≡ some bs
    → (bs ≡ i32_be (pos (length v)) ++ v) × (length v < 2 ^ 31)
unfolding put_value
put_value_lem v h = ground arith

put_value-value_onto :
    (v : Option Bytes) {bs : Bytes} (rest : Bytes)
    → put_value v ≡ some bs
    → (bs ++ rest ≡ value_onto v rest) × ValueFits v
put_value-value_onto none {bs} rest h =
    let whole : bs ≡ i32_be (negsuc 0) = unfold put_value in ground arith in
    (ap (λ xs. xs ++ rest) whole, tt)
put_value-value_onto (some v) rest h =
    let (e, l) = put_value_lem v h in
    (ap (λ xs. xs ++ rest) e ∙ append_assoc (i32_be (pos (length v))) v rest, l)

put_values_cons :
    (v : Option Bytes) (vs : List (Option Bytes)) {bs : Bytes}
    → put_values (v ∷ vs) ≡ some bs
    → (here : Bytes) × (there : Bytes) × (put_value v ≡ some here)
      × (put_values vs ≡ some there)
      × (bs ≡ here ++ there)
unfolding put_values
put_values_cons v vs h = elim (Option-cases (put_value v)) [
  | inl e ↦ absurd (ground arith)
  | inr (here, e) ↦ elim (Option-cases (put_values vs)) [
    | inl f ↦ absurd (ground arith)
    | inr (there, f) ↦ (here, there, e, f, ground arith)
  ]
]

put_values-list_onto :
    (vs : List (Option Bytes)) {bs : Bytes} (rest : Bytes)
    → put_values vs ≡ some bs
    → (bs ++ rest ≡ list_onto read_value value_onto ValueFits vs rest) × All ValueFits vs
put_values-list_onto [] {bs} rest h =
    let whole : bs ≡ [] = unfold put_values in ground arith in (ap (λ xs. xs ++ rest) whole, tt)
put_values-list_onto (v ∷ vs) {bs} rest h =
    let (here, there, e, f, whole) = put_values_cons v vs h in
    let (head, fits) = put_value-value_onto v (there ++ rest) e in
    let (others, all_fit) = put_values-list_onto vs rest f in
    (
      ap (λ xs. xs ++ rest) whole ∙ append_assoc here there rest ∙ head ∙ ap (value_onto v) others,
      (fits, all_fit),
    )

-- The layout of the body, as it is written.
abbrev written : Bytes → Bytes → List ℤ → ℕ → Bytes → List ℤ → Bytes
written portal_name statement_name param_formats n values result_formats =
    cstring portal_name
    ++ (cstring statement_name
        ++ (u16_be (length param_formats)
            ++ (put_i16s param_formats
                ++ (u16_be n
                    ++ (values ++ (u16_be (length result_formats) ++ put_i16s result_formats))))))

bind_body_parts :
    (portal_name statement_name : Bytes) (param_formats : List ℤ) (params : List (Option Bytes))
    (result_formats : List ℤ) {body : Bytes}
    → bind_body portal_name statement_name param_formats params result_formats ≡ some body
    → (values : Bytes) × (put_values params ≡ some values)
      × (length param_formats < 2 ^ 16)
      × (length params < 2 ^ 16)
      × (length result_formats < 2 ^ 16)
      × (body
          ≡ written portal_name statement_name param_formats (length params) values result_formats)
unfolding bind_body count16
bind_body_parts portal_name statement_name param_formats params result_formats h =
    elim (Option-cases (put_values params)) [
      | inl e ↦ absurd (ground arith)
      | inr (values, e) ↦ (values, e, ground arith, ground arith, ground arith, ground arith)
    ]

abbrev i16s_onto : List ℤ → Bytes → Bytes
i16s_onto = list_onto read_i16 (λ z more. i16_be z ++ more) (FitsWord (2 ^ 15))

abbrev values_onto : List (Option Bytes) → Bytes → Bytes
values_onto = list_onto read_value value_onto ValueFits

-- The same, as each of its parts in front of the next.
written_onto :
    (portal_name statement_name : Bytes) (param_formats : List ℤ) (n : ℕ)
    (params : List (Option Bytes)) (values : Bytes) (result_formats : List ℤ)
    → put_values params ≡ some values
    → written portal_name statement_name param_formats n values result_formats
      ≡ portal_name
        ++ 0
          ∷ (statement_name
              ++ 0
                ∷ (u16_be (length param_formats)
                    ++ i16s_onto param_formats (
                        u16_be n
                        ++ values_onto params
                            (u16_be (length result_formats) ++ i16s_onto result_formats []))))
written_onto portal_name statement_name param_formats n params values result_formats e =
    append_assoc portal_name (0 ∷ []) _
    ∙ ap (λ bs. portal_name ++ 0 ∷ bs)
        (append_assoc statement_name (0 ∷ []) _
          ∙ ap (λ bs. statement_name ++ 0 ∷ (u16_be (length param_formats) ++ bs))
              (put_i16s-list_onto param_formats _
                ∙ ap (λ bs. i16s_onto param_formats (u16_be n ++ bs))
                    ((put_values-list_onto params _ e).0
                      ∙ ap (λ bs. values_onto params (u16_be (length result_formats) ++ bs))
                          (sym (append-nil (put_i16s result_formats))
                            ∙ put_i16s-list_onto result_formats []))))

-- When the body of a Bind message is written, it is read back: its names, its formats, its values
-- with NULL apart from the empty value, and nothing is left. The names have no NUL and the formats
-- fit an `i16`.
pub bind_body-read_bind :
    (portal_name statement_name : Bytes) (param_formats : List ℤ) (params : List (Option Bytes))
    (result_formats : List ℤ) {body : Bytes} (id : ℕ)
    → NoNul portal_name
    → NoNul statement_name
    → All (FitsWord (2 ^ 15)) param_formats
    → All (FitsWord (2 ^ 15)) result_formats
    → bind_body portal_name statement_name param_formats params result_formats ≡ some body
    → read_bind id body
      ≡ ok ((portal_name, statement_name, param_formats, params, result_formats), [])
unfolding read_bind
bind_body-read_bind portal_name statement_name param_formats params result_formats {body} id p q f g
      h =
    let (values, e, l, m, n, whole) =
      bind_body_parts portal_name statement_name param_formats params result_formats h in
    let formats =
      repeat-list_onto read_i16 (λ z more. i16_be z ++ more) (FitsWord (2 ^ 15)) read_i16-i16_be in
    let fits = (put_values-list_onto params [] e).1 in
    rw
      (whole
        ∙ written_onto portal_name statement_name param_formats (length params) params values
            result_formats e)
      (rw (read_cstring-append portal_name id _ p, ◌>>=◌)
        (rw (read_cstring-append statement_name id _ q, ◌>>=◌)
          (rw (read_u16-u16_be (length param_formats) id _ l, ◌>>=◌)
            (rw (formats param_formats id _ f, ◌>>=◌)
              (rw (read_u16-u16_be (length params) id _ m, ◌>>=◌)
                (rw
                  (
                    repeat-list_onto read_value value_onto ValueFits read_value-value_onto params id
                        _ fits,
                    ◌>>=◌,
                  )
                  (rw (read_u16-u16_be (length result_formats) id _ n, ◌>>=◌)
                    (rw (formats result_formats id [] g, ◌>>=◌)))))))))
