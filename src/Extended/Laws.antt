-- ===== src/Extended/Laws.antt =====
-- The plans of crates/rlibpq/src/extended.rs: their one Sync, their counts, their refusals.
use pgrust_drop.Prelude.{
  ℕ, List, [], ◌∷◌, ◌++◌, Option, none, some, map, ltb, length, Bytes, codes, All, ◌≡◌, ◌≢◌, ◌≤◌,
  ◌<◌, ◌^◌, refl, sym, inl, inr, arith, Bool-cases,
}
use pgrust_drop.Prelude.Int.{ℤ, pos, negsuc}
use pgrust_drop.Message.Frontend.{
  Frontend, Target, encode, packet, i32_be, u16_be, cstring, target_byte, put_u32s, put_i16s,
  count16, put_value, put_values, bind_body,
}
use pgrust_drop.Extended.{
  pq_query_param_max_limit, code, Params, Plan, Checked, fits, refused, ◌>>◌, last_is_sync, pop,
  without_sync, check_count, check_array, when_params, guts_plan, query_guts, query_params,
  query_prepared, prepare, TypedCommand, typed_command, Request, plan_of,
}

abbrev IsOther : Frontend → Type 0
IsOther m = m ≢ Frontend.sync

-- Messages with their one Sync at the end.
abbrev pub Closed : Plan → Type 0
Closed plan =
    ((without_sync plan).messages ++ (Frontend.sync ∷ []) ≡ plan.messages)
    × All IsOther (without_sync plan).messages
    × ((without_sync plan).class ≡ plan.class)

then-fits :
    {A B : Type 0} (m : Checked A) (n : Checked B) {b : B}
    → (m >> n) ≡ fits b
    → (a : A) × (m ≡ fits a) × (n ≡ fits b)
then-fits (fits a) n h = (a, refl, h)
then-fits (refused e) n h = absurd (ground arith)

fits_inj : {A : Type 0} {a b : A} → fits a ≡ fits b → a ≡ b
fits_inj h = ground arith

guts-Closed :
    (parsed : Option (Bytes × List ℕ)) (statement : Bytes) (ps : Params)
    → Closed (guts_plan parsed statement ps)
unfolding guts_plan without_sync last_is_sync pop
guts-Closed none statement ps =
    (refl, (λ e. ground arith, (λ e. ground arith, (λ e. ground arith, tt))), refl)
guts-Closed (some (command, types)) statement ps = (
  refl,
  (λ e. ground arith, (λ e. ground arith, (λ e. ground arith, (λ e. ground arith, tt)))),
  refl,
)

typed_command-Closed :
    (c : TypedCommand) (target : Target) (name : Bytes) → Closed (typed_command c target name)
unfolding typed_command without_sync last_is_sync pop
typed_command-Closed TypedCommand.describe target name = (refl, (λ e. ground arith, tt), refl)
typed_command-Closed TypedCommand.close target name = (refl, (λ e. ground arith, tt), refl)

-- Behind the checks of a command stands one plan.
query_guts-fits :
    (parsed : Option (Bytes × List ℕ)) (statement : Bytes) (ps : Params) {plan : Plan}
    → query_guts parsed statement ps ≡ fits plan
    → (check_array (codes "paramFormats") (length ps.formats) (length ps.values) ≡ fits tt)
      × (plan ≡ guts_plan parsed statement ps)
unfolding query_guts
query_guts-fits parsed statement ps h =
    let (_, c, e) =
      then-fits (check_array (codes "paramFormats") (length ps.formats) (length ps.values)) _ h in
    (c, sym (fits_inj e))

-- Every accepted command ends in its only Sync: what pipeline mode sends is the same messages up to
-- it, under the same class, and none of them is a Sync.
pub plan_of-Closed : (r : Request) {plan : Plan} → plan_of r ≡ fits plan → Closed plan
unfolding query_params query_prepared prepare
plan_of-Closed (Request.params command types ps) h =
    let (_, _, h1) = then-fits (check_count (length ps.values)) _ h in
    let (_, _, h2) =
      then-fits (check_array (codes "paramTypes") (length types) (length ps.values)) _ h1 in
    let (_, e) = query_guts-fits (some (command, types)) [] ps h2 in
    rw e (guts-Closed (some (command, types)) [] ps)
plan_of-Closed (Request.prepared statement ps) h =
    let (_, _, h1) = then-fits (check_count (length ps.values)) _ h in
    let (_, e) = query_guts-fits none statement ps h1 in rw e (guts-Closed none statement ps)
plan_of-Closed (Request.prepares statement q types) h =
    let (_, _, h1) = then-fits (check_count (length types)) _ h in
    rw (sym (fits_inj h1))
      (unfold without_sync last_is_sync pop in (refl, (λ e. ground arith, tt), refl))
plan_of-Closed (Request.typed command target name) h =
    rw (sym (fits_inj h)) (typed_command-Closed command target name)

-- The layout of a message body in which counts have two bytes, written without the encoder.
abbrev value_layout : Option Bytes → Bytes
value_layout none = i32_be (negsuc 0)
value_layout (some v) = i32_be (pos (length v)) ++ v

values_layout : List (Option Bytes) → Bytes
values_layout [] = []
values_layout (v ∷ vs) = value_layout v ++ values_layout vs

abbrev bind_layout : Bytes → Bytes → List ℤ → List (Option Bytes) → List ℤ → Bytes
bind_layout portal_name statement formats vs results =
    cstring portal_name
    ++ (cstring statement
        ++ (u16_be (length formats)
            ++ (put_i16s formats
                ++ (u16_be (length vs)
                    ++ (values_layout vs ++ (u16_be (length results) ++ put_i16s results))))))

-- No count of the message overflows its two bytes, and the encoder gives it its layout as one packet,
-- or nothing where the packet is too long.
unfoldable pub Packs : Frontend → Type 0
unfolding values_layout
Packs (Frontend.parse name q types) =
    (length types < 2 ^ 16)
    × (encode (Frontend.parse name q types)
        ≡ packet b'P' (cstring name ++ (cstring q ++ (u16_be (length types) ++ put_u32s types))))
Packs (Frontend.bind portal_name statement formats vs results) =
    (length formats < 2 ^ 16)
    × (length vs < 2 ^ 16)
    × (length results < 2 ^ 16)
    × (encode (Frontend.bind portal_name statement formats vs results)
        ≡ packet b'B' (bind_layout portal_name statement formats vs results))
Packs (Frontend.describe target name) =
    encode (Frontend.describe target name) ≡ packet b'D' (target_byte target ∷ cstring name)
Packs (Frontend.execute portal_name max_rows) =
    encode (Frontend.execute portal_name max_rows)
    ≡ packet b'E' (cstring portal_name ++ i32_be max_rows)
Packs (Frontend.close target name) =
    encode (Frontend.close target name) ≡ packet b'C' (target_byte target ∷ cstring name)
Packs Frontend.sync = encode Frontend.sync ≡ packet b'S' []
Packs _ = ⊥

abbrev IsShort : Option Bytes → Type 0
IsShort none = Unit
IsShort (some v) = length v < 2 ^ 31

put_value-IsShort :
    (v : Bytes) → length v < 2 ^ 31 → put_value (some v) ≡ some (i32_be (pos (length v)) ++ v)
unfolding put_value
put_value-IsShort v h = ground arith

put_values-IsShort :
    (vs : List (Option Bytes)) → All IsShort vs → put_values vs ≡ some (values_layout vs)
unfolding put_values values_layout
put_values-IsShort [] s = refl
put_values-IsShort (none ∷ vs) (_, s) = rw (put_values-IsShort vs s) refl
put_values-IsShort (some v ∷ vs) (h, s) = rw (put_value-IsShort v h, put_values-IsShort vs s) refl

count16-fits : (n : ℕ) → n ≤ pq_query_param_max_limit → count16 n ≡ some (u16_be n)
unfolding count16
count16-fits n h = ground arith

check_count-fits : (n : ℕ) {u : Unit {0}} → check_count n ≡ fits u → n ≤ pq_query_param_max_limit
unfolding check_count
check_count-fits n h = ground arith

check_array-fits :
    (array : Bytes) (len n : ℕ) {u : Unit {0}} → check_array array len n ≡ fits u → len ≤ n
unfolding check_array
check_array-fits array len n h = ground arith

bind-Packs :
    (portal_name statement : Bytes) (formats : List ℤ) (vs : List (Option Bytes)) (results : List ℤ)
    → length formats ≤ pq_query_param_max_limit
    → length vs ≤ pq_query_param_max_limit
    → length results ≤ pq_query_param_max_limit
    → All IsShort vs
    → Packs (Frontend.bind portal_name statement formats vs results)
unfolding encode bind_body Packs values_layout
bind-Packs portal_name statement formats vs results f v r s = (
  omega (arith, f),
  omega (arith, v),
  omega (arith, r),
  rw
      (
        count16-fits (length formats) f,
        count16-fits (length vs) v,
        put_values-IsShort vs s,
        count16-fits (length results) r,
      )
      refl,
)

parse-Packs :
    (statement q : Bytes) (types : List ℕ)
    → length types ≤ pq_query_param_max_limit
    → Packs (Frontend.parse statement q types)
unfolding encode Packs
parse-Packs statement q types h = (omega (arith, h), rw (count16-fits (length types) h) refl)

typed_command-Packs :
    (c : TypedCommand) (target : Target) (name : Bytes)
    → All Packs (typed_command c target name).messages
unfolding encode typed_command Packs
typed_command-Packs TypedCommand.describe target name = (refl, (refl, tt))
typed_command-Packs TypedCommand.close target name = (refl, (refl, tt))

length-when_params :
    {A : Type 0} (n : ℕ) (array : List A) → length array ≤ n → length (when_params n array) ≤ n
length-when_params n array h = elim (Bool-cases (ltb 0 n)) [
  | inl e ↦ rw e h
  | inr e ↦ rw e (omega arith)
]

length-map : {A B : Type 0} (f : A → B) (xs : List A) → length (map f xs) ≡ length xs
length-map f [] = refl
length-map f (x ∷ xs) = omega (arith, length-map f xs)

-- The messages behind Parse.
bound-Packs :
    (statement : Bytes) (ps : Params)
    → length ps.values ≤ pq_query_param_max_limit
    → length ps.formats ≤ length ps.values
    → All IsShort ps.values
    → All Packs (guts_plan none statement ps).messages
unfolding guts_plan encode Packs
bound-Packs statement ps v f s =
    let formats =
      length-when_params (length ps.values) (map code ps.formats)
        (omega (arith, length-map code ps.formats)) in
    (
      bind-Packs [] statement (when_params (length ps.values) (map code ps.formats)) ps.values
          (code ps.result_format ∷ []) (omega (arith, formats)) v (omega arith) s,
      (refl, (refl, (refl, tt))),
    )

-- The parameter values of a command.
abbrev values_of : Request → List (Option Bytes)
values_of (Request.params command types ps) = ps.values
values_of (Request.prepared statement ps) = ps.values
values_of (Request.prepares statement q types) = []
values_of (Request.typed command target name) = []

-- When no parameter value is of 2 GB or more, every message of an accepted command has counts that
-- fit their two bytes, and the encoder gives it the bytes of its layout, counts and values included,
-- behind its type and its length word, or nothing where that word cannot hold the length.
pub plan_of-Packs :
    (r : Request) {plan : Plan}
    → plan_of r ≡ fits plan
    → All IsShort (values_of r)
    → All Packs plan.messages
unfolding query_params query_prepared prepare guts_plan
plan_of-Packs (Request.params command types ps) h s =
    let (_, c, h1) = then-fits (check_count (length ps.values)) _ h in
    let (_, t, h2) =
      then-fits (check_array (codes "paramTypes") (length types) (length ps.values)) _ h1 in
    let (f, e) = query_guts-fits (some (command, types)) [] ps h2 in
    let few = check_count-fits (length ps.values) c in
    let types' =
      length-when_params (length ps.values) types
        (check_array-fits (codes "paramTypes") (length types) (length ps.values) t) in
    rw e (
      parse-Packs [] command (when_params (length ps.values) types) (omega (arith, types', few)),
      bound-Packs [] ps few
          (check_array-fits (codes "paramFormats") (length ps.formats) (length ps.values) f) s,
    )
plan_of-Packs (Request.prepared statement ps) h s =
    let (_, c, h1) = then-fits (check_count (length ps.values)) _ h in
    let (f, e) = query_guts-fits none statement ps h1 in
    rw e (
      bound-Packs statement ps (check_count-fits (length ps.values) c)
        (check_array-fits (codes "paramFormats") (length ps.formats) (length ps.values) f) s)
plan_of-Packs (Request.prepares statement q types) h s =
    let (_, c, h1) = then-fits (check_count (length types)) _ h in
    rw (sym (fits_inj h1)) (
      parse-Packs statement q types (check_count-fits (length types) c),
      (unfold Packs encode in refl, tt),
    )
plan_of-Packs (Request.typed command target name) h s =
    rw (sym (fits_inj h)) (typed_command-Packs command target name)
