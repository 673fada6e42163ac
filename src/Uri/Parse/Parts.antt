-- ===== src/Uri/Parse/Parts.antt =====
-- The parts of a URI as they are printed, and the loops of crates/rlibpq/src/uri.rs on them.
use pgrust_drop.Prelude.{
  ℕ, ◌/◌, ◌%◌, ◌<◌, Bool, true, false, ◌||◌, [], ◌∷◌, ◌++◌, none, some, ◌==◌, if◌then◌else◌, Bytes,
  is_nil, All, ◌≡◌, ◌⊎◌, refl, arith, inl, inr, Bool-cases,
}
use pgrust_drop.ConnError.{ok, err}
use pgrust_drop.ConnInfo.{ConnInfo}
use pgrust_drop.Uri.RoundTrip.{
  percent_encode, hex_of, IsPlain, IsTextByte, uri_decode-percent_encode,
}
use pgrust_drop.Uri.Params.Print.{IsQueryPlain}
use pgrust_drop.Uri.Parse.{Run, ◌>>=◌, take_until, store_builtin, store_part}

-- The bytes that end or open a part of a URI.
abbrev pub is_special : ℕ → Bool
is_special c =
    c == 0
    || c == b'%'
    || c == b' '
    || c == b'='
    || c == b'&'
    || c == b'@'
    || c == b'/'
    || c == b':'
    || c == b'?'
    || c == b','
    || c == b'['

-- What may stand for itself in any part.
abbrev pub IsPartPlain : (ℕ → Bool) → Type 0
IsPartPlain plain = (c : ℕ) → plain c ≡ true → is_special c ≡ false

pub part-IsQueryPlain : (plain : ℕ → Bool) → IsPartPlain plain → IsQueryPlain plain
part-IsQueryPlain plain p c h =
    let inert = p c h in
    (λ e. ground arith, λ e. ground arith, (ground arith, ground arith, ground arith))

pub part-IsPlain : (plain : ℕ → Bool) → IsPartPlain plain → IsPlain plain
part-IsPlain plain p c h =
    let inert = p c h in (λ e. ground arith, λ e. ground arith, λ e. ground arith)

-- The bytes of a part that is printed.
abbrev pub IsInert : ℕ → Type 0
IsInert c = (is_special c ≡ false) ⊎ (c ≡ b'%')

pub IsInert-either :
    (t : Bool) (xs ys : Bytes)
    → (t ≡ true → All IsInert xs)
    → (t ≡ false → All IsInert ys)
    → All IsInert (if t then xs else ys)
IsInert-either true xs ys p q = p refl
IsInert-either false xs ys p q = q refl

pub hex_of-IsInert : (n : ℕ) → n < 16 → IsInert (hex_of n)
hex_of-IsInert n h = inl (ground arith)

pub percent_encode-IsInert :
    (plain : ℕ → Bool) (src : Bytes)
    → IsPartPlain plain
    → All IsTextByte src
    → All IsInert (percent_encode plain src)
unfolding percent_encode
percent_encode-IsInert plain [] p t = tt
percent_encode-IsInert plain (c ∷ src) p ((small, _), t) =
    let rest = percent_encode-IsInert plain src p t in
    IsInert-either (plain c) _ _ (λ e. (inl (p c e), rest))
      (λ e. (
        inr refl,
        (hex_of-IsInert (c / 16) (omega arith), (hex_of-IsInert (c % 16) (omega arith), rest)),
      ))

abbrev pub Passes : (ℕ → Bool) → ℕ → Type 0
Passes stops c = (c == 0 || stops c) ≡ false

pub All-passed :
    (stops : ℕ → Bool) (bs : Bytes)
    → ((c : ℕ) → IsInert c → Passes stops c)
    → All IsInert bs
    → All (Passes stops) bs
All-passed stops [] s h = tt
All-passed stops (c ∷ bs) s (i, h) = (s c i, All-passed stops bs s h)

pub passed_append :
    (stops : ℕ → Bool) (xs ys : Bytes)
    → All (Passes stops) xs
    → All (Passes stops) ys
    → All (Passes stops) (xs ++ ys)
passed_append stops [] ys h k = k
passed_append stops (x ∷ xs) ys (i, h) k = (i, passed_append stops xs ys h k)

pub take_until_stop :
    (stops : ℕ → Bool) (bs rest : Bytes) (x : ℕ)
    → All (Passes stops) bs
    → (x == 0 || stops x) ≡ true
    → take_until stops (bs ++ (x ∷ rest)) ≡ (bs, x ∷ rest)
unfolding take_until
take_until_stop stops [] rest x h e = rw e refl
take_until_stop stops (c ∷ bs) rest x (i, h) e =
    rw (take_until_stop stops bs rest x h e, take_until, i) refl

-- A part that is stored unless it is empty.
abbrev pub store_given : Bytes → Bytes → ConnInfo → Run ConnInfo
store_given keyword value o = if is_nil value then some (ok o) else store_builtin keyword value o

pub is_nil-percent_encode :
    (plain : ℕ → Bool) (v : Bytes) → is_nil (percent_encode plain v) ≡ is_nil v
unfolding percent_encode
is_nil-percent_encode plain [] = refl
is_nil-percent_encode plain (c ∷ v) = elim (Bool-cases (plain c)) [
  | inl e ↦ rw e refl
  | inr e ↦ rw e refl
]

pub store_part_printed :
    (plain : ℕ → Bool) (keyword v : Bytes) (o : ConnInfo)
    → IsPartPlain plain
    → All IsTextByte v
    → store_part keyword (percent_encode plain v) o ≡ store_given keyword v o
unfolding store_part
store_part_printed plain keyword v o p t =
    rw (is_nil-percent_encode plain v, uri_decode-percent_encode plain v (part-IsPlain plain p) t)
      refl

pub next_assoc :
    {A B C : Type 0} (m : Run A) (f : A → Run B) (g : B → Run C)
    → ((m >>= f) >>= g) ≡ (m >>= λ a. f a >>= g)
next_assoc none f g = refl
next_assoc (some (err e)) f g = refl
next_assoc (some (ok a)) f g = refl

pub next_same :
    {A B : Type 0} (m : Run A) (f g : A → Run B) → ((a : A) → f a ≡ g a) → (m >>= f) ≡ (m >>= g)
next_same none f g h = refl
next_same (some (err e)) f g h = refl
next_same (some (ok a)) f g h = h a
