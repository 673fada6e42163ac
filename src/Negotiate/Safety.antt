-- ===== src/Negotiate/Safety.antt =====
-- The methods that crates/rlibpq/src/negotiate.rs ever makes current.
use pgrust_drop.Prelude.{
  Bool, true, false, not, ◌&&◌, List, [], ◌∷◌, none, some, ◌≡◌, ◌≢◌, inl, inr, refl, sym, ◌∙◌,
  arith, Bool-cases,
}
use pgrust_drop.ConnError.{ok}
use pgrust_drop.Negotiate.{
  Build, SslMode, GssEncMode, requires_ssl, EncryptionOptions, EncMethod, Mask, no_bits, bit,
  or_bit, or_current, Negotiation, order, find_remaining, select_next, mark_current_failed,
  connection_failed, encryption_negotiation_failed, allowed_methods, start, gss_is_require,
}

-- What the caller tells the negotiation of an attempt with the current method.
pub data Failure : Type 0 where
  refused attempt_failed : Failure

unfoldable pub tell : Failure → Negotiation → Negotiation
tell Failure.refused n = (encryption_negotiation_failed n).0
tell Failure.attempt_failed n = (connection_failed n).0

unfoldable pub history : List Failure → Negotiation → Negotiation
history [] n = n
history (f ∷ fs) n = history fs (tell f n)

some_inj : {m k : EncMethod} → some m ≡ some k → m ≡ k
some_inj h = ground arith

abbrev pub select_failed : Negotiation → Negotiation
select_failed n = select_next (mark_current_failed n)

pub tell_lem : (f : Failure) (n : Negotiation) → tell f n ≡ select_failed n
unfolding tell encryption_negotiation_failed connection_failed
tell_lem Failure.refused n = refl
tell_lem Failure.attempt_failed n = refl

pub find_remaining-bit :
    (allowed failed : Mask) (methods : List EncMethod) {m : EncMethod}
    → find_remaining allowed failed methods ≡ some m
    → (bit m allowed ≡ true) × (bit m failed ≡ false)
unfolding find_remaining
find_remaining-bit allowed failed [] h = absurd (ground arith)
find_remaining-bit allowed failed (method ∷ methods) h =
    elim (Bool-cases (bit method allowed && not (bit method failed))) [
      | inl e ↦ ground arith
      | inr e ↦ find_remaining-bit allowed failed methods (ground arith)
    ]

history_allowed : (fs : List Failure) (n : Negotiation) → (history fs n).allowed ≡ n.allowed
unfolding history select_next mark_current_failed
history_allowed [] n = refl
history_allowed (f ∷ fs) n = history_allowed fs (tell f n) ∙ rw (tell_lem f n) refl

history_current :
    (fs : List Failure) (n : Negotiation)
    → ((m : EncMethod) → n.current ≡ some m → bit m n.allowed ≡ true)
    → (m : EncMethod) → (history fs n).current ≡ some m
    → bit m n.allowed ≡ true
unfolding history select_next mark_current_failed
history_current [] n inv m h = inv m h
history_current (f ∷ fs) n inv m h =
    let same : (tell f n).allowed ≡ n.allowed = rw (tell_lem f n) refl in
    rw (sym same) (
      history_current fs (tell f n)
        (rw (tell_lem f n) (λ k e.
          (find_remaining-bit n.allowed (or_current n.current n.failed) (order n.sslmode) e).0))
        m h)

-- When the options, the build and the kind of socket let a connection use a method.
abbrev pub Permits : EncryptionOptions → Build → Bool → EncMethod → Type 0
Permits options build true EncMethod.plaintext = options.gssencmode ≢ GssEncMode.require
Permits options build true _ = true ≡ false
Permits options build false EncMethod.plaintext =
    (requires_ssl options.sslmode ≡ false) × (options.gssencmode ≢ GssEncMode.require)
Permits options build false EncMethod.ssl =
    (build.use_ssl ≡ true)
    × (options.sslmode ≢ SslMode.disable)
    × (options.gssencmode ≢ GssEncMode.require)
Permits options build false EncMethod.gssapi =
    (build.enable_gss ≡ true) × (options.gssencmode ≢ GssEncMode.disable)

allowed_methods-Permits :
    (options : EncryptionOptions) (build : Build) (m : EncMethod)
    → bit m (allowed_methods options build) ≡ true
    → Permits options build false m
unfolding bit allowed_methods
allowed_methods-Permits options build EncMethod.plaintext h = (ground arith, λ e. ground arith)
allowed_methods-Permits options build EncMethod.ssl h =
    (ground arith, λ e. ground arith, λ e. ground arith)
allowed_methods-Permits options build EncMethod.gssapi h = (ground arith, λ e. ground arith)

only_plaintext-Permits :
    (options : EncryptionOptions) (build : Build) (m : EncMethod)
    → gss_is_require options.gssencmode ≡ false
    → bit m (or_bit EncMethod.plaintext no_bits) ≡ true
    → Permits options build true m
unfolding bit or_bit
only_plaintext-Permits options build EncMethod.plaintext g h = λ e. ground arith
only_plaintext-Permits options build EncMethod.ssl g h = ground arith
only_plaintext-Permits options build EncMethod.gssapi g h = ground arith

-- Whatever fails, and however it fails, a connection only ever tries a method that its options, its
-- build and its kind of socket permit: plaintext never under `require`, `verify-ca` or
-- `verify-full` over a network socket, nor anything but GSSAPI under `gssencmode=require`.
pub history-Permits :
    (options : EncryptionOptions) (build : Build) (unix : Bool) (fs : List Failure) (m : EncMethod)
    {n : Negotiation}
    → start options build unix ≡ ok n
    → (history fs n).current ≡ some m
    → Permits options build unix m
unfolding start select_next
history-Permits options build true fs m {n} e h =
    elim (Bool-cases (gss_is_require options.gssencmode)) [
      | inl g ↦ absurd (ground arith)
      | inr g ↦
          let local : Negotiation = record {
            sslmode = options.sslmode;
            sslnegotiation = options.sslnegotiation;
            allowed = or_bit EncMethod.plaintext no_bits;
            failed = no_bits;
            current = some EncMethod.plaintext;
          } in
          let same : n ≡ local = ground arith in
          only_plaintext-Permits options build m g (
            history_current fs local (λ k e. rw (sym (some_inj e)) (unfold bit or_bit in refl)) m
              (rw (sym same) h))
    ]
history-Permits options build false fs m {n} e h =
    let fresh = select_next (record {
      sslmode = options.sslmode;
      sslnegotiation = options.sslnegotiation;
      allowed = allowed_methods options build;
      failed = no_bits;
      current = none;
    }) in
    let same : n ≡ fresh = ground arith in
    allowed_methods-Permits options build m (
      history_current fs fresh
        (λ k e.
          (find_remaining-bit (allowed_methods options build) no_bits (order options.sslmode) e).0)
        m (rw (sym same) h))
