-- ===== src/Negotiate/Ends.antt =====
-- The methods that crates/rlibpq/src/negotiate.rs tries one after the other.
use pgrust_drop.Prelude.{
  suc, ◌≤◌, Bool, false, List, [], ◌∷◌, Option, none, some, ◌≡◌, refl, ap, ◌∙◌, arith,
  if◌then◌else◌, length, take,
}
use pgrust_drop.ConnError.{ok}
use pgrust_drop.Negotiate.{
  Build, SslMode, SslNegotiation, AfterRefusal, EncryptionOptions, EncMethod, Mask, no_bits, bit,
  or_bit, Negotiation, order, find_remaining, select_next, mark_current_failed, connection_failed,
  encryption_negotiation_failed, allowed_methods, start, after_refusal,
}
use pgrust_drop.Negotiate.Safety.{Failure, tell, history, select_failed, tell_lem}

abbrev attempt : Option EncMethod → List EncMethod → List EncMethod
attempt none rest = []
attempt (some m) rest = m ∷ rest

-- The methods tried, in order, when each attempt fails the way the list says.
unfoldable pub tried : List Failure → Negotiation → List EncMethod
tried [] n = attempt n.current []
tried (f ∷ fs) n = attempt n.current (tried fs (tell f n))

-- The methods of a list that a mask has.
unfoldable pub permitted : Mask → List EncMethod → List EncMethod
permitted allowed [] = []
permitted allowed (m ∷ ms) =
    let rest = permitted allowed ms in if bit m allowed then m ∷ rest else rest

abbrev fresh : SslMode → SslNegotiation → Mask → Negotiation
fresh sslmode sslnegotiation allowed = select_next (record {
  sslmode = sslmode;
  sslnegotiation = sslnegotiation;
  allowed = allowed;
  failed = no_bits;
  current = none;
})

abbrev tries : List Failure → Negotiation → List EncMethod
tries [] n = attempt n.current []
tries (f ∷ fs) n = attempt n.current (tries fs (select_failed n))

tried-tries : (fs : List Failure) (n : Negotiation) → tried fs n ≡ tries fs n
unfolding tried
tried-tries [] n = refl
tried-tries (f ∷ fs) n =
    ap (attempt n.current) (ap (tried fs) (tell_lem f n) ∙ tried-tries fs (select_failed n))

tries-fresh :
    (fs : List Failure) (sslmode : SslMode) (s : SslNegotiation) (plaintext gssapi ssl : Bool)
    → (let allowed : Mask = record {
      has_plaintext = plaintext;
      has_gssapi = gssapi;
      has_ssl = ssl;
    } in
        tries fs (fresh sslmode s allowed)
        ≡ take (suc (length fs)) (permitted allowed (order sslmode)))
unfolding permitted order select_next find_remaining bit mark_current_failed or_bit
tries-fresh [] SslMode.allow s false false false = ground arith
tries-fresh [] _ s _ _ _ = ground arith
tries-fresh (f ∷ []) _ s _ _ _ = ground arith
tries-fresh (f ∷ g ∷ []) _ s _ _ _ = ground arith
tries-fresh (f ∷ g ∷ h ∷ []) _ s _ _ _ = ground arith
tries-fresh (f ∷ g ∷ h ∷ i ∷ fs) _ s _ _ _ = ground arith

start_network :
    (options : EncryptionOptions) (build : Build) {n : Negotiation}
    → start options build false ≡ ok n
    → n ≡ fresh options.sslmode options.sslnegotiation (allowed_methods options build)
unfolding start
start_network options build h = ground arith

-- Over a network socket, the methods tried are those that the options and the build permit, GSSAPI
-- first and plaintext before SSL under `allow` alone, each of them once, however the attempts fail:
-- one more of them than failures, until none is left.
pub tried-start :
    (options : EncryptionOptions) (build : Build) (fs : List Failure) {n : Negotiation}
    → start options build false ≡ ok n
    → tried fs n
      ≡ take (suc (length fs)) (permitted (allowed_methods options build) (order options.sslmode))
tried-start options build fs {n} h =
    let allowed = allowed_methods options build in
    rw (start_network options build h) (
      tried-tries fs (fresh options.sslmode options.sslnegotiation allowed)
      ∙ tries-fresh fs options.sslmode options.sslnegotiation allowed.has_plaintext
          allowed.has_gssapi allowed.has_ssl)

-- Nothing is being tried and nothing is left to try.
abbrev Settled : Negotiation → Type 0
Settled n = (n.current ≡ none) × (find_remaining n.allowed n.failed (order n.sslmode) ≡ none)

select_failed-Settled : (n : Negotiation) → Settled n → Settled (select_failed n)
unfolding select_next mark_current_failed
select_failed-Settled n (c, r) = rw c (r, r)

history-Settled : (fs : List Failure) (n : Negotiation) → Settled n → Settled (history fs n)
unfolding history
history-Settled [] n s = s
history-Settled (f ∷ fs) n s =
    history-Settled fs (tell f n) (rw (tell_lem f n) (select_failed-Settled n s))

fresh-Settled :
    (sslmode : SslMode) (s : SslNegotiation) (plaintext gssapi ssl : Bool)
    → (let allowed : Mask = record {
      has_plaintext = plaintext;
      has_gssapi = gssapi;
      has_ssl = ssl;
    } in
        Settled (select_failed (select_failed (select_failed (fresh sslmode s allowed)))))
unfolding order select_next find_remaining bit mark_current_failed or_bit
fresh-Settled _ s _ _ _ = ground arith

Settled-answers :
    (n : Negotiation)
    → Settled n
    → (n.current ≡ none)
      × ((connection_failed n).1 ≡ false)
      × ((encryption_negotiation_failed n).1 ≡ AfterRefusal.give_up)
unfolding connection_failed encryption_negotiation_failed after_refusal
Settled-answers n s =
    let (c, _) = select_failed-Settled n s in (s.0, rw c refl, rw (c, after_refusal) refl)

-- Over a network socket, three failures of either kind leave nothing to try: there is no current
-- method, and one more failure is answered with `false` or with `GiveUp`.
pub tried_ends :
    (options : EncryptionOptions) (build : Build) (fs : List Failure) {n : Negotiation}
    → start options build false ≡ ok n
    → 3 ≤ length fs
    → ((history fs n).current ≡ none)
      × ((connection_failed (history fs n)).1 ≡ false)
      × ((encryption_negotiation_failed (history fs n)).1 ≡ AfterRefusal.give_up)
unfolding history
tried_ends options build (f ∷ g ∷ h ∷ fs) {n} e more =
    let allowed = allowed_methods options build in
    let settled : Settled (tell h (tell g (tell f n))) =
      rw
        (
          tell_lem f n,
          tell_lem g (select_failed n),
          tell_lem h (select_failed (select_failed n)),
          start_network options build e,
        )
        (fresh-Settled options.sslmode options.sslnegotiation allowed.has_plaintext
          allowed.has_gssapi allowed.has_ssl) in
    Settled-answers (history fs (tell h (tell g (tell f n))))
      (history-Settled fs (tell h (tell g (tell f n))) settled)
tried_ends options build [] e more = absurd (omega arith)
tried_ends options build (f ∷ []) e more = absurd (omega arith)
tried_ends options build (f ∷ g ∷ []) e more = absurd (omega arith)
