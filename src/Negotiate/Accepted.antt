-- ===== src/Negotiate/Accepted.antt =====
-- The options that `EncryptionOptions::from_conninfo` of crates/rlibpq/src/negotiate.rs accepts,
-- and what `Negotiation::start` does with them.
use pgrust_drop.Prelude.{
  Bool, true, false, not, ◌&&◌, none, some, codes, ◌≡◌, ◌≢◌, refl, sym, arith, inl, inr,
  Option-cases,
}
use pgrust_drop.ConnError.{ok, bind-ok, refuse-ok, ok_inj}
use pgrust_drop.ConnInfo.{ConnInfo, get, is_system}
use pgrust_drop.Negotiate.{
  Build, SslMode, SslNegotiation, GssEncMode, EncryptionOptions, EncMethod, no_bits, bit,
  Negotiation, order, find_remaining, select_next, allowed_methods, start, requires_ssl,
  gss_is_require,
}
use pgrust_drop.Negotiate.Options.{
  parse_ssl_mode, parse_ssl_negotiation, parse_gss_enc_mode, is_direct, is_verify_full,
  from_conninfo,
}

-- What the checks leave of the options.
abbrev pub Coherent : Build → Bool → EncryptionOptions → Type 0
Coherent build system options =
    (build.use_ssl ≡ false
      → (requires_ssl options.sslmode ≡ false) × (options.sslnegotiation ≡ SslNegotiation.postgres))
    × (options.sslnegotiation ≡ SslNegotiation.direct → requires_ssl options.sslmode ≡ true)
    × (system ≡ true → (build.use_ssl ≡ true) × (options.sslmode ≡ SslMode.verify_full))
    × (build.enable_gss ≡ false → options.gssencmode ≢ GssEncMode.require)

-- The four refusals, read together.
refusals-Coherent :
    (build : Build) (system : Bool) (options : EncryptionOptions)
    → (not build.use_ssl && system) ≡ false
    → (not build.use_ssl && requires_ssl options.sslmode) ≡ false
    → (not build.use_ssl && is_direct options.sslnegotiation) ≡ false
    → (is_direct options.sslnegotiation && not (requires_ssl options.sslmode)) ≡ false
    → (build.use_ssl && system && not (is_verify_full options.sslmode)) ≡ false
    → (not build.enable_gss && gss_is_require options.gssencmode) ≡ false
    → Coherent build system options
refusals-Coherent build system options r1 r2 r3 r4 r5 r6 = (
  λ e. (ground arith, ground arith),
  λ e. ground arith,
  λ e. (ground arith, ground arith),
  λ e. λ f. ground arith,
)

-- Options that are accepted never ask a build for what it lacks, never start SSL without a request
-- under a mode that would fall back to plaintext, and verify the server fully when the system's
-- roots are trusted.
pub from_conninfo-Coherent :
    (conninfo : ConnInfo) (build : Build) {options : EncryptionOptions}
    → from_conninfo conninfo build ≡ ok options
    → Coherent build (is_system (get conninfo (codes "sslrootcert"))) options
unfolding from_conninfo
from_conninfo-Coherent conninfo build {options} h =
    let system = is_system (get conninfo (codes "sslrootcert")) in
    refuse-ok (not build.use_ssl && system) _ _ h (λ r1 h1.
      bind-ok (parse_ssl_mode _) _ h1 (λ mode _ h2.
        refuse-ok (not build.use_ssl && requires_ssl mode) _ _ h2 (λ r2 h3.
          bind-ok (parse_ssl_negotiation _) _ h3 (λ negotiation _ h4.
            refuse-ok (not build.use_ssl && is_direct negotiation) _ _ h4 (λ r3 h5.
              refuse-ok (is_direct negotiation && not (requires_ssl mode)) _ _ h5 (λ r4 h6.
                refuse-ok (build.use_ssl && system && not (is_verify_full mode)) _ _ h6 (λ r5 h7.
                  bind-ok (parse_gss_enc_mode _) _ h7 (λ gss _ h8.
                    refuse-ok (not build.enable_gss && gss_is_require gss) _ _ h8 (λ r6 h9.
                      rw (sym (ok_inj h9)) (
                        refusals-Coherent build system
                          (record {
                            sslmode = mode;
                            sslnegotiation = negotiation;
                            gssencmode = gss;
                          })
                          r1 r2 r3 r4 r5 r6))))))))))

first_of :
    (use_ssl enable_gss : Bool) (m : SslMode) (s : SslNegotiation) (g : GssEncMode)
    → (use_ssl ≡ false → requires_ssl m ≡ false)
    → (enable_gss ≡ false → g ≢ GssEncMode.require)
    → (let options : EncryptionOptions = record {
      sslmode = m;
      sslnegotiation = s;
      gssencmode = g;
    } in
        let build : Build = record { use_ssl = use_ssl; enable_gss = enable_gss } in
        find_remaining (allowed_methods options build) no_bits (order m) ≢ none)
unfolding find_remaining allowed_methods order bit requires_ssl
first_of true _ m s GssEncMode.disable c d h = ground arith
first_of true _ m s GssEncMode.prefer c d h = ground arith
first_of true true m s GssEncMode.require c d h = ground arith
first_of true false m s GssEncMode.require c d h = d refl refl
first_of false _ m s GssEncMode.disable c d h = let e = c refl in ground arith
first_of false _ m s GssEncMode.prefer c d h = let e = c refl in ground arith
first_of false true m s GssEncMode.require c d h = ground arith
first_of false false m s GssEncMode.require c d h = d refl refl

-- There is a method to try first for options that were accepted, over a network socket.
pub from_conninfo-start :
    (conninfo : ConnInfo) (build : Build) {options : EncryptionOptions}
    → from_conninfo conninfo build ≡ ok options
    → (n : Negotiation) × (m : EncMethod) × (start options build false ≡ ok n)
      × (n.current ≡ some m)
unfolding start select_next
from_conninfo-start conninfo build {options} h =
    let n = select_next (record {
      sslmode = options.sslmode;
      sslnegotiation = options.sslnegotiation;
      allowed = allowed_methods options build;
      failed = no_bits;
      current = none;
    }) in
    let (no_ssl, _, _, no_gss) = from_conninfo-Coherent conninfo build h in
    elim (Option-cases n.current) [
      | inl e ↦ absurd (
          first_of build.use_ssl build.enable_gss options.sslmode options.sslnegotiation
            options.gssencmode (λ off. (no_ssl off).0) no_gss e)
      | inr (m, e) ↦ (n, m, refl, e)
    ]
