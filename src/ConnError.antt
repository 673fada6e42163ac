-- ===== src/ConnError.antt =====
-- crates/rlibpq/src/error.rs: `ConnError`, what the connection-string functions fail with, as data.
-- The texts of the messages are not here. A `RawText` is its bytes.
use pgrust_drop.Prelude.{ℕ, Bool, true, false, Bytes, ◌≡◌, refl, arith}

-- `enum ConnError`.
pub data ConnError : Type 0 where
  missing_equals : Bytes → ConnError
  unterminated_quoted_string : ConnError
  invalid_connection_option invalid_uri_propagated ipv6_unterminated ipv6_empty : Bytes → ConnError
  unexpected_character : ℕ → ℕ → Bytes → ConnError
  extra_separator missing_separator invalid_uri_query_parameter : Bytes → ConnError
  invalid_percent_encoding forbidden_nul_in_percent_encoding : Bytes → ConnError
  unexpected_spaces invalid_port_number : Bytes → ConnError
  invalid_integer_value : Bytes → Bytes → ConnError
  invalid_value ssl_not_compiled_in : Bytes → Bytes → ConnError
  weak_ssl_mode_with_direct weak_ssl_mode_with_system_root gss_not_compiled_in : Bytes → ConnError
  gssapi_over_local_socket : ConnError
  service_not_found service_file_not_found : Bytes → ConnError
  service_file_line_too_long service_file_syntax_error : Bytes → ℕ → ConnError
  nested_service_specification : Bytes → ℕ → ConnError
  host_count_mismatch port_count_mismatch : ℕ → ℕ → ConnError

-- `Result<T, ConnError>`.
pub data Result {ℓ} (T : Type ℓ) : Type ℓ where
  err : ConnError → Result T
  ok : T → Result T

-- `?` on a result, with the value and without.
infixl 5 ◌>>=◌
abbrev pub ◌>>=◌ {ℓ κ} : {T : Type ℓ} {U : Type κ} → Result T → (T → Result U) → Result U
err error >>= next = err error
ok value >>= next = next value

infixl 5 ◌>>◌
abbrev pub ◌>>◌ {ℓ κ} : {T : Type ℓ} {U : Type κ} → Result T → Result U → Result U
err error >> next = err error
ok value >> next = next

-- An early `return Err(…)`.
abbrev pub refuse : Bool → ConnError → Result {0} Unit
refuse true e = err e
refuse false e = ok tt

-- To read a result back through a step of a `do` block.
pub bind-ok :
    {A B C : Type 0} (m : Result A) (f : A → Result B) {b : B}
    → (m >>= f) ≡ ok b
    → ((a : A) → m ≡ ok a → f a ≡ ok b → C)
    → C
bind-ok (err e) f h k = absurd (ground arith)
bind-ok (ok a) f h k = k a refl h

pub refuse-ok :
    {B C : Type 0} (t : Bool) (e : ConnError) (m : Result B) {b : B}
    → (refuse t e >> m) ≡ ok b
    → (t ≡ false → m ≡ ok b → C)
    → C
refuse-ok true e m h k = absurd (ground arith)
refuse-ok false e m h k = k refl h

pub ok_inj : {A : Type 0} {a b : A} → ok a ≡ ok b → a ≡ b
ok_inj h = ground arith
