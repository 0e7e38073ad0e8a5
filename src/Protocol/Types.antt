-- ===== src/Protocol/Types.antt =====
-- The types of src/protocol.h and the tables of src/protocol.c. A pointer into the input buffer is
-- an offset from its start, and NULL is `none`.
use kvx.Common.{ℕ, Bool, true, false, Option, none, Bytes, ◌≡◌, refl, ◌⊎◌, inl, inr}

-- The error codes; `PROTO_OK` is the constructor `ok` of `Result`.
pub data ProtoError : Type 0 where
  incomplete invalid_command invalid_arguments key_too_long invalid_flags invalid_exptime
        invalid_value_length invalid_cas expected_crlf invalid_data_block buffer_too_small :
      ProtoError

-- A `proto_error_t` with the value that the function writes to its output when the code is PROTO_OK.
pub data Result {κ} (V : Type κ) : Type κ where
  err : ProtoError → Result V
  ok : V → Result V

-- The caller's `if (err != PROTO_OK) return err;`.
infixl 5 ◌>>=◌
abbrev pub ◌>>=◌ {κ μ} : {V : Type κ} {W : Type μ} → Result V → (V → Result W) → Result W
err code >>= next = err code
ok v >>= next = next v

pub data CommandType : Type 0 where
  get set delete touch version quit : CommandType

-- `command_t`.
pub record Command : Type 0 where
  pub key : Option ℕ
  pub key_len : ℕ
  pub keys_end : Option ℕ
  pub value : Option ℕ
  pub value_len : ℕ
  pub flags : ℕ
  pub exptime : ℕ
  pub cas : ℕ
  pub noreply : Bool
  pub type : CommandType

-- `command_t parsed = {0}`.
abbrev pub zero_command : Command
zero_command = record {
  key = none;
  key_len = 0;
  keys_end = none;
  value = none;
  value_len = 0;
  flags = 0;
  exptime = 0;
  cas = 0;
  noreply = false;
  type = get;
}

-- `proto_token_t`: the slice of the line at offset `start`, with the bytes that it holds; the field
-- `len` is their number.
pub record Token : Type 0 where
  pub start : ℕ
  pub text : Bytes

-- `proto_command_spec_t`.
pub record CommandSpec : Type 0 where
  pub type : CommandType
  pub token_count : ℕ
  pub allows_noreply : Bool

-- The table `proto_commands`.
abbrev pub proto_commands : CommandType → CommandSpec
proto_commands get = record { type = get; token_count = 2; allows_noreply = false }
proto_commands set = record { type = set; token_count = 5; allows_noreply = true }
proto_commands delete = record { type = delete; token_count = 2; allows_noreply = true }
proto_commands touch = record { type = touch; token_count = 3; allows_noreply = true }
proto_commands version = record { type = version; token_count = 1; allows_noreply = false }
proto_commands quit = record { type = quit; token_count = 1; allows_noreply = false }

abbrev pub max_tokens : ℕ
max_tokens = 6

abbrev pub max_key_length : ℕ
max_key_length = 250

pub data ResponseType : Type 0 where
  stored not_stored deleted not_found touched error client_error server_error : ResponseType

-- A result is a value or an error.
pub Result-cases {ℓ} :
    {A : Type ℓ} (r : Result A) → ((a : A) × (r ≡ ok a)) ⊎ ((e : ProtoError) × (r ≡ err e))
Result-cases (ok a) = inl (a, refl)
Result-cases (err e) = inr (e, refl)

-- A chain that succeeds has passed its first step.
pub >>=-eq-ok {κ μ} :
    {V : Type κ} {W : Type μ} (step : Result V) (next : V → Result W) {w : W}
    → (step >>= next) ≡ ok w
    → (v : V) × (step ≡ ok v) × (next v ≡ ok w)
>>=-eq-ok (err code) next h = absurd (cc)
>>=-eq-ok (ok v) next h = (v, refl, h)
