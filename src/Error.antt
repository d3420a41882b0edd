-- ===== src/Error.antt =====
-- error.rs: the errors, with the parts that a caller sees. The wrapped errors of other crates are
-- kept as their printed text.
use Prim.Native.Char.{code}
use Prim.Native.String.{String}
use localsend_rs.Base.{ℕ, [], ◌∷◌, Option}
use localsend_rs.Protocol.{Text}

-- The bytes of an ASCII text.
abbrev pub bytes : String → Text
bytes String.[] = []
bytes (String.◌∷◌ c s) = code c ∷ bytes s

pub data LocalSendError : Type 0 where
  io serde reqwest addr_parse network invalid_port invalid_multicast_address : Text → LocalSendError
  invalid_device invalid_file : Text → LocalSendError
  version_mismatch : Text → Text → LocalSendError
  invalid_state : Text → LocalSendError
  invalid_token : LocalSendError
  session_not_found : Text → LocalSendError
  file_not_found : Text → Text → LocalSendError
  transfer_failed : Text → Option Text → LocalSendError
  session_blocked invalid_pin pin_required : LocalSendError
  rejected : ℕ → LocalSendError
  http_failed : ℕ → Text → LocalSendError
  rate_limited : LocalSendError

pub data Result {ℓ} (A : Type ℓ) : Type ℓ where
  ok : A → Result A
  err : LocalSendError → Result A

infixl 5 ◌>>=◌
abbrev pub ◌>>=◌ {ℓ κ} : {A : Type ℓ} {B : Type κ} → Result A → (A → Result B) → Result B
ok a >>= f = f a
err e >>= f = err e
