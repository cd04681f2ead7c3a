-- ===== src/Bus/Security/Samples.antt =====
-- An envelope, its keys and toy signature schemes for the examples on
-- crates/hexeract-bus/src/envelope_security.
use Prim.Native.String.{String}
use hexeract.Common.{
  ℕ, zero, suc, ◌+◌, ◌%◌, ◌≡◌, refl, ap, Option, some, none, ◌&&◌, not, [], ◌∷◌, ◌==◌, length,
}
use hexeract.Common.Bytes.{Bytes, bytes_lt}
use hexeract.Common.Result.{ok, err}
use hexeract.Clock.{unix_epoch, from_secs}
use hexeract.Bus.Envelope.{BusEnvelope, codes}
use hexeract.Bus.Security.Types.{
  Secured, ed25519, required, EnvelopeSecurityConfig, VerifiedPrincipal, StaticKeySource, active,
}
use hexeract.Bus.Security.Verifier.{Scheme, EnvelopeVerifier}

abbrev pub unary : ℕ → String
unary zero = ""
unary (suc n) = String.◌∷◌ "a" (unary n)

pub length-unary : (n : ℕ) → length (codes (unary n)) ≡ n
length-unary zero = refl
length-unary (suc n) = ap suc (length-unary n)

abbrev pub encode_unary : Bytes → String
encode_unary [] = ""
encode_unary (n ∷ _) = unary n

abbrev pub first_byte : Bytes → Option ℕ
first_byte [] = none
first_byte (n ∷ _) = some n

-- A checksum under a numeric key.
abbrev pub checksum : ℕ → Bytes → ℕ
checksum key m = (key + length m) % 10

abbrev pub keyed : Scheme
keyed = record {
  Key = ℕ;
  SigningKey = ℕ;
  Signature = ℕ;
  digest = λ bytes. bytes;
  encode = encode_unary;
  decode = λ text. some (length (codes text) ∷ []);
  from_slice = first_byte;
  to_bytes = λ signature. signature ∷ [];
  check = λ key m signature. signature == checksum key m;
  make = checksum;
}

-- A key that accepts one message.
abbrev pub pinned : Scheme
pinned = record {
  Key = Bytes;
  SigningKey = Bytes;
  Signature = ℕ;
  digest = λ bytes. bytes;
  encode = encode_unary;
  decode = λ text. some (length (codes text) ∷ []);
  from_slice = first_byte;
  to_bytes = λ signature. signature ∷ [];
  check = λ key m signature. not (bytes_lt m key) && not (bytes_lt key m);
  make = λ key m. 3;
}

abbrev pub order : BusEnvelope
order = record {
  message_id = 1;
  message_type = "OrderPlaced";
  payload = 1 ∷ 2 ∷ [];
  correlation_id = 2;
  reply_to = some "replies";
  headers = ("tenant", "acme") ∷ ("region", "eu") ∷ [];
  protocol_headers = ("x-hexeract-request-id", "7") ∷ [];
  published_at = unix_epoch + from_secs 5 + 3;
}

abbrev pub billing : VerifiedPrincipal
billing = record { issuer = "billing"; audience = "ledger"; key_id = "k1"; algorithm = ed25519 }

abbrev pub config : EnvelopeSecurityConfig
config = record {
  policy = required;
  accepted_audiences = "ledger" ∷ [];
  key_refresh_interval = from_secs 30;
}

abbrev pub verifier_with :
    {Key : Type 0} → Key → Option ℕ → EnvelopeVerifier (StaticKeySource Key Key)
verifier_with key last = record {
  keys = record { verification_keys = (("billing", "k1"), active key) ∷ []; signing_key = none };
  config = config;
  last_refresh = last;
}

abbrev pub bytes_or_nil : Secured Bytes → Bytes
bytes_or_nil (ok bytes) = bytes
bytes_or_nil (err _) = []

-- The order with the headers of a signature.
abbrev pub signed_order : BusEnvelope
signed_order = record order {
  protocol_headers =
      ("x-hexeract-request-id", "7")
      ∷ ("x-hexeract-signature", "aaa")
      ∷ ("x-hexeract-key-id", "k1")
      ∷ ("x-hexeract-issuer", "billing")
      ∷ ("x-hexeract-audience", "ledger")
      ∷ ("x-hexeract-algorithm", "ed25519")
      ∷ ("x-hexeract-destination", "orders")
      ∷ [];
}
