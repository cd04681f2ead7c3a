-- ===== src/Bus/Security/Types.antt =====
-- Identities, errors, keys and policy of the envelope security:
-- crates/hexeract-bus/src/envelope_security/{protocol,identity,error,key_source,policy,principal}.rs.
-- An `Issuer`, an `Audience` and a `KeyId` are their validated texts.
use Prim.Native.String.{String}
use text.Mathlib.Text.{◌==◌ as str_eq}
use hexeract.Common.{
  ℕ, Option, some, none, Bool, true, false, ◌&&◌, ◌||◌, not, List, [], ◌∷◌, leb, ltb, ◌==◌,
  if◌then◌else◌, length,
}
use hexeract.Common.Bytes.{Bytes, as_bytes}
use hexeract.Common.Result.{Result, ok, err, ◌>>◌, guard, ok_or}
use hexeract.Clock.{Duration, from_secs}

abbrev pub signature_header : String
signature_header = "x-hexeract-signature"

abbrev pub key_id_header : String
key_id_header = "x-hexeract-key-id"

abbrev pub issuer_header : String
issuer_header = "x-hexeract-issuer"

abbrev pub audience_header : String
audience_header = "x-hexeract-audience"

abbrev pub algorithm_header : String
algorithm_header = "x-hexeract-algorithm"

abbrev pub destination_header : String
destination_header = "x-hexeract-destination"

abbrev pub canonical_domain : String
canonical_domain = "hexeract-envelope-v1"

pub data IdentityKind : Type 0 where
  issuer audience key_id : IdentityKind

pub data KeySourceError : Type 0 where
  unknown_key revoked_key unavailable missing_signing_key : KeySourceError

pub data EnvelopeSecurityError : Type 0 where
  missing_signature unsupported_algorithm unknown_key revoked_key : EnvelopeSecurityError
  malformed_security_header missing_required_field malformed_required_field :
      String → EnvelopeSecurityError
  audience_mismatch destination_mismatch signature_mismatch broker_user_mismatch :
      EnvelopeSecurityError
  invalid_configuration : String → EnvelopeSecurityError
  field_too_large : EnvelopeSecurityError
  invalid_identity : IdentityKind → EnvelopeSecurityError
  key_source : KeySourceError → EnvelopeSecurityError

abbrev pub Secured : Type 0 → Type 0
Secured A = Result EnvelopeSecurityError A

abbrev pub max_identity_bytes : ℕ
max_identity_bytes = 128

-- `u8::is_ascii_graphic`.
abbrev is_graphic : ℕ → Bool
is_graphic b = leb b'!' b && leb b b'~'

abbrev pub all_graphic : Bytes → Bool
all_graphic [] = true
all_graphic (b ∷ bs) = is_graphic b && all_graphic bs

-- `Issuer::new`, `Audience::new` and `KeyId::new`.
unfoldable pub identity : IdentityKind → String → Secured String
identity kind value =
    let bytes = as_bytes value in
    if not (length bytes == 0) && (leb (length bytes) max_identity_bytes && all_graphic bytes)
    then ok value
    else err (invalid_identity kind)

pub data SignatureAlgorithm : Type 0 where
  ed25519 : SignatureAlgorithm

unfoldable pub as_wire_str : SignatureAlgorithm → String
as_wire_str ed25519 = "ed25519"

unfoldable pub from_wire_str : String → Secured SignatureAlgorithm
from_wire_str token = if str_eq token "ed25519" then ok ed25519 else err unsupported_algorithm

pub data VerificationPolicy : Type 0 where
  required allow_insecure_unauthenticated_envelopes : VerificationPolicy

unfoldable pub allows_unauthenticated_envelopes : VerificationPolicy → Bool
allows_unauthenticated_envelopes required = false
allows_unauthenticated_envelopes allow_insecure_unauthenticated_envelopes = true

pub record EnvelopeSecurityConfig : Type 0 where
  pub policy : VerificationPolicy
  pub accepted_audiences : List String
  pub key_refresh_interval : Duration

abbrev pub default_security_config : EnvelopeSecurityConfig
default_security_config = record {
  policy = required;
  accepted_audiences = [];
  key_refresh_interval = from_secs 30;
}

abbrev requires_audience : EnvelopeSecurityConfig → Bool
requires_audience c =
    not (allows_unauthenticated_envelopes c.policy) && length c.accepted_audiences == 0

-- `EnvelopeSecurityConfigBuilder::build`.
unfoldable pub build_security : EnvelopeSecurityConfig → Secured EnvelopeSecurityConfig
unfolding allows_unauthenticated_envelopes
build_security c = do
  guard (not (requires_audience c)) (missing_required_field "accepted_audiences")
  guard (ltb 0 c.key_refresh_interval) (invalid_configuration "key_refresh_interval")
  ok c

pub record VerifiedPrincipal : Type 0 where
  pub issuer : String
  pub audience : String
  pub key_id : String
  pub algorithm : SignatureAlgorithm

-- `contains` on a list of texts.
abbrev pub contains : String → List String → Bool
contains x [] = false
contains x (y ∷ ys) = str_eq y x || contains x ys

-- `KeyState` and `StaticKeySource`, for the keys of a signature scheme.
pub data KeyState (Key : Type 0) : Type 0 where
  active : Key → KeyState Key
  revoked : KeyState Key

abbrev pub KeyMap : Type 0 → Type 0
KeyMap Key = List ((String × String) × KeyState Key)

pub record StaticKeySource (Key SigningKey : Type 0) : Type 0 where
  pub verification_keys : KeyMap Key
  pub signing_key : Option (String × SigningKey)

abbrev pub same_key : String × String → String × String → Bool
same_key (i, k) (j, l) = str_eq i j && str_eq k l

-- `HashMap::get` and `HashMap::insert`.
module _ {Key : Type 0} where
  abbrev pub get_key : String × String → KeyMap Key → Option (KeyState Key)
  get_key id [] = none
  get_key id ((j, s) ∷ m) = if same_key j id then some s else get_key id m

  abbrev pub put_key : String × String → KeyState Key → KeyMap Key → KeyMap Key
  put_key id s [] = (id, s) ∷ []
  put_key id s ((j, t) ∷ m) = if same_key j id then (id, s) ∷ m else (j, t) ∷ put_key id s m

  abbrev pub state_key : Option (KeyState Key) → Result KeySourceError Key
  state_key none = err KeySourceError.unknown_key
  state_key (some (active key)) = ok key
  state_key (some revoked) = err KeySourceError.revoked_key

module _ {Key SigningKey : Type 0} where
  unfoldable pub verification_key :
      StaticKeySource Key SigningKey → String → String → Result KeySourceError Key
  verification_key source who id = state_key (get_key (who, id) source.verification_keys)

  unfoldable pub current_signing_key :
      StaticKeySource Key SigningKey → Result KeySourceError (String × SigningKey)
  current_signing_key source = ok_or source.signing_key missing_signing_key

  unfoldable pub with_verification_key :
      String → String → Key → StaticKeySource Key SigningKey → StaticKeySource Key SigningKey
  with_verification_key who id key source = record source {
    verification_keys = put_key (who, id) (active key) source.verification_keys;
  }

  unfoldable pub with_revoked_key :
      String → String → StaticKeySource Key SigningKey → StaticKeySource Key SigningKey
  with_revoked_key who id source = record source {
    verification_keys = put_key (who, id) revoked source.verification_keys;
  }

  unfoldable pub with_signing_key :
      String → SigningKey → StaticKeySource Key SigningKey → StaticKeySource Key SigningKey
  with_signing_key id key source = record source { signing_key = some (id, key) }
