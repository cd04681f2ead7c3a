-- ===== src/Bus/Responder/Tests.antt =====
-- The theorems about the responder and its caller at a concrete request.
use hexeract.Common.{
  ℕ, suc, ◌≡◌, sym, refl, ap, Option, some, none, false, List, [], ◌∷◌, All, length,
}
use hexeract.Common.Result.{ok}
use hexeract.Bus.Envelope.{
  BusEnvelope, codes, header, is_reserved_header, read_protocol_version, parse_u32, parse_digits,
}
use hexeract.Bus.Security.Samples.{unary, length-unary, first_byte}
use mathlib.Core.Option as Option
use hexeract.Bus.Reply.{accepts, accepts_error_identity, accepts_reply}
use hexeract.Bus.Client.{decode_reply}
use hexeract.Bus.Client.Accepted.{Settled, decode_reply-Settled}
use hexeract.Bus.Responder.{RemoteErrorType, malformed, live, World, dispatch}
use hexeract.Bus.Responder.Answers.{AnswersTo, dispatch-AnswersTo}

-- A request and a reply are numbers, and the handler adds one.
abbrev world : World ℕ ℕ
world = record {
  request_type = "PriceQuery";
  reply_type = "Price";
  accept_destination = some;
  parse_uuid = λ text. some (length (codes text));
  print_uuid = unary;
  deadline = live false;
  decode_request = first_byte;
  handler = λ n. ok (suc n);
  encode_reply = λ n. some (n ∷ []);
  encode_error = λ category id. some (id ∷ []);
  publish_reply = ok tt;
  fresh_id = 8;
  now = 0;
}

abbrev query : BusEnvelope
query = record {
  message_id = 1;
  message_type = "PriceQuery";
  payload = 4 ∷ [];
  correlation_id = 2;
  reply_to = some "replies";
  headers = [];
  protocol_headers = ("x-hexeract-protocol-version", "1") ∷ ("x-hexeract-request-id", "aaa") ∷ [];
  published_at = 0;
}

error_read :
    (category : RemoteErrorType) (id : ℕ) (payload : List ℕ)
    → world.encode_error category id ≡ some payload
    → first_byte payload ≡ some id
error_read category id payload h = let e : (id ∷ []) ≡ payload = cc h in ap first_byte (sym e)

dispatch-AnswersTo_example : All (AnswersTo world first_byte query) (dispatch world query).0
dispatch-AnswersTo_example =
    dispatch-AnswersTo world first_byte (λ n. ap some (length-unary n)) error_read query

abbrev price : BusEnvelope
price = record {
  message_id = 8;
  message_type = "Price";
  payload = 5 ∷ [];
  correlation_id = 2;
  reply_to = none;
  headers = [];
  protocol_headers =
      ("x-hexeract-reply-status", "ok")
      ∷ ("x-hexeract-request-id", "aaa")
      ∷ ("x-hexeract-protocol-version", "1")
      ∷ [];
  published_at = 0;
}

abbrev failure_of : List ℕ → Option (RemoteErrorType × ℕ)
failure_of payload = Option.map (λ n. (malformed, n)) (first_byte payload)

price_accepted :
    accepts_reply
      (λ payload. Option.map (λ (p : RemoteErrorType × ℕ). p.1) (failure_of payload))
      (record { reply_message_type = "Price" })
      price
      3
    ≡ ok tt
unfolding accepts_reply accepts accepts_error_identity header is_reserved_header
    read_protocol_version parse_u32 parse_digits
price_accepted = refl

decode_reply-Settled_example :
    Settled "Price" first_byte failure_of 3 (decode_reply "Price" first_byte failure_of price 3)
decode_reply-Settled_example =
    decode_reply-Settled "Price" first_byte failure_of price 3 price_accepted
