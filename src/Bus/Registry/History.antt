-- ===== src/Bus/Registry/History.antt =====
-- Sequences of calls of the registry
-- (crates/hexeract-bus/src/request_registry.rs).
use Prim.Native.String.{String}
use hexeract.Common.{ℕ, ◌+◌, Option, some, none, true, List, [], ◌∷◌, ◌==◌, if◌then◌else◌}
use hexeract.Common.Result.{Result, ok, err}
use hexeract.Bus.Envelope.{BusEnvelope}
use hexeract.Bus.Reply.{ReplyExpectation, TransportRefusal, ReplyAuthentication, undecodable}
use hexeract.Bus.Registry.{
  RequestRegistry, RegisterRejection, new, Delivery, resolve, register, remove, drain, close,
  record_undecodable,
}
use hexeract.Bus.Registry.Upkeep.{
  Call, registers, receives, garbles, drops, drains, closes, Sound, new-Sound, register-Registered,
  opened-Sound, remove-Sound, drained, counts,
}
use hexeract.Bus.Registry.Routing.{
  awaited, Routed, untrusted, unreadable, astray, unacceptable, wins, resolve-Routed,
}

abbrev pub waiting : Option ReplyExpectation → ℕ
waiting none = 0
waiting (some s) = 1

-- 1 while the request `k` waits, and 0 otherwise.
abbrev pub waits : ℕ → RequestRegistry → ℕ
waits k r = waiting (awaited k r)

abbrev pub opened : Result RegisterRejection ℕ → ℕ
opened (ok id) = 1
opened (err x) = 0

abbrev pub reaches : ℕ → {P : Type 0} → Option (Delivery P) → ℕ
reaches k none = 0
reaches k (some d) = if d.0 == k then 1 else 0

abbrev pub registration : {P : Type 0} → ℕ → Call P → RequestRegistry → ℕ
registration k (registers id e) r = if id == k then opened (register id e r).1 else 0
registration k _ r = 0

module _ (parse_uuid : String → Option ℕ) (decode_error : List ℕ → Option ℕ)
    {Principal : Type 0} where
  abbrev pub apply :
      Call Principal → RequestRegistry → RequestRegistry × Option (Delivery Principal)
  apply (registers id e) r = ((register id e r).0, none)
  apply (receives envelope a) r = resolve decode_error parse_uuid envelope a r
  apply garbles r = (record_undecodable r, none)
  apply (drops id) r = (remove id r, none)
  apply drains r = (drain r, none)
  apply closes r = (close r, none)

  unfoldable pub run : List (Call Principal) → RequestRegistry → RequestRegistry
  run [] r = r
  run (c ∷ cs) r = run cs (apply c r).0

  -- How many replies reach the caller of the request `k`.
  unfoldable pub deliveries : ℕ → List (Call Principal) → RequestRegistry → ℕ
  deliveries k [] r = 0
  deliveries k (c ∷ cs) r = reaches k (apply c r).1 + deliveries k cs (apply c r).0

  -- How often `k` is registered with success.
  unfoldable pub registrations : ℕ → List (Call Principal) → RequestRegistry → ℕ
  registrations k [] r = 0
  registrations k (c ∷ cs) r = registration k c r + registrations k cs (apply c r).0

  Routed-Sound :
      (envelope : BusEnvelope) (a : Result TransportRefusal (ReplyAuthentication Principal))
      (r : RequestRegistry) (out : RequestRegistry × Option (Delivery Principal))
      → Routed parse_uuid decode_error envelope a r out
      → Sound r
      → Sound out.0
  Routed-Sound envelope a r _ (untrusted x p f) v = f.sound v
  Routed-Sound envelope a r _ (unreadable x p q f) v = f.sound v
  Routed-Sound envelope a r _ (astray x id why p q e w f) v = f.sound v
  Routed-Sound envelope a r _ (unacceptable x id s y p q e n f) v = f.sound v
  Routed-Sound envelope a r _ (wins x id s p q e y w) v = w.sound v

  pub apply-Sound : (c : Call Principal) (r : RequestRegistry) → Sound r → Sound (apply c r).0
  unfolding record_undecodable close
  apply-Sound (registers id e) r v =
      opened-Sound r v id e (register id e r) (register-Registered id e r)
  apply-Sound (receives envelope a) r v =
      Routed-Sound envelope a r _ (resolve-Routed parse_uuid decode_error envelope r a) v
  apply-Sound garbles r v = counts r undecodable v
  apply-Sound (drops id) r v = remove-Sound r v id
  apply-Sound drains r v = drained r v r.is_closed
  apply-Sound closes r v = drained r v true

  -- A registry that starts sound stays sound through every sequence of calls.
  pub run-Sound : (cs : List (Call Principal)) (r : RequestRegistry) → Sound r → Sound (run cs r)
  unfolding run
  run-Sound [] r v = v
  run-Sound (c ∷ cs) r v = run-Sound cs (apply c r).0 (apply-Sound c r v)

  -- From an empty registry, whatever is called: never more than `max_in_flight` requests wait, no
  -- request twice, none at all once the registry is closed, and the memory of retired requests
  -- holds at most `max_in_flight` of them, each once.
  pub run-new-Sound : (cs : List (Call Principal)) (n : ℕ) → Sound (run cs (new n))
  run-new-Sound cs n = run-Sound cs (new n) (new-Sound n)
