-- ===== src/NetworkDevice/Power.antt =====
-- device/power_assertion.rs: the power assertion that keeps a network device reachable. The connection to the
-- assertion agent, the pairing file and the plist codec are parameters.
pub mod Renewal
use rusbmux.Base.{
  ℕ, ◌+◌, ◌*◌, Bool, true, false, Option, none, some, List, [], ◌∷◌, ◌++◌, length, if◌then◌else◌,
}
use rusbmux.Base.Words.{be32, be32_at, as_u32}
use rusbmux.Base.Parser
use rusbmux.Base.Parser.{Parser, Reply, IoErrorKind, ParseError, read_exact, return, raise, ◌>>=◌}
use rusbmux.Error
use rusbmux.Error.{Result, err, RusbmuxError, power_assertion, idevice, plist}

-- Seconds.
abbrev pub assertion_timeout : ℕ
assertion_timeout = 20 * 60

abbrev pub renewal_interval : ℕ
renewal_interval = 10 * 60

-- The plist values that are sent and read.
pub record PlistCodec (Value Dictionary : Type 0) : Type 0 where
  pub to_writer_xml : Value → Result (List ℕ)
  pub from_bytes : List ℕ → Option Dictionary
  pub has_error_key : Dictionary → Bool

module _ {Value Dictionary : Type 0} (codec : PlistCodec Value Dictionary) where
  -- What is written: the length of the body, and the body.
  abbrev pub frame : List ℕ → List ℕ
  frame body = be32 (as_u32 (length body)) body

  abbrev decode : Option Dictionary → Parser Dictionary
  decode none = raise ParseError.plist
  decode (some d) = return d

  -- The second half of `send_recv`: four bytes of length, and as many bytes.
  unfoldable pub read_reply : IoErrorKind → Parser Dictionary
  read_reply end = do
    head ← read_exact end 4
    body ← read_exact end (be32_at head 0)
    decode (codec.from_bytes body)

  abbrev replied : Reply Dictionary → Result Dictionary
  replied (Parser.ok d rest) = Error.ok d
  replied (Parser.err ParseError.plist rest) = err plist
  replied (Parser.err e rest) = err idevice
  replied Parser.panic = err idevice
  replied Parser.undefined = err idevice

  abbrev received : Result (List ℕ) → IoErrorKind → Result Dictionary
  received (err e) end = err e
  received (Error.ok incoming) end = replied (read_reply end incoming)

  -- `agent` takes a frame, and says what can then be read until the error `end`, or that the frame
  -- could not be sent.
  abbrev sent : (List ℕ → Result (List ℕ)) → IoErrorKind → Result (List ℕ) → Result Dictionary
  sent agent end (err e) = err e
  sent agent end (Error.ok body) = received (agent (frame body)) end

  unfoldable pub send_recv : (List ℕ → Result (List ℕ)) → IoErrorKind → Value → Result Dictionary
  unfolding read_reply
  send_recv agent end message = sent agent end (codec.to_writer_xml message)

  abbrev checked : Result Dictionary → Result (Unit {0})
  checked (err e) = err e
  checked (Error.ok reply) = if codec.has_error_key reply then err power_assertion else Error.ok tt

  abbrev connected : Result (List ℕ → Result (List ℕ)) → IoErrorKind → Value → Result (Unit {0})
  connected (err e) end message = err e
  connected (Error.ok agent) end message = checked (send_recv agent end message)

  -- `Assertion::new`: the pairing file, the connection, the request and its reply.
  unfoldable pub new_assertion :
      Result (Unit {0})
      → Result (List ℕ → Result (List ℕ))
      → IoErrorKind
      → Value
      → Result (Unit {0})
  unfolding send_recv
  new_assertion (err e) agent end message = err e
  new_assertion (Error.ok file) agent end message = connected agent end message

-- `PowerAssertion::new` and its task. `now` is the time at which the task goes to sleep, and `held` the time
-- at which the agent took the request for the assertion that the task holds, from which its timeout runs; it is
-- `none` once the task has returned, when the assertion is dropped.
pub record PowerAssertion : Type 0 where
  pub now : ℕ
  pub held : Option ℕ

-- A round of the task: how long it takes until the agent has the request, how long then until
-- `Assertion::new` returns, and whether it succeeds.
pub record Attempt : Type 0 where
  pub until_taken : ℕ
  pub until_reply : ℕ
  pub success : Bool

abbrev renewed : Bool → ℕ → ℕ → PowerAssertion
renewed true taken now = record { now = now; held = some taken }
renewed false taken now = record { now = now; held = none }

abbrev renew_held : Option ℕ → Attempt → ℕ → PowerAssertion
renew_held none a now = record { now = now; held = none }
renew_held (some since) a now =
    let taken = now + renewal_interval + a.until_taken in
    renewed a.success taken (taken + a.until_reply)

unfoldable pub renew : Attempt → PowerAssertion → PowerAssertion
renew a p = renew_held p.held a p.now

abbrev pub renew_all : List Attempt → PowerAssertion → PowerAssertion
renew_all [] p = p
renew_all (a ∷ later) p = renew_all later (renew a p)
