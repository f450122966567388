-- ===== src/NetworkDevice/Power/Renewal.antt =====
-- device/power_assertion.rs: the frames of the assertion agent, and how long an assertion is held.
use rusbmux.Base.{
  ℕ, ◌≡◌, ◌≤◌, ◌+◌, refl, true, false, none, some, List, [], ◌∷◌, ◌++◌, length, inl, inr,
  Option-cases, arith, ◌*◌,
}
use rusbmux.Base.Words.{IsU32, be32, be32_at, as_u32}
use rusbmux.Base.Parser
use rusbmux.Base.Parser.{IoErrorKind, read_exact, read_exact-append, ◌>>=◌, continue}
use rusbmux.NetworkDevice.Power.{
  PlistCodec, frame, read_reply, PowerAssertion, Attempt, renew, renew_all, renewal_interval,
}

be32-append : (x : ℕ) (body : List ℕ) → be32 x body ≡ be32 x [] ++ body
be32-append x body = refl

be32_at-be32 : (x : ℕ) (rest : List ℕ) → IsU32 x → be32_at (be32 x rest) 0 ≡ x
be32_at-be32 x rest h = omega arith

module _ {Value Dictionary : Type 0} (codec : PlistCodec Value Dictionary) where
  -- A reply that the agent frames as the requests are framed is read back whole, and no byte behind it.
  pub read_reply-frame :
      (end : IoErrorKind) (body rest : List ℕ) (d : Dictionary)
      → IsU32 (length body)
      → codec.from_bytes body ≡ some d
      → read_reply codec end (frame codec body ++ rest) ≡ Parser.ok d rest
  unfolding read_reply
  read_reply-frame end body rest d fits parses =
      let size : as_u32 (length body) ≡ length body = omega arith in
      rw size (
        rw
          (
            read_exact-append end 4 (be32 (length body) []) (body ++ rest) refl,
            be32_at-be32 (length body) [] fits,
            read_exact-append end (length body) body rest refl,
            parses,
          )
          refl)

-- A renewal that succeeds, within five minutes.
abbrev pub InTime : Attempt → Type 0
InTime a = (a.success ≡ true) × (a.until_taken + a.until_reply ≤ 5 * 60)

held_none :
    (attempts : List Attempt) (t : ℕ)
    → (renew_all attempts (record { now = t; held = none })).held ≡ none
unfolding renew
held_none [] t = refl
held_none (a ∷ later) t = held_none later t

-- One renewal that fails leaves the device without an assertion for good.
pub failed_renewal_ends :
    (a : Attempt) (later : List Attempt) (p : PowerAssertion)
    → a.success ≡ false
    → (renew_all (a ∷ later) p).held ≡ none
unfolding renew
failed_renewal_ends a later p fails = elim (Option-cases p.held) [
  | inl e ↦ rw (e, fails) (held_none later p.now)
  | inr (since, e) ↦
      rw (e, fails) (held_none later (p.now + renewal_interval + a.until_taken + a.until_reply))
]
