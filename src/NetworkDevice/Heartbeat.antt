-- ===== src/NetworkDevice/Heartbeat.antt =====
-- device/network.rs: the heartbeat of a network device, which closes the device when it fails.
use rusbmux.Base.{
  ℕ, ◌≡◌, ◌+◌, refl, Bool, true, false, Option, none, some, List, [], ◌∷◌, All, if◌then◌else◌,
  Bool-cases, inl, inr,
}

-- A round: the answer of `get_marco`, an interval if there is one, and whether `send_polo` succeeds.
abbrev pub Beat : Type 0
Beat = Option ℕ × Bool

-- `none` is the end, with the device closed.
pub record Heartbeat : Type 0 where
  pub interval : ℕ
  pub failed : Bool

abbrev pub started : Heartbeat
started = record { interval = 15; failed = false }

-- What a failure comes to: the second one ends the loop.
abbrev pub fail : Heartbeat → Option Heartbeat
fail h = if h.failed then none else some (record h { failed = true })

abbrev pub marco : Option ℕ → Heartbeat → Option Heartbeat
marco (some i) h = some (record { interval = i + 5; failed = false })
marco none h = fail h

abbrev pub polo : Bool → Option Heartbeat → Option Heartbeat
polo sent none = none
polo true (some h) = some h
polo false (some h) = fail h

unfoldable pub beat : Beat → Heartbeat → Option Heartbeat
beat (answer, sent) h = polo sent (marco answer h)

abbrev pub beats_from : List Beat → Option Heartbeat → Option Heartbeat
beats_from [] o = o
beats_from (b ∷ bs) none = none
beats_from (b ∷ bs) (some h) = beats_from bs (beat b h)

abbrev pub Answered : Beat → Type 0
Answered (some i, sent) = Unit
Answered (none, sent) = ⊥

polo-none : (sent : Bool) → polo sent none ≡ none
polo-none true = refl
polo-none false = refl

-- A round without an answer and without a sent reply ends the loop, and so do two rounds on end without an answer.
pub beat_ends :
    (h : Heartbeat) (sent : Bool)
    → (beat (none, false) h ≡ none)
      × (beats_from ((none, true) ∷ (none, sent) ∷ []) (some h) ≡ none)
unfolding beat
beat_ends h sent = elim (Bool-cases h.failed) [
  | inl again ↦ rw again (refl, refl)
  | inr first ↦ rw first (refl, polo-none sent)
]

beat-Answered : (b : Beat) (h : Heartbeat) → Answered b → (g : Heartbeat) × (beat b h ≡ some g)
unfolding beat
beat-Answered (some i, true) h u = (record { interval = i + 5; failed = false }, refl)
beat-Answered (some i, false) h u = (record { interval = i + 5; failed = true }, refl)
beat-Answered (none, sent) h u = absurd u

-- A device that answers every round is never closed, whether or not the replies to it are sent.
pub beats_from-Answered :
    (bs : List Beat) (h : Heartbeat)
    → All Answered bs
    → (g : Heartbeat) × (beats_from bs (some h) ≡ some g)
beats_from-Answered [] h us = (h, refl)
beats_from-Answered (b ∷ bs) h (u, us) =
    let (g, e) = beat-Answered b h u in rw e (beats_from-Answered bs g us)
