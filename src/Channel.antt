-- ===== src/Channel.antt =====
-- The bounded channels of the crate crossfire that carry packets: a queue of at most 256, which one
-- side may have left.
use rusbmux.Base.{ℕ, Bool, false, List, [], ◌∷◌, ◌++◌, length, ltb, if◌then◌else◌}

abbrev pub capacity : ℕ
capacity = 256

pub record Channel (A : Type 0) : Type 0 where
  pub queue : List A
  -- No receiver is left, so that a send fails; or no sender, so that a receive of nothing fails.
  pub disconnected : Bool

abbrev pub bounded : {A : Type 0} → Channel A
bounded = record { queue = []; disconnected = false }

-- What a send comes to: sent, refused for want of a receiver, or waiting for room.
pub data Sent (A : Type 0) : Type 0 where
  sent : Channel A → Sent A
  refused full : Sent A

abbrev pub send : {A : Type 0} → A → Channel A → Sent A
send a c =
    if c.disconnected
    then refused
    else if ltb (length c.queue) capacity
    then sent (record c { queue = c.queue ++ a ∷ [] })
    else full
