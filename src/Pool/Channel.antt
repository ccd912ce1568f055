-- ===== src/Pool/Channel.antt =====
-- Buffered Go channels. A send on a full channel and a receive from an empty open one block; a send
-- on a closed channel panics.
use bridge_core.Prelude.{ℕ, ◌≤◌, Bool, true, false, List, [], ◌∷◌, ◌++◌, length, ltb, if◌then◌else◌}

pub record Chan {ℓ} (A : Type ℓ) : Type ℓ where
  pub cap : ℕ
  pub items : List A
  pub closed : Bool

pub data Sent {ℓ} (A : Type ℓ) : Type ℓ where
  sent : Chan A → Sent A
  full : Sent A
  send_on_closed : Sent A

pub data Received {ℓ} (A : Type ℓ) : Type ℓ where
  received : A → Chan A → Received A
  no_more : Received A
  nothing_yet : Received A

module _ {ℓ} {A : Type ℓ} where
  abbrev pub make_chan : ℕ → Chan A
  make_chan cap = record { cap = cap; items = []; closed = false }

  -- `ch <- a`
  abbrev pub send : A → Chan A → Sent A
  send a ch =
      if ch.closed
      then send_on_closed
      else (if ltb (length ch.items) ch.cap
          then sent (record ch { items = ch.items ++ a ∷ [] })
          else full)

  abbrev pub receive_from : List A → Chan A → Received A
  receive_from [] ch = if ch.closed then no_more else nothing_yet
  receive_from (a ∷ rest) ch = received a (record ch { items = rest })

  -- `a, more := <-ch`
  abbrev pub receive : Chan A → Received A
  receive ch = receive_from ch.items ch

  abbrev pub close : Chan A → Chan A
  close ch = record ch { closed = true }

-- Never more entries than the capacity.
pub record Fits {ℓ} {A : Type ℓ} (ch : Chan A) : Type 0 where
  pub within : length ch.items ≤ ch.cap
