-- ===== src/Router/Laws.antt =====
-- device/packet_router.rs: where a routed packet goes, and what the other operations leave in place.
use rusbmux.Base.{
  ℕ, ◌≡◌, ◌<◌, refl, true, false, Option, none, some, List, [], ◌∷◌, ◌++◌, arith, length, ◌==◌,
  if◌then◌else◌, not, Option-cases, inl, inr, ◌↔◌, ◌≤◌, ap, ◌∙◌,
}
use rusbmux.Base.Map.{
  get, IsMap, get-insert, get-remove, kept, get-retain, insert-IsMap, remove-IsMap, retain-IsMap,
}
use rusbmux.Channel.{Channel, bounded, capacity}
use rusbmux.DeviceMux.Packet.{UsbDevicePacket}
use rusbmux.Router.{
  PacketRouter, new, delivered, no_connection, waiting, blocked, cleanup_dead, register, clear,
  unregister, port_of, route,
}

-- The packets that wait for the connection at a port.
abbrev pub queue_of : Option (Channel UsbDevicePacket) → List UsbDevicePacket
queue_of none = []
queue_of (some c) = c.queue

abbrev pub pending : ℕ → PacketRouter → List UsbDevicePacket
pending port r = queue_of (get port r.conns)

-- Delivery appends the packet to the queue of its port, and to that one alone.
pub route_delivers :
    (packet : UsbDevicePacket) (r s : PacketRouter) (port : ℕ)
    → route packet r ≡ delivered s
    → pending port s
      ≡ (if port_of packet.tcp_hdr == port then pending port r ++ packet ∷ [] else pending port r)
unfolding route
route_delivers packet r s port e = elim (Option-cases (get (port_of packet.tcp_hdr) r.conns)) [
  | inl missing ↦ absurd (ground arith)
  | inr (c, found) ↦ ground (
    arith,
    found,
    get-insert (port_of packet.tcp_hdr) port (record c { queue = c.queue ++ packet ∷ [] }) r.conns,
  )
]

-- A port number of 0 is never registered, and no port has two entries.
pub record IsRouter (r : PacketRouter) : Type 0 where
  pub no_zero : get 0 r.conns ≡ none
  pub is_map : IsMap r.conns

pub register-IsRouter :
    (port : ℕ) (r : PacketRouter) → 0 < port → IsRouter r → IsRouter (register port r)
unfolding register
register-IsRouter port r h v = record {
  no_zero = ground (arith, get-insert port 0 bounded r.conns, v.no_zero);
  is_map = insert-IsMap port bounded r.conns v.is_map;
}

pub unregister-IsRouter : (port : ℕ) (r : PacketRouter) → IsRouter r → IsRouter (unregister port r)
unfolding unregister
unregister-IsRouter port r v = record {
  no_zero = ground (arith, get-remove port 0 r.conns, v.no_zero);
  is_map = remove-IsMap port r.conns v.is_map;
}

pub clear-IsRouter : (r : PacketRouter) → IsRouter (clear r)
unfolding clear
clear-IsRouter r = record { no_zero = refl; is_map = tt }

pub cleanup_dead-IsRouter : (r : PacketRouter) → IsRouter r → IsRouter (cleanup_dead r)
unfolding cleanup_dead
cleanup_dead-IsRouter r v = record {
  no_zero =
      get-retain (λ port conn. not conn.disconnected) 0 r.conns v.is_map
      ∙ ap (kept (λ _ conn. not conn.disconnected) 0) v.no_zero;
  is_map = retain-IsMap _ r.conns v.is_map;
}

route-IsRouter :
    (packet : UsbDevicePacket) (r s : PacketRouter)
    → IsRouter r
    → route packet r ≡ delivered s
    → IsRouter s
unfolding route
route-IsRouter packet r s v e = elim (Option-cases (get (port_of packet.tcp_hdr) r.conns)) [
  | inl missing ↦ absurd (ground arith)
  | inr (c, found) ↦
      let c' = record c { queue = c.queue ++ packet ∷ [] } in
      let port = port_of packet.tcp_hdr in
      ground (
        arith,
        found,
        v.no_zero,
        v.is_map,
        get-insert port 0 c' r.conns,
        insert-IsMap port c' r.conns v.is_map,
      )
]

-- On a router with no two entries for a port and none for port 0, `cleanup_dead` drops the connections
-- that nobody receives from, and no others.
pub cleanup_dead_lem :
    (r : PacketRouter) (port : ℕ)
    → IsRouter r
    → get port (cleanup_dead r).conns
      ≡ kept (λ _ conn. not conn.disconnected) port (get port r.conns)
unfolding cleanup_dead
cleanup_dead_lem r port v = get-retain (λ _ conn. not conn.disconnected) port r.conns v.is_map

-- One call on the router. Devices register the ports that `get_next_source_port` gives, never 0.
pub data Step (r s : PacketRouter) : Type 0 where
  registers : (port : ℕ) → 0 < port → s ≡ register port r → Step r s
  unregisters : (port : ℕ) → s ≡ unregister port r → Step r s
  clears : s ≡ clear r → Step r s
  cleans_up : s ≡ cleanup_dead r → Step r s
  routes : (packet : UsbDevicePacket) → route packet r ≡ delivered s → Step r s

pub data Reach (r : PacketRouter) : PacketRouter → Type 0 where
  here : Reach r r
  next : {s t : PacketRouter} → Reach r s → Step s t → Reach r t

Step-IsRouter : {r s : PacketRouter} → Step r s → IsRouter r → IsRouter s
Step-IsRouter {r} (registers port h e) v = rw e (register-IsRouter port r h v)
Step-IsRouter {r} (unregisters port e) v = rw e (unregister-IsRouter port r v)
Step-IsRouter {r} (clears e) v = rw e (clear-IsRouter r)
Step-IsRouter {r} (cleans_up e) v = rw e (cleanup_dead-IsRouter r v)
Step-IsRouter {r} {s} (routes packet e) v = route-IsRouter packet r s v e

-- After any calls on a new router, no port has two entries and port 0 has none.
pub Reach-IsRouter : {s : PacketRouter} → Reach new s → IsRouter s
Reach-IsRouter here = record { no_zero = refl; is_map = tt }
Reach-IsRouter (next r st) = Step-IsRouter st (Reach-IsRouter r)

-- A packet with no TCP header goes to port 0, which no connection has after any calls on a new
-- router: nobody receives it.
pub route_without_tcp :
    (packet : UsbDevicePacket) (r : PacketRouter)
    → Reach new r
    → packet.tcp_hdr ≡ none
    → route packet r ≡ no_connection
unfolding route
route_without_tcp packet r reach e = ground (arith, (Reach-IsRouter reach).no_zero)

-- What `route` does, on every branch.
pub route_cases :
    (packet : UsbDevicePacket) (r : PacketRouter) (c : Channel UsbDevicePacket)
    → get (port_of packet.tcp_hdr) r.conns ≡ some c
    → ((c.disconnected ≡ true) ↔ (route packet r ≡ blocked))
      × (((c.disconnected ≡ false) × (capacity ≤ length c.queue)) ↔ (route packet r ≡ waiting))
unfolding route
route_cases packet r c e =
    ((λ d. ground arith, λ d. ground arith), (λ d. ground arith, λ d. ground arith))
