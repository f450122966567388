-- ===== src/Device/Table/Runs.antt =====
-- device/usb.rs: the table of connections over the life of a device.
use rusbmux.Base.{
  ℕ, ◌≡◌, refl, sym, ◌∙◌, inl, inr, Bool, Bool-cases, Option, none, some, List, [], arith, ◌==◌,
  if◌then◌else◌,
}
use mathlib.Core.Path.{subst}
use rusbmux.Base.Map.{get, insert, get-insert}
use rusbmux.Extern.{Extern}
use rusbmux.Channel.{Channel}
use rusbmux.Conn.{new_from, UsbDeviceConn, Progress, done, failed, pending}
use rusbmux.Device.{UsbDevice}
use rusbmux.DeviceMux.Packet.{UsbDevicePacket}
use rusbmux.Device.Table.{
  connect_syn, connect_answer, connect_from, cleanup_conn, close_all, shutdown, after_answer,
}
use rusbmux.Device.Table.Closing.{IsOwn, cleanup_conn_done}

-- Each connection stands under its source port.
abbrev pub IsTable : UsbDevice → Type 0
IsTable d = (port : ℕ) → IsOwn port (get port d.conns)

module _ (x : Extern) where
  -- What can happen to a device. The source port of a connection is a field that is never written.
  pub data Step (d : UsbDevice) : UsbDevice → Type 0 where
    connects : (destination : ℕ) → Step d (connect_syn x destination d).0
    is_answered : (destination port : ℕ) → Step d (connect_answer x destination port d).0
    connects_from :
        (destination port sent received window device_received : ℕ)
        → Step d (connect_from x destination port sent received window device_received d).0
    cleans_up : (port : ℕ) (e : UsbDevice) → cleanup_conn x port d ≡ done e → Step d e
    closes_all : (e : UsbDevice) → close_all x d ≡ done e → Step d e
    shuts_down : (gone : Bool) (e : UsbDevice) → shutdown x gone d ≡ done e → Step d e
    conn_changes :
        (port : ℕ) (b c : UsbDeviceConn)
        → get port d.conns ≡ some (some b)
        → c.source_port ≡ b.source_port
        → Step d (record d { conns = insert port (some c) d.conns })
    conn_is_freed : (port : ℕ) → Step d (record d { conns = insert port none d.conns })
    -- The loops of the device change its counters, its router and its channel.
    goes_on : (e : UsbDevice) → e.conns ≡ d.conns → Step d e

  pub data Reached : UsbDevice → Type 0 where
    start : (d : UsbDevice) → d.conns ≡ [] → Reached d
    next : (d e : UsbDevice) → Reached d → Step d e → Reached e

  insert-IsOwn :
      (k j : ℕ) (v : Option UsbDeviceConn) (m : List (ℕ × Option UsbDeviceConn))
      → IsOwn k (some v)
      → IsOwn j (get j m)
      → IsOwn j (get j (insert k v m))
  insert-IsOwn k j v m own h =
      subst (IsOwn j) (sym (get-insert k j v m)) (elim (Bool-cases (k == j)) [
        | inl e ↦ rw e (subst (λ i. IsOwn i (some v)) (ground (arith, e)) own)
        | inr e ↦ rw e h
      ])

  after_answer-IsTable :
      (d : UsbDevice) (port : ℕ)
      (p : Progress (UsbDeviceConn × Channel UsbDevicePacket × Channel UsbDevicePacket))
      → IsTable d
      → IsTable (after_answer x d port p).0
  after_answer-IsTable d port (done (c, rx, tx)) h j =
      insert-IsOwn c.source_port j (some c) d.conns refl (h j)
  after_answer-IsTable d port (failed e) h j = h j
  after_answer-IsTable d port pending h j = h j

  same-IsTable : (d e : UsbDevice) → e.conns ≡ d.conns → IsTable d → IsTable e
  same-IsTable d e same h port = subst (λ m. IsOwn port (get port m)) (sym same) (h port)

  empty-IsTable : (d : UsbDevice) → d.conns ≡ [] → IsTable d
  empty-IsTable d e port = rw e tt

  connect_syn-conns :
      (destination : ℕ) (d : UsbDevice) → (connect_syn x destination d).0.conns ≡ d.conns
  unfolding connect_syn
  connect_syn-conns destination d = ground arith

  cleaned-IsOwn :
      (port j : ℕ) (m : List (ℕ × Option UsbDeviceConn))
      → IsOwn j (get j m)
      → IsOwn j (if port == j then none else get j m)
  cleaned-IsOwn port j m h = elim (Bool-cases (port == j)) [ inl e ↦ rw e tt | inr e ↦ rw e h ]

  Step-IsTable : (d e : UsbDevice) → Step d e → IsTable d → IsTable e
  unfolding connect_answer connect_from close_all shutdown new_from
  Step-IsTable d _ (connects destination) h j =
      same-IsTable d (connect_syn x destination d).0 (connect_syn-conns destination d) h j
  Step-IsTable d _ (is_answered destination port) h j = after_answer-IsTable d port _ h j
  Step-IsTable d _ (connects_from destination port sent received window device_received) h j =
      insert-IsOwn port j _ d.conns refl (h j)
  Step-IsTable d e (cleans_up port _ runs) h j =
      subst (IsOwn j) (sym (cleanup_conn_done x d e port j (h port) runs).0)
        (cleaned-IsOwn port j d.conns (h j))
  Step-IsTable d e (closes_all _ runs) h j = empty-IsTable e (ground arith) j
  Step-IsTable d e (shuts_down gone _ runs) h j = empty-IsTable e (ground arith) j
  Step-IsTable d _ (conn_changes port b c found same) h j =
      insert-IsOwn port j (some c) d.conns (same ∙ subst (IsOwn port) found (h port)) (h j)
  Step-IsTable d _ (conn_is_freed port) h j = insert-IsOwn port j none d.conns tt (h j)
  Step-IsTable d e (goes_on _ same) h j = same-IsTable d e same h j

  Reached-IsTable : (d : UsbDevice) → Reached d → IsTable d
  Reached-IsTable d (start _ e) = empty-IsTable d e
  Reached-IsTable _ (next d e r s) = Step-IsTable d e s (Reached-IsTable d r)

  -- On a device in any state that it can come to from one without connections, a `cleanup_conn` that succeeds
  -- takes the port, and no other, out of the table and out of the router.
  pub Reached-cleanup_conn :
      (d e : UsbDevice) (port j : ℕ)
      → Reached d
      → cleanup_conn x port d ≡ done e
      → (get j e.conns ≡ (if port == j then none else get j d.conns))
        × (get j e.router.conns ≡ (if port == j then none else get j d.router.conns))
  Reached-cleanup_conn d e port j r runs =
      cleanup_conn_done x d e port j (Reached-IsTable d r port) runs
