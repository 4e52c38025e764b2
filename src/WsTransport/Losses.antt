-- ===== src/WsTransport/Losses.antt =====
-- transport-ws/src/transport.ts: the messages of a transport over histories in which it may be
-- disconnected.
pub mod Sublists
use lp_clients.Base.{ℕ, ◌≡◌, Option, some, List, ◌∷◌}
use lp_clients.WsTransport.Losses.Sublists.{kept}
use lp_clients.WsTransport.State.{AsyncQueue}
use lp_clients.WsTransport.Handlers.{Ws}
use lp_clients.WsTransport.Delivery.{Worker, all_messages}

module _ {SendType : Type 0} (lib : AsyncQueue SendType)
    (next : lib.Queue → Option ((SendType × Option ℕ) × lib.Queue))
    (next-waiting : (q q' : lib.Queue) (x : SendType × Option ℕ)
      → next q ≡ some (x, q')
      → lib.waiting q ≡ x ∷ lib.waiting q') where
  open lib use {Queue, waiting}

  abbrev with_worker : Worker SendType → Ws lib → List SendType
  with_worker worker w = all_messages lib (record { transport = w; worker = worker })
