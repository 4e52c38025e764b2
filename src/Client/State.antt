-- ===== src/Client/State.antt =====
-- The fields of a client object, and how tasks of the world run within its methods.
use lp_clients.Base.{ℕ, Option, Result, Task}
use lp_clients.Platform.Timers.{Timers}
use lp_clients.Csds.Resolver.{CsdsResponse}
use lp_clients.Client.Services.{UserSession}
use lp_clients.Client.Machine.{ClientState}

pub record Client (W : Type 0) : Type 0 where
  pub state : ClientState
  pub csds_domains : Option CsdsResponse
  pub refresh_task : Option ℕ
  pub le_session : Option UserSession
  pub timers : Timers
  pub world : W

abbrev pub with_world : {W A : Type 0} → Client W → Result A × W → Result A × Client W
with_world c (r, w) = (r, record c { world = w })

-- A task of the world, awaited in a method of the client.
abbrev pub call : {W A : Type 0} → Task W A → Task (Client W) A
call m c = with_world c (m c.world)

abbrev pub state_of : {W : Type 0} → Client W → ClientState
state_of c = c.state

abbrev pub enter : {W : Type 0} → ClientState → Client W → Client W
enter s c = record c { state = s }
