-- ===== src/Vsock/Listeners.antt =====
-- NewServer, Serve and Close of internal/vsockd/server.go. A listener is of a type `L` and a
-- connection of a type `C`; each connection is handled by a goroutine of its own, see Connection.
use a_from_scratch_linux_use.Base.{
  refl, ◌≡◌, ◌==◌, ◌++◌, false, ◌∷◌, some, true, none, if◌then◌else◌, [], ℕ, Bool, Option, List,
}

pub record RpcServer (P L : Type 0) : Type 0 where
  pub provider : Option P
  pub listeners : List L
  pub closed : Bool

-- What Accept gives: connections, and then an error; `closed` is what the server says of itself
-- when Serve looks behind that error.
pub data Accepts (C : Type 0) : Type 0 where
  accept_fails : Bool → Accepts C
  accepted : C → Accepts C → Accepts C

pub data ServeError : Type 0 where
  server_is_closed accept_error : ServeError

-- The connections that goroutines were started for, and the error.
pub record Served (C : Type 0) : Type 0 where
  pub handled : List C
  pub error : Option ServeError

-- NewServer
unfoldable pub new_server : {P L : Type 0} → Option P → RpcServer P L
new_server p = record { provider = p; listeners = []; closed = false }

-- The loop of Serve.
unfoldable pub accept_loop : {C : Type 0} → Accepts C → Served C
accept_loop (accept_fails true) = record { handled = []; error = none }
accept_loop (accept_fails false) = record { handled = []; error = some accept_error }
accept_loop (accepted c rest) =
    let further = accept_loop rest in record further { handled = c ∷ further.handled }

-- Serve: the server once the listener is in its list, and what becomes of the loop.
unfoldable pub serve : {P L C : Type 0} → RpcServer P L → L → Accepts C → RpcServer P L × Served C
serve s l accepts =
    if s.closed
    then (s, record { handled = []; error = some server_is_closed })
    else (record s { listeners = s.listeners ++ (l ∷ []) }, accept_loop accepts)

abbrev first_error : {E : Type 0} → Option E → Option E → Option E
first_error none later = later
first_error (some e) later = some e

-- Every listener is closed, whatever the others gave; the first error counts.
unfoldable pub close_listeners :
    {W L E : Type 0} → (L → W → W × Option E) → List L → W → W × Option E
close_listeners close [] w = (w, none)
close_listeners close (l ∷ ls) w =
    let (w1, e) = close l w in
    let (w2, later) = close_listeners close ls w1 in (w2, first_error e later)

-- Server.Close
unfoldable pub close_server :
    {W P L E : Type 0} → (L → W → W × Option E) → RpcServer P L → W → W × RpcServer P L × Option E
close_server close s w =
    let (w1, e) = close_listeners close s.listeners w in (w1, record s { closed = true }, e)

abbrev open_server : RpcServer ℕ ℕ
open_server = record { provider = some 1; listeners = 5 ∷ 6 ∷ []; closed = false }

-- Both listeners are closed, the first one with an error; what comes later is refused.
closed_refuses :
    let r = close_server (λ l w. (l ∷ w, if l == 5 then some l else none)) open_server [] in
    (r.0 ≡ 6 ∷ 5 ∷ [])
    × (r.2 ≡ some 5)
    × ((serve {C = ℕ} r.1 7 (accepted 1 (accept_fails false))).1.error ≡ some server_is_closed)
unfolding close_server close_listeners serve
closed_refuses = (refl, refl, refl)
