-- ===== src/Module/Connection.antt =====
-- include/mifsa/module/interface.hpp: the wait for a connection, and what is called when it changes.
use mifsa_base.Base.{ℕ, Bool, true, false, List, [], ◌∷◌, Option, none, some, if◌then◌else◌}
use mifsa_base.Base.Int.{ℤ}
use mifsa_base.Semaphore.{Semaphore, Entry, make_semaphore, acquire, reset}

-- `InterfaceBase`; a callback is a number.
pub record Interface : Type 0 where
  pub cb_detect_connected : Option ℕ
  pub has_detect_connect : Bool
  pub sema : Semaphore

unfoldable pub make_interface : Interface
unfolding make_semaphore
make_interface = record {
  cb_detect_connected = none;
  has_detect_connect = false;
  sema = make_semaphore 0;
}

unfoldable pub detect_connect : Option ℕ → Interface → Interface
detect_connect cb i = record i { cb_detect_connected = cb; has_detect_connect = true }

abbrev pub detected : Bool → Option ℕ → Bool → List (ℕ × Bool)
detected true (some cb) connected = (cb, connected) ∷ []
detected _ _ connected = []

-- `_cbConnected`: what it calls, and the interface after it.
unfoldable pub cb_connected : Bool → Interface → List (ℕ × Bool) × Interface
unfolding reset
cb_connected connected i = (
  detected i.has_detect_connect i.cb_detect_connected connected,
  if connected then record i { sema = (reset 0 i.sema).1 } else i,
)

-- `waitForConnected`: its answer where it is connected, or what `acquire` does.
pub data Waiting : Type 0 where
  answers : Bool → Waiting
  acquires : Entry → Waiting

unfoldable pub wait_for_connected : Bool → ℤ → Interface → Waiting × Interface
unfolding acquire
wait_for_connected connected timeout_ms i =
    if connected
    then (answers true, i)
    else let r = acquire timeout_ms i.sema in (acquires r.0, record i { sema = r.1 })
