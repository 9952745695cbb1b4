-- ===== src/Module/Client.antt =====
-- include/mifsa/module/client.hpp and server.hpp: the loops of the programs, over the semaphore and the queue.
use mifsa_base.Base.{arith, ℕ, Bool, Option, none, some, Bytes, codes, ◌++◌, ◌≡◌, refl, if_elim}
use mifsa_base.Base.Int.{ℤ, pos, negsuc}
use mifsa_base.Semaphore.{
  Semaphore, Entry, waits, make_semaphore, acquire, acquire_nano, reset, negative,
}
use mifsa_base.Queue.{Queue, make_queue, async_run, quit}

-- `ClientProxy`: the address of its interface, its semaphore and its exit code.
pub record Client : Type 0 where
  pub interface : Option ℕ
  pub module_name : Bytes
  pub semaphore : Semaphore
  pub exit_code : ℤ

-- The constructor, and the type name that it hands to `Application`.
unfoldable pub make_client : Bytes → Client × Bytes
unfolding make_semaphore
make_client module_name = (
  record {
    interface = none;
    module_name = module_name;
    semaphore = make_semaphore 0;
    exit_code = pos 0;
  },
  codes "mifsa_" ++ module_name ++ codes "_client",
)

-- `exec` where `parserFlag` returns, up to its wait or its return.
unfoldable pub exec : Client → Entry × Client
unfolding acquire
exec c = let r = acquire (negsuc 0) c.semaphore in (r.0, record c { semaphore = r.1 })

-- `exit`, and whether a thread was waiting.
unfoldable pub exit : ℤ → Client → Bool × Client
unfolding reset
exit exit_code c =
    let r = reset 0 c.semaphore in (r.0, record c { exit_code = exit_code; semaphore = r.1 })

-- `loadInterface` of a new object, and `destroyInterface`.
unfoldable pub load_interface : ℕ → Client → Client
load_interface new c = record c { interface = some new }

unfoldable pub destroy_interface : Client → Client
destroy_interface c = record c { interface = none }

-- `ServerProxy`, without systemd: the address of its provider, and the queue that it is.
pub record Server : Type 0 where
  pub provider : Option ℕ
  pub module_name : Bytes
  pub queue : Queue

unfoldable pub make_server : Bytes → Server × Bytes
unfolding make_queue
make_server module_name = (
  record { provider = none; module_name = module_name; queue = make_queue (pos 0) },
  codes "mifsa_" ++ module_name ++ codes "_server",
)

-- `asyncExec`, where `parserFlag` returns.
unfoldable pub async_exec : Server → Server
unfolding async_run
async_exec s = record s { queue = async_run s.queue }

unfoldable pub load_provider : ℕ → Server → Server
load_provider new s = record s { provider = some new }

unfoldable pub destroy_provider : Server → Server
destroy_provider s = record s { provider = none }

unfoldable pub exit_server : ℤ → Server → Server
unfolding destroy_provider quit
exit_server exit_code s =
    let gone = destroy_provider s in record gone { queue = quit exit_code gone.queue }

reset-count : (n : ℕ) (s : Semaphore) → (reset n s).1.count ≡ pos n
unfolding reset
reset-count n s =
    if_elim (λ (r : Bool × Semaphore). r.1.count ≡ pos n) (negative s.count) (λ _. refl) (λ _. refl)

acquire_nano_empty :
    (k : ℕ) (s : Semaphore) → s.count ≡ pos 0 → (acquire_nano (negsuc k) s).0 ≡ waits
unfolding acquire_nano
acquire_nano_empty k s e = ground arith

-- An `exit` that comes before `exec` is forgotten: whatever the client did before, `exec` then waits, for
-- the next `exit`.
pub exec-exit : (exit_code : ℤ) (c : Client) → (exec (exit exit_code c).1).0 ≡ waits
unfolding exec exit acquire
exec-exit exit_code c =
    acquire_nano_empty 999999 (reset 0 c.semaphore).1 (reset-count 0 c.semaphore)
