-- ===== src/World.antt =====
-- The objects of the program as one state: the kernel and the script engine (include/kernel.hpp,
-- include/script_engine.hpp), the feeders and connections on the heap, named by address, and the
-- handlers that the io_service has still to run.
pub mod Monad
pub mod Mutex
pub mod Frame
pub mod Twins
pub mod Tidy
use grind.Prelude.{
  ℕ, zero, suc, ℤ, ◌+◌, Bool, true, false, Option, none, some, List, [], ◌∷◌, Bytes, lit, replicate,
  ◌==◌, if◌then◌else◌,
}
use grind.Lua.{Lua}

-- `kernel_cfg_t`.
pub record Cfg : Type 0 where
  pub feeder_interface : Bytes
  pub watcher_interface : Bytes
  pub watcher_port : Bytes
  pub log_level : ℕ

-- The enumeration in class `connection`.
pub data ConnectionType : Type 0 where
  feeder_connection watcher_connection : ConnectionType

-- What `close_handler_` is bound to.
pub data CloseHandler : Type 0 where
  kernel_close : CloseHandler
  feeder_close : ℕ → CloseHandler

pub record Connection : Type 0 where
  pub type : ConnectionType
  pub close_handler : Option CloseHandler
  pub remote_host : Bytes
  pub remote_port : ℕ
  pub whois : Bytes
  pub feeder : Option ℕ
  -- `data_`, of `BUFSZ` bytes, and the byte of the object that follows it.
  pub buffer : Bytes
  pub behind : ℕ
  -- Whether the socket has been shut down.
  pub is_shut : Bool

pub record Feeder : Type 0 where
  pub label : Bytes
  pub port : ℤ
  pub conn : Option ℕ
  pub connections : List ℕ
  pub conn_locked : Bool
  pub acceptor_open : Bool

-- `CATCH_AND_DIE` and `CATCH_AND_THROW`.
pub data ErrorHandling : Type 0 where
  catch_and_die catch_and_throw : ErrorHandling

pub record Kernel : Type 0 where
  pub cfg : Cfg
  pub threshold : ℕ
  pub running : Bool
  pub init : Bool
  pub feeders : List (Bytes × ℕ)
  pub connections : List ℕ
  pub new_watcher : Option ℕ
  pub conn_locked : Bool
  pub feeder_locked : Bool

pub record Heap : Type 0 where
  pub feeder_at : ℕ → Option Feeder
  pub next_feeder : ℕ
  pub connection_at : ℕ → Option Connection
  pub next_connection : ℕ

-- The objects that scripts have made with `string` and `kernel_cfg_t`.
pub record Boxes : Type 0 where
  pub string_at : ℕ → Option Bytes
  pub cfg_at : ℕ → Option Cfg
  pub next_box : ℕ

-- A handler that waits in the io_service: for an accept, for data, or posted to a strand.
pub data Pending : Type 0 where
  watcher_accept : Pending
  feeder_accept : ℕ → Pending
  reading : ℕ → Pending
  closing : ℕ → Pending
  dropping : Bytes → Pending
  sending : ℕ → Bytes → Pending

pub record Io : Type 0 where
  pub pending : List Pending
  pub stopped : Bool
  pub now : ℕ

-- `BUFSZ`.
abbrev pub bufsz : ℕ
bufsz = 1024

-- A cleared buffer.
unfoldable pub blank : Bytes
blank = replicate bufsz 0

abbrev pub update {ℓ} : {A : Type ℓ} → (ℕ → Option A) → ℕ → Option A → ℕ → Option A
update f p v q = if p == q then v else f q

module _ ⦃lua : Lua⦄ where
  pub record Engine : Type 0 where
    pub lua_state : Option lua.State
    pub stopping : Bool
    pub running : Bool
    pub cfg_path : Bytes
    pub error_handling : ErrorHandling
    pub locked : Bool

  pub record World : Type 0 where
    pub kernel : Kernel
    pub engine : Engine
    pub heap : Heap
    pub boxes : Boxes
    pub io : Io
