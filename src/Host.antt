-- ===== src/Host.antt =====
-- The file system and the sockets (Boost.Filesystem and Boost.Asio), as a parameter. The argument
-- `now` counts the system calls made so far, so that an answer may change between two calls.
use grind.Prelude.{ℕ, Bool, Option, Bytes}

pub record Host : Type 0 where
  pub exists : (now : ℕ) → Bytes → Bool
  pub is_directory : (now : ℕ) → Bytes → Bool
  -- `directory / file`.
  pub slash : Bytes → Bytes → Bytes
  -- Resolve, open, set the option, bind and listen: what the exception says, if there is one.
  pub listen : (now : ℕ) (address port : Bytes) → Option Bytes
  -- `set_option` and `io_control` of the socket of a connection.
  pub configure : (now : ℕ) (conn : ℕ) → Option Bytes
  -- `remote_endpoint()`: none if it throws.
  pub remote_endpoint : (now : ℕ) (conn : ℕ) → Option (Bytes × ℕ)
  -- `socket_.cancel()`.
  pub cancel : (now : ℕ) (conn : ℕ) → Option Bytes
  -- `boost::asio::write` of a message: whether it set the error code.
  pub write_fails : (now : ℕ) (conn : ℕ) (message : Bytes) → Bool
