-- ===== src/Connections/Buffer.antt =====
-- What `connection::on_read` in src/connection.cpp makes of the buffer that `connection::read` has
-- cleared.
use grind.Prelude.{
  ℕ, zero, suc, ◌+◌, ◌≤◌, ◌≡◌, refl, ap, sym, ◌∙◌, some, arith, Bytes, [], ◌∷◌, ◌++◌, c_str, length,
  length-append, length-replicate, drop, replicate,
}
use grind.Lua.{Lua}
use grind.Host.{Host}
use grind.World.{
  Connection, watcher_connection, feeder_connection, bufsz, blank, reading, update, World,
}
use grind.World.Monad.{M, Outcome, ok, throws, dies, carry, connection, set_connection, ◌>>◌}
use grind.Engine
use grind.Connections.{fill, text_of, read, on_read}

c_str-append_nul : (r t s : Bytes) → t ++ 0 ∷ [] ≡ 0 ∷ s → c_str ((r ++ t) ++ 0 ∷ []) ≡ c_str r
unfolding c_str
c_str-append_nul [] t s q = rw q refl
c_str-append_nul (c ∷ r) t s q = ground (arith, c_str-append_nul r t s q)

-- Behind any part of a cleared buffer stands a NUL.
drop-replicate_nul : (n m : ℕ) → (s : Bytes) × (drop n (replicate m 0) ++ 0 ∷ [] ≡ 0 ∷ s)
drop-replicate_nul zero zero = ([], refl)
drop-replicate_nul zero (suc m) = (replicate m 0 ++ 0 ∷ [], refl)
drop-replicate_nul (suc n) zero = ([], refl)
drop-replicate_nul (suc n) (suc m) = drop-replicate_nul n m

length-drop-replicate : (n m : ℕ) → n ≤ m → n + length (drop n (replicate {A = ℕ} m 0)) ≡ m
length-drop-replicate zero m h = omega (arith, length-replicate {A = ℕ} m 0)
length-drop-replicate (suc n) zero h = absurd (omega arith)
length-drop-replicate (suc n) (suc m) h = omega (arith, length-drop-replicate n m (omega arith))

-- What is written at the start of a cleared buffer.
length_filled :
    (r b : Bytes) (m : ℕ) → b ≡ replicate m 0 → length r ≤ m → length (r ++ drop (length r) b) ≡ m
length_filled r b m e h = rw e (
    omega (
      arith,
      length-append r (drop (length r) (replicate m 0)),
      length-drop-replicate (length r) m h,
    ))

c_str_filled :
    (r b : Bytes) (m : ℕ) → b ≡ replicate m 0 → c_str ((r ++ drop (length r) b) ++ 0 ∷ []) ≡ c_str r
c_str_filled r b m e =
    let (s, q) = drop-replicate_nul (length r) m in
    rw e (c_str-append_nul r (drop (length r) (replicate m 0)) s q)

module _ ⦃lua : Lua⦄ where
  -- What `read` leaves of a connection `x`.
  ready : ℕ → Connection → World → World
  ready c x w = record w {
    heap = record (w.heap) {
      connection_at = update (w.heap.connection_at) c (some (record x { buffer = blank }));
    };
    io = record (w.io) { pending = w.io.pending ++ reading c ∷ [] };
  }

  read_lem :
      (c : ℕ) (x : Connection) (w : World)
      → w.heap.connection_at c ≡ some x
      → read c w ≡ ok tt (ready c x w)
  unfolding read ready
  read_lem c x w h = ground (arith, h)

  at_ready :
      (c : ℕ) (x : Connection) (w : World)
      → (ready c x w).heap.connection_at c ≡ some (record x { buffer = blank })
  unfolding ready
  at_ready c x w = ground arith

  connection_lem :
      (c : ℕ) (x : Connection) (w : World)
      → w.heap.connection_at c ≡ some x
      → connection c w ≡ ok x w
  connection_lem c x w h = ground (arith, h)

  world_of : Outcome (Unit {0}) → World → World
  world_of (ok _ u) w = u
  world_of (throws what u) w = w
  world_of (dies f) w = w

  module _ ⦃host : Host⦄ (kernel_stop : M (Unit {0})) where
    -- The text goes to the Lua handler for commands or for messages, and the next read begins.
    abbrev pub delivered : ℕ → Connection → Bytes → M (Unit {0})
    delivered c x text = do
      elim x.type [
        | watcher_connection ↦ Engine.handle_cmd kernel_stop text c
        | feeder_connection ↦ Engine.relay kernel_stop text x.feeder
      ]
      read c

    -- The state in which a buffer has been written.
    abbrev pub filled : ℕ → Connection → (buffer : Bytes) → World → World
    filled c x buffer w = record w {
      heap = record (w.heap) {
        connection_at =
            update (w.heap.connection_at) c (some (record x { buffer = buffer; behind = 0 }));
      };
    }

    on_read_lem :
        (c : ℕ) (x : Connection) (received : Bytes) (v : World)
        → v.heap.connection_at c ≡ some x
        → on_read kernel_stop (some received) c v ≡ (
            let buffer = fill kernel_stop received x.buffer in
            delivered c x
              (text_of kernel_stop (record x { buffer = buffer; behind = 0 }))
              (filled c x buffer v))
    unfolding on_read
    on_read_lem c x received v h =
        carry
          (λ (y : Outcome (Unit {0})). y ≡ (
            let buffer = fill kernel_stop received x.buffer in
            delivered c x (text_of kernel_stop (record x { buffer = buffer; behind = 0 }))
              (filled c x buffer v)))
          {x = connection c v}
          (λ (y : Connection). do
            let z : Connection = record y {
              buffer = fill kernel_stop received y.buffer;
              behind = 0;
            }
            set_connection c z
            delivered c z (text_of kernel_stop z))
          {a = x} {v = v} (connection_lem c x v h) refl

    text_of-fill :
        (x : Connection) (received : Bytes)
        → (text_of kernel_stop (record x { buffer = fill kernel_stop received blank; behind = 0 })
            ≡ c_str received)
    unfolding fill text_of blank
    text_of-fill x received = c_str_filled received blank bufsz refl

    length-fill :
        (received : Bytes)
        → length received ≤ bufsz
        → length (fill kernel_stop received blank) ≡ bufsz
    unfolding fill blank
    length-fill received h = length_filled received blank bufsz refl h

    -- When a connection has started to read in a state `w`, and until at most BUFSZ bytes arrive, in
    -- a state `v`, nothing else changes it, then `on_read` hands to Lua what arrived, up to its first
    -- NUL, whatever an earlier message has left in the buffer and behind it; the buffer keeps its
    -- size, and the next read begins.
    pub on_read-read :
        (c : ℕ) (x : Connection) (received : Bytes) (w u v : World)
        → w.heap.connection_at c ≡ some x
        → read c w ≡ ok tt u
        → v.heap.connection_at c ≡ u.heap.connection_at c
        → length received ≤ bufsz
        → (buffer : Bytes) × (length buffer ≡ bufsz)
          × (on_read kernel_stop (some received) c v
              ≡ delivered c (record x { buffer = blank }) (c_str received) (filled c x buffer v))
    unfolding world_of ready
    on_read-read c x received w u v h started kept short =
        let same : u ≡ ready c x w = ap (λ y. world_of y w) (sym started ∙ read_lem c x w h) in
        let y : Connection = record x { buffer = blank } in
        let found : v.heap.connection_at c ≡ some y =
          kept ∙ ap (λ (z : World). z.heap.connection_at c) same ∙ at_ready c x w in
        (
          fill kernel_stop received blank,
          length-fill received short,
          on_read_lem c y received v found
              ∙ ap (λ text. delivered c y text (filled c y (fill kernel_stop received blank) v))
                  (text_of-fill y received),
        )
