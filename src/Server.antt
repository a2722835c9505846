-- ===== src/Server.antt =====
-- network/Server.cpp: a websocket session, its lock and its asynchronous operations as steps, and the
-- listener that accepts connections.
pub mod Lock
use avme_wallet.Base.{
  if◌then◌else◌, Str, codes, same, ℕ, suc, ◌≡◌, Bool, true, false, List, [], ◌∷◌, ◌++◌,
}

pub data Operation : Type 0 where
  write : Operation
  close : Operation

-- `locked` is m_lock, which do_write and close hold until the handler of the operation that they start
-- is called; `pending` are the operations that are started and whose handler was not called yet.
pub record Session : Type 0 where
  pub locked : Bool
  pub is_open : Bool
  pub is_running : Bool
  pub is_reading : Bool
  pub pending : List Operation
  -- messages that on_read has passed to handleServer
  pub passed : ℕ

-- do_write behind the acquisition of the lock.
abbrev pub do_write : Session → Session
do_write s = if s.is_open then record s { locked = true; pending = write ∷ s.pending } else s

-- close behind the acquisition of the lock.
abbrev pub close_session : Session → Session
close_session s =
    if s.is_open
    then record s { locked = true; is_running = false; pending = close ∷ s.pending }
    else record s { is_running = false }

-- The two handlers, behind the operation that has ended; `ec` is whether there was an error.
abbrev pub on_write : Bool → Session → Session
on_write ec s = record s { locked = false }

abbrev pub on_closed : Bool → Session → Session
on_closed true s = s
on_closed false s = record s { locked = false; is_open = false }

abbrev pub on_accept : Bool → Session → Session
on_accept true s = s
on_accept false s = record s { is_open = true; is_running = true; is_reading = true }

-- The error of a read: the stream is closed, the operation is cancelled, or another one.
pub data ReadError : Type 0 where
  no_error : ReadError
  closed_or_cancelled : ReadError
  other_error : ReadError

-- Behind another error than those two the handler goes on, and passes the buffer as a message.
abbrev pub on_read : ReadError → Session → Session
on_read no_error s = record s { passed = suc s.passed }
on_read closed_or_cancelled s = record s { is_reading = false }
on_read other_error s = record s { passed = suc s.passed }

-- The session as the listener makes it: the stream is open from the handshake on, and nothing sets
-- is_running before it: `garbage`.
abbrev pub new_session : Bool → Session
new_session garbage = record {
  locked = false;
  is_open = false;
  is_running = garbage;
  is_reading = false;
  pending = [];
  passed = 0;
}

pub data Step : Session → Session → Type 0 where
  accepted : (s : Session) (ec : Bool) → Step s (on_accept ec s)
  read : (s : Session) (ec : ReadError) → s.is_reading ≡ true → Step s (on_read ec s)
  -- a thread that waits for the lock gets it once it is free
  writing : (s : Session) → s.locked ≡ false → Step s (do_write s)
  closing : (s : Session) → s.locked ≡ false → Step s (close_session s)
  wrote :
      (s : Session) (ec : Bool) (front rest : List Operation)
      → s.pending ≡ front ++ write ∷ rest
      → Step s (on_write ec (record s { pending = front ++ rest }))
  closed :
      (s : Session) (ec : Bool) (front rest : List Operation)
      → s.pending ≡ front ++ close ∷ rest
      → Step s (on_closed ec (record s { pending = front ++ rest }))
  -- the other side goes away
  dropped : (s : Session) → Step s (record s { is_open = false })

pub data Reach (s : Session) : Session → Type 0 where
  here : Reach s s
  later : {t u : Session} → Reach s t → Step t u → Reach s u

-- Server::listener::on_accept: sessions by the address of their other side, the last one first. An
-- error ends the accepting.
pub record Listener : Type 0 where
  pub is_accepting : Bool
  pub sessions : List Str

unfoldable pub on_connection : Bool → Str → Listener → Listener
on_connection true remote l = record l { is_accepting = false }
on_connection false remote l =
    if same remote (codes "127.0.0.1") then record l { sessions = remote ∷ l.sessions } else l

-- Connections one after the other, while the listener accepts.
unfoldable pub accept_all : List (Bool × Str) → Listener → Listener
accept_all [] l = l
accept_all ((ec, remote) ∷ connections) l =
    let l' = if l.is_accepting then on_connection ec remote l else l in accept_all connections l'
