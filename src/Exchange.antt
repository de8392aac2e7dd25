-- ===== src/Exchange.antt =====
-- The client of src/client.c and the connector of src/connector.c on one connection. What the client
-- sends reaches the connector line by line, as `dbrelay_socket_recv_string` delivers it, and what the
-- connector sends waits to be read.
pub mod Lines
pub mod Queries
pub mod RoundTrip
pub mod Answers
pub mod Pieces
pub mod Statements
pub mod Requests
pub mod Options
use ngx_dbrelay.Base.{
  ℕ, zero, suc, ◌-◌, Bool, true, false, List, [], ◌∷◌, ◌++◌, Option, none, some, Bytes, length,
}
use ngx_dbrelay.Base.Int.{ℤ, pos}
use ngx_dbrelay.Socket.{Inbox, dbrelay_socket_bufsize}
use ngx_dbrelay.Socket.Lines.{next_line}
use ngx_dbrelay.Connector.{Session}
use ngx_dbrelay.Connector.Serving.{
  Action, dbrelay_socket_send_string, set_timer, close, exit, Database, Turn, reads_on, waits,
  ended, serve_line,
}
use ngx_dbrelay.Client.{Channel}

-- The connector's session, what it has not yet read, what the client has not yet read, and whether
-- the connector still reads.
pub record Link (D : Type 0) : Type 0 where
  pub session : Session D
  pub unserved : Bytes
  pub unread : Bytes
  pub serving : Bool

-- The bytes that are sent.
abbrev pub sent_bytes : List Action → Bytes
sent_bytes [] = []
sent_bytes (dbrelay_socket_send_string str ∷ rest) = str ++ sent_bytes rest
sent_bytes (set_timer secs ∷ rest) = sent_bytes rest
sent_bytes (close ∷ rest) = sent_bytes rest
sent_bytes (exit ∷ rest) = sent_bytes rest

abbrev pub next_of : Bytes → Option (Bytes × Bytes)
next_of s = next_line (dbrelay_socket_bufsize - 1) s

module _ {D : Type 0} (database : Database D) (fuel pid : ℕ) where
  -- The link behind a turn of the connector, with `rest` to be served.
  unfoldable pub after_turn : Link D → Bytes → Option (Turn D) → Link D
  after_turn link rest none = record link { serving = false }
  after_turn link rest (some turn) = record {
    session = turn.session;
    unserved = rest;
    unread = link.unread ++ sent_bytes turn.actions;
    serving = elim turn.next [ reads_on ↦ true | waits ↦ false | ended ↦ false ];
  }

  -- The connector serves what it has, at most as many lines as `left`.
  unfoldable pub serve_all : ℕ → Link D → Link D
  serve_all zero link = link
  serve_all (suc left) link = elim link.serving [
    | false ↦ link
    | true ↦ elim (next_of link.unserved) [
      | none ↦ link
      | some (line, rest) ↦
          serve_all left (after_turn link rest (serve_line database fuel pid link.session line))
    ]
  ]

  unfoldable pub link_send : Link D → Bytes → Bool × Link D
  link_send link str =
      let bytes = link.unserved ++ str in
      (true, serve_all (length bytes) (record link { unserved = bytes }))

  unfoldable pub link_recv : Link D → Inbox → (ℤ × Bytes) × (Inbox × Link D)
  link_recv link inbox = elim (next_of link.unread) [
    | none ↦ ((pos 0, []), (inbox, link))
    | some (line, rest) ↦ ((pos 1, line), (inbox, record link { unread = rest }))
  ]

  abbrev pub connector_channel : Channel (Link D)
  connector_channel = record { send_string = link_send; recv_string = link_recv }
