-- ===== src/Exchange/Lines.antt =====
-- Single lines between the client of src/client.c and the connector of src/connector.c.
use ngx_dbrelay.Base.{
  ℕ, zero, suc, ◌-◌, ◌<◌, ◌≡◌, ◌≢◌, refl, ap, true, List, [], ◌∷◌, ◌++◌, none, some, Bytes, length,
  arith, length-append,
}
use ngx_dbrelay.Base.Int.{pos}
use ngx_dbrelay.Socket.{Inbox, dbrelay_socket_bufsize}
use ngx_dbrelay.Socket.Lines.{next_line}
use ngx_dbrelay.Connector.{Session}
use ngx_dbrelay.Connector.Serving.{Action, Database, reads_on, serve_line}
use ngx_dbrelay.Exchange.{Link, sent_bytes, after_turn, serve_all, link_send, link_recv}

abbrev pub NoNewline : Bytes → Type 0
NoNewline [] = Unit
NoNewline (c ∷ s) = (c ≢ b'\n') × NoNewline s

-- A line, without its newline, that is received whole.
abbrev pub IsLine : Bytes → Type 0
IsLine l = NoNewline l × (length l < dbrelay_socket_bufsize - 1)

abbrev pub newline : Bytes
newline = b'\n' ∷ []

pub next_line_one :
    (l rest : Bytes) (room : ℕ)
    → NoNewline l
    → length l < room
    → next_line room (l ++ b'\n' ∷ rest) ≡ some (l ++ newline, rest)
unfolding next_line
next_line_one l rest zero h n = absurd (omega arith)
next_line_one [] rest (suc room) h n = refl
next_line_one (c ∷ l) rest (suc room) h n = ground (arith, next_line_one l rest room h.1)

pub next_line_open :
    (l : Bytes) (room : ℕ) → NoNewline l → length l < room → next_line room l ≡ none
unfolding next_line
next_line_open l zero h n = absurd (omega arith)
next_line_open [] (suc room) h n = refl
next_line_open (c ∷ l) (suc room) h n = ground (arith, next_line_open l room h.1)

-- The connector reads on, with `unserved` before it and `unread` behind it.
abbrev pub link_at : {D : Type 0} → Session D → Bytes → Bytes → Link D
link_at s unserved unread = record {
  session = s;
  unserved = unserved;
  unread = unread;
  serving = true;
}

module _ {D : Type 0} (database : Database D) (fuel pid : ℕ) where
  pub serve_all_open :
      (n : ℕ) (s : Session D) (l unread : Bytes)
      → IsLine l
      → serve_all database fuel pid n (link_at s l unread) ≡ link_at s l unread
  unfolding serve_all
  serve_all_open zero s l unread h = refl
  serve_all_open (suc n) s l unread h =
      rw (next_line_open l (dbrelay_socket_bufsize - 1) h.0 h.1, serve_all) refl

  pub serve_all_line :
      (n : ℕ) (s : Session D) (l rest unread : Bytes)
      → IsLine l
      → serve_all database fuel pid (suc n) (link_at s (l ++ b'\n' ∷ rest) unread)
        ≡ serve_all database fuel pid n (
            after_turn database fuel pid
              (link_at s (l ++ b'\n' ∷ rest) unread)
              rest
              (serve_line database fuel pid s (l ++ newline)))
  unfolding serve_all
  serve_all_line n s l rest unread h =
      rw (next_line_one l rest (dbrelay_socket_bufsize - 1) h.0 h.1, serve_all) refl

  -- What sending one line does.
  pub link_send_line :
      (s s' : Session D) (l unread : Bytes) (actions : List Action)
      → IsLine l
      → serve_line database fuel pid s (l ++ newline)
        ≡ some (record { actions = actions; session = s'; next = reads_on })
      → link_send database fuel pid (link_at s [] unread) (l ++ newline)
        ≡ (true, link_at s' [] (unread ++ sent_bytes actions))
  unfolding link_send after_turn
  link_send_line s s' l unread actions h e =
      let n : length (l ++ newline) ≡ suc (length l) = omega (arith, length-append l newline) in
      ap (λ x. (true, x))
        (rw (n, serve_all_line (length l) s l [] unread h, e)
          (serve_all_open (length l) s' [] (unread ++ sent_bytes actions) (tt, omega arith)))

  -- What reading one line does.
  pub link_recv_line :
      (s : Session D) (l rest unserved : Bytes) (inbox : Inbox)
      → IsLine l
      → link_recv database fuel pid (link_at s unserved (l ++ b'\n' ∷ rest)) inbox
        ≡ ((pos 1, l ++ newline), (inbox, link_at s unserved rest))
  unfolding link_recv
  link_recv_line s l rest unserved inbox h =
      rw (next_line_one l rest (dbrelay_socket_bufsize - 1) h.0 h.1, link_recv) refl
