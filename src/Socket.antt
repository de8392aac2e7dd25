-- ===== src/Socket.antt =====
-- src/socket.c: sending a string and receiving a line over a stream socket. What `select`, `send` and
-- `recv` return, call after call, is a list.
pub mod Lines
pub mod Streams
pub mod Sending
use ngx_dbrelay.Base.{
  ℕ, zero, suc, ◌+◌, ◌-◌, Bool, true, false, ◌&&◌, List, [], ◌∷◌, ◌++◌, Option, none, some, Bytes,
  c_str, length, take, drop, get_elem?, ltb, leb, ◌==◌, if◌then◌else◌,
}
use ngx_dbrelay.Base.Int.{ℤ, pos, negsuc}

abbrev pub dbrelay_socket_bufsize : ℕ
dbrelay_socket_bufsize = 4096

-- One round of `dbrelay_socket_send_string`: the wait fails, `send` fails, or it takes some bytes.
pub data SendResult : Type 0 where
  send_wait_failed : SendResult
  send_failed : SendResult
  accepted : ℕ → SendResult

-- What one `send` adds to what the socket takes.
abbrev pub add_sent : Bytes → Option (Bytes × Bool) → Option (Bytes × Bool)
add_sent front none = none
add_sent front (some (sent, ok)) = some (front ++ sent, ok)

-- The loop on `bytes_to_send` bytes from `at` on: what the socket took, and whether 0 is returned;
-- `none` where the results run out, the code waiting.
unfoldable pub send_loop : List SendResult → Bytes → ℕ → ℕ → Option (Bytes × Bool)
send_loop rs str at zero = some ([], true)
send_loop [] str at (suc left) = none
send_loop (send_wait_failed ∷ rs) str at (suc left) = some ([], false)
send_loop (send_failed ∷ rs) str at (suc left) = some ([], false)
send_loop (accepted n ∷ rs) str at (suc left) =
    add_sent (take n (drop at str)) (send_loop rs str (at + n) (suc left - n))

unfoldable pub dbrelay_socket_send_string : List SendResult → Bytes → Option (Bytes × Bool)
dbrelay_socket_send_string results str = send_loop results str 0 (length str)

-- What a wait for input and the `recv` behind it end with.
pub data Receipt : Type 0 where
  wait_failed : Receipt
  interrupted : Receipt
  failed : Receipt
  closed : Receipt
  received : Bytes → Receipt

-- The caller's `in_buf`, as the string in it, and `in_ptr`, `none` for -1.
pub record Inbox : Type 0 where
  pub in_buf : Bytes
  pub in_ptr : Option ℕ

abbrev pub empty_inbox : Inbox
empty_inbox = record { in_buf = []; in_ptr = none }

-- `have_available`: the bytes in front of the line's end or of the buffer's.
unfoldable pub available : Bytes → ℕ
available [] = 0
available (c ∷ s) = if c == b'\n' then 0 else suc (available s)

abbrev pub is_newline : Option ℕ → Bool
is_newline none = false
is_newline (some c) = c == b'\n'

-- `if (*in_ptr >= n) *in_ptr=-1;`
unfoldable pub wrap_ptr : ℕ → ℕ → Option ℕ
wrap_ptr n p = if leb n p then none else some p

-- One round of the copying: the loop returns 1, or goes on. The strings are `out_buf`.
pub data Round : Type 0 where
  returned : Bytes → Inbox → Round
  again : Bytes → Inbox → Round

unfoldable pub copy_round : Bytes → ℕ → Bytes → Round
copy_round in_buf p out =
    let have_available = available (drop p in_buf) in
    let have_space = dbrelay_socket_bufsize - length out - 1 in
    let next = p + have_available in
    if ltb have_available have_space
    then if ltb next (length in_buf) && is_newline (get_elem? in_buf next)
      then returned (out ++ (take have_available (drop p in_buf) ++ b'\n' ∷ []))
          (record { in_buf = in_buf; in_ptr = wrap_ptr (length in_buf) (next + 1) })
      else again (out ++ take have_available (drop p in_buf))
          (record { in_buf = in_buf; in_ptr = wrap_ptr (length in_buf) next })
    else returned (out ++ take have_space (drop p in_buf)) (record {
      in_buf = in_buf;
      in_ptr = wrap_ptr (dbrelay_socket_bufsize - 1) (p + have_space);
    })

-- What a call of `dbrelay_socket_recv_string` ends with: its result, `out_buf`, `in_buf` and `in_ptr`,
-- and what the socket has left; or it waits for more.
pub data Received : Type 0 where
  blocked : Received
  got : ℤ → Bytes → Inbox → List Receipt → Received

-- `if (*in_ptr >= DBRELAY_SOCKET_BUFSIZE - 1) *in_ptr=-1;`
abbrev pub rewind : Option ℕ → Option ℕ
rewind none = none
rewind (some p) = wrap_ptr (dbrelay_socket_bufsize - 1) p

-- One round of the loop: the call ends, or the loop goes round on what is left.
pub data Turn : Type 0 where
  ends : Received → Turn
  repeats : List Receipt → Inbox → Bytes → Turn

-- What follows the copying.
unfoldable pub after_copy : List Receipt → Round → Turn
after_copy rs (returned out inbox) = ends (got (pos 1) out inbox rs)
after_copy rs (again out inbox) = repeats rs inbox out

-- The round in which `*in_ptr` is -1: the buffer is filled first.
unfoldable pub refill : List Receipt → Inbox → Bytes → Turn
refill [] inbox out = ends blocked
refill (wait_failed ∷ rs) inbox out = ends (got (negsuc 0) out inbox rs)
refill (interrupted ∷ rs) inbox out = repeats rs inbox out
refill (failed ∷ rs) inbox out = ends (got (negsuc 0) out inbox rs)
refill (closed ∷ rs) inbox out = ends (got (pos 0) out inbox rs)
refill (received chunk ∷ rs) inbox out = after_copy rs (copy_round (c_str chunk) 0 out)

unfoldable pub recv_round : List Receipt → Inbox → Bytes → Turn
recv_round rs inbox out = elim (rewind inbox.in_ptr) [
  | none ↦ refill rs (record inbox { in_ptr = none }) out
  | some p ↦ after_copy rs (copy_round inbox.in_buf p out)
]

-- The loop, on fuel.
unfoldable pub recv_loop : ℕ → List Receipt → Inbox → Bytes → Option Received
recv_loop zero rs inbox out = none
recv_loop (suc fuel) rs inbox out = elim (recv_round rs inbox out) [
  | ends r ↦ some r
  | repeats rs' inbox' out' ↦ recv_loop fuel rs' inbox' out'
]

-- A round for the bytes that are left in the buffer, and one for each call of `recv`.
unfoldable pub dbrelay_socket_recv_string : List Receipt → Inbox → Option Received
dbrelay_socket_recv_string rs inbox = recv_loop (length rs + 2) rs inbox []
