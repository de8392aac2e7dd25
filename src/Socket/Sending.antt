-- ===== src/Socket/Sending.antt =====
-- What `dbrelay_socket_send_string` of src/socket.c hands to the socket.
use ngx_dbrelay.Base.{
  ℕ, zero, suc, ◌+◌, ◌-◌, ◌≤◌, ◌<◌, ◌≡◌, refl, sym, ap, subst, ◌∙◌, Bool, true, false, List, [],
  ◌∷◌, ◌++◌, Option, none, some, Bytes, length, take, drop, arith, drop-drop, drop_all,
  take-append-drop, append_assoc,
}
use ngx_dbrelay.Socket.{
  SendResult, send_wait_failed, send_failed, accepted, add_sent, send_loop,
  dbrelay_socket_send_string,
}

-- No `send` takes more than it is given, on `left` bytes.
abbrev pub Fits : ℕ → List SendResult → Type 0
Fits left [] = Unit
Fits left (accepted n ∷ rs) = (n ≤ left) × Fits (left - n) rs
Fits left (send_wait_failed ∷ rs) = Unit
Fits left (send_failed ∷ rs) = Unit

-- What a call that ended has sent: all of the string, or some beginning of it.
abbrev pub Sends : Bytes → Option (Bytes × Bool) → Type 0
Sends str none = Unit
Sends str (some (sent, true)) = sent ≡ str
Sends str (some (sent, false)) = (rest : Bytes) × (sent ++ rest ≡ str)

take-append-drop_at :
    (n at : ℕ) (str sent : Bytes)
    → sent ≡ drop (at + n) str
    → take n (drop at str) ++ sent ≡ drop at str
take-append-drop_at n at str sent e =
    ap (◌++◌ (take n (drop at str))) (e ∙ sym (drop-drop at n str))
    ∙ take-append-drop n (drop at str)

Sends-add_sent :
    (n at : ℕ) (str : Bytes) (r : Option (Bytes × Bool))
    → Sends (drop (at + n) str) r
    → Sends (drop at str) (add_sent (take n (drop at str)) r)
Sends-add_sent n at str none h = tt
Sends-add_sent n at str (some (sent, true)) h = take-append-drop_at n at str sent h
Sends-add_sent n at str (some (sent, false)) (rest, e) = (
  rest,
  append_assoc (take n (drop at str)) sent rest ∙ take-append-drop_at n at str (sent ++ rest) e,
)

send_loop-Sends :
    (rs : List SendResult) (str : Bytes) (at left : ℕ)
    → length str ≡ at + left
    → Fits left rs
    → Sends (drop at str) (send_loop rs str at left)
unfolding send_loop
send_loop-Sends rs str at zero h f = sym (drop_all at str (omega arith))
send_loop-Sends [] str at (suc left) h f = tt
send_loop-Sends (send_wait_failed ∷ rs) str at (suc left) h f = (drop at str, refl)
send_loop-Sends (send_failed ∷ rs) str at (suc left) h f = (drop at str, refl)
send_loop-Sends (accepted n ∷ rs) str at (suc left) h f =
    Sends-add_sent n at str _ (send_loop-Sends rs str (at + n) (suc left - n) (omega arith) f.1)

-- Every `send` takes at least one byte.
abbrev pub Proceeds : List SendResult → Type 0
Proceeds [] = Unit
Proceeds (accepted n ∷ rs) = (0 < n) × Proceeds rs
Proceeds (send_wait_failed ∷ rs) = ⊥
Proceeds (send_failed ∷ rs) = ⊥

send_loop_ends :
    (rs : List SendResult) (str : Bytes) (at left : ℕ)
    → Proceeds rs
    → left ≤ length rs
    → (sent : Bytes) × (send_loop rs str at left ≡ some (sent, true))
unfolding send_loop
send_loop_ends rs str at zero h e = ([], refl)
send_loop_ends [] str at (suc left) h e = absurd (omega arith)
send_loop_ends (send_wait_failed ∷ rs) str at (suc left) h e = absurd h
send_loop_ends (send_failed ∷ rs) str at (suc left) h e = absurd h
send_loop_ends (accepted n ∷ rs) str at (suc left) h e =
    let (sent, r) = send_loop_ends rs str (at + n) (suc left - n) h.1 (omega (arith, h.0)) in
    (take n (drop at str) ++ sent, ap (add_sent (take n (drop at str))) r)

-- Whatever parts the socket takes at a time, no more than it is given, a call that returns 0 has sent
-- exactly the string and a call that returns -1 a beginning of it; and if every `send` takes a byte at
-- least, as many calls as the string has bytes are enough to send it.
pub dbrelay_socket_send_string-Sends :
    (rs : List SendResult) (str : Bytes)
    → Fits (length str) rs
    → Sends str (dbrelay_socket_send_string rs str)
      × (Proceeds rs
          → length str ≤ length rs
          → dbrelay_socket_send_string rs str ≡ some (str, true))
unfolding dbrelay_socket_send_string
dbrelay_socket_send_string-Sends rs str f = (sends, whole)
  where
    sends : Sends str (send_loop rs str 0 (length str))
    sends = send_loop-Sends rs str 0 (length str) (omega arith) f

    whole :
        Proceeds rs → length str ≤ length rs → send_loop rs str 0 (length str) ≡ some (str, true)
    whole p h =
        let (sent, e) = send_loop_ends rs str 0 (length str) p h in
        let same : sent ≡ str = subst (Sends str) e sends in e ∙ ap (λ s. some (s, true)) same
