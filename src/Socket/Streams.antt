-- ===== src/Socket/Streams.antt =====
-- Lines that arrive in pieces: the loop of `dbrelay_socket_recv_string` of src/socket.c over calls of
-- `recv`.
use ngx_dbrelay.Base.{
  ℕ, zero, suc, ◌+◌, ◌-◌, ◌≤◌, ◌<◌, ◌≡◌, refl, sym, ap, subst, ◌∙◌, List, [], ◌∷◌, ◌++◌, map,
  Option, none, some, Bytes, length, arith, append_assoc, NoZero, length-append, c_str-NoZero, drop,
  drop_all, leb, All, ◌==◌, Bool-cases, inl, inr,
}
use ngx_dbrelay.Base.Int.{pos}
use ngx_dbrelay.Socket.{
  Inbox, Received, blocked, got, Receipt, received, Round, returned, again, wrap_ptr, Turn, ends,
  repeats, recv_loop, recv_round, after_copy, refill, dbrelay_socket_bufsize,
  dbrelay_socket_recv_string,
}
use ngx_dbrelay.Socket.Lines.{next_line, push_front, pending, Follows, copy_round-Follows}

-- What `recv` may store: no more than the buffer has room for, and here no zero.
abbrev pub IsChunk : Bytes → Type 0
IsChunk c = NoZero c × (length c < dbrelay_socket_bufsize)

abbrev pub concat : List Bytes → Bytes
concat [] = []
concat (c ∷ cs) = c ++ concat cs

abbrev pub push_all : Bytes → Option (Bytes × Bytes) → Option (Bytes × Bytes)
push_all q none = none
push_all q (some (line, rest)) = some (q ++ line, rest)

-- The next line of a stream by that of its beginning.
abbrev extend : Bytes → ℕ → Bytes → Option (Bytes × Bytes) → Option (Bytes × Bytes)
extend q room t none = push_all q (next_line (room - length q) t)
extend q room t (some (line, rest)) = some (line, rest ++ t)

extend-push_front :
    (c : ℕ) (q t : Bytes) (room : ℕ) (r : Option (Bytes × Bytes))
    → push_front c (extend q room t r) ≡ extend (c ∷ q) (suc room) t (push_front c r)
extend-push_front c q t room none =
    go (next_line (room - length q) t) ∙ ap (λ k. push_all (c ∷ q) (next_line k t)) (omega arith)
  where
    go : (r : Option (Bytes × Bytes)) → push_front c (push_all q r) ≡ push_all (c ∷ q) r
    go none = refl
    go (some (line, rest)) = refl
extend-push_front c q t room (some (line, rest)) = refl

push_all_nil : (r : Option (Bytes × Bytes)) → push_all [] r ≡ r
push_all_nil none = refl
push_all_nil (some (line, rest)) = refl

next_line-append :
    (room : ℕ) (q t : Bytes) → next_line room (q ++ t) ≡ extend q room t (next_line room q)
unfolding next_line
next_line-append zero q t = refl
next_line-append (suc room) [] t =
    ap (λ k. next_line k t) {x = suc room} {y = suc room - 0} (omega arith) ∙ sym (push_all_nil _)
next_line-append (suc room) (c ∷ q) t = elim (Bool-cases (c == b'\n')) [
  | inl e ↦ rw e refl
  | inr e ↦ rw e (
      ap (push_front c) (next_line-append room q t)
      ∙ extend-push_front c q t room (next_line room q))
]

-- What a call returns for the next line of the stream, `out` being there already: the line, with the
-- rest of the stream in the buffer and in the calls to come; without a whole line the call waits.
abbrev pub Answers : Bytes → Option (Bytes × Bytes) → Option Received → Type 0
Answers out none (some blocked) = Unit
Answers out (some (line, rest)) (some (got t o inbox rs)) =
    (t ≡ pos 1)
    × (o ≡ out ++ line)
    × (length inbox.in_buf < dbrelay_socket_bufsize)
    × ((chunks : List Bytes) × (rs ≡ map received chunks)
        × All IsChunk chunks
        × (pending inbox ++ concat chunks ≡ rest))
Answers out _ _ = ⊥

Answers-push_all :
    (out q : Bytes) (r : Option (Bytes × Bytes)) (v : Option Received)
    → Answers (out ++ q) r v
    → Answers out (push_all q r) v
Answers-push_all out q none v h = h
Answers-push_all out q (some (line, rest)) none h = h
Answers-push_all out q (some (line, rest)) (some blocked) h = h
Answers-push_all out q (some (line, rest)) (some (got t o inbox rs)) h =
    (h.0, h.1 ∙ append_assoc out q line, h.2, h.3)

-- `in_ptr` is -1 or a position of the buffer.
abbrev pub InRange : Inbox → Type 0
InRange inbox = elim inbox.in_ptr [ none ↦ Unit | some p ↦ p ≤ length inbox.in_buf ]

next_line_nil : (room : ℕ) → 0 < room → next_line room [] ≡ none
unfolding next_line
next_line_nil zero h = absurd (omega arith)
next_line_nil (suc room) h = refl

-- The rest of the loop behind a round.
abbrev finish : ℕ → Turn → Option Received
finish fuel (ends r) = some r
finish fuel (repeats rs inbox out) = recv_loop fuel rs inbox out

recv_loop-finish :
    (fuel : ℕ) (rs : List Receipt) (inbox : Inbox) (out : Bytes)
    → recv_loop (suc fuel) rs inbox out ≡ finish fuel (recv_round rs inbox out)
unfolding recv_loop
recv_loop-finish fuel rs inbox out = go (recv_round rs inbox out)
  where
    go :
        (t : Turn)
        → (elim t [ ends r ↦ some r | repeats rs' inbox' out' ↦ recv_loop fuel rs' inbox' out' ])
          ≡ finish fuel t
    go (ends r) = refl
    go (repeats rs' inbox' out') = refl

-- The statement of the loop for calls to come that fill the buffer `cs`.
abbrev Reads : ℕ → List Bytes → Type 0
Reads fuel cs =
    (in_buf out : Bytes)
    → length out < dbrelay_socket_bufsize - 1
    → Answers out (next_line (dbrelay_socket_bufsize - length out - 1) (concat cs))
        (recv_loop fuel (map received cs) (record { in_buf = in_buf; in_ptr = none }) out)

finish-Answers :
    (fuel : ℕ) (cs : List Bytes) (in_buf q out : Bytes) (r : Option (Bytes × Bytes)) (turn : Round)
    → Reads fuel cs
    → All IsChunk cs
    → length in_buf < dbrelay_socket_bufsize
    → Follows in_buf q out r turn
    → Answers out
        (extend q (dbrelay_socket_bufsize - length out - 1) (concat cs) r)
        (finish fuel (after_copy (map received cs) turn))
unfolding after_copy
finish-Answers fuel cs in_buf q out (some (line, rest)) (returned o inbox) reads hc hb
      (e1, e2, e3) =
    (refl, e1, rw e3 hb, (cs, refl, hc, ap (λ s. s ++ concat cs) e2))
finish-Answers fuel cs in_buf q out none (again o inbox) reads hc hb (e1, e2, h) =
    rw (e1, e2)
      (Answers-push_all out q _ _ (
        subst
          (λ room. Answers (out ++ q) (next_line room (concat cs)) (
            recv_loop fuel (map received cs) (record { in_buf = in_buf; in_ptr = none })
              (out ++ q)))
          (omega (arith, length-append out q))
          (reads in_buf (out ++ q) (omega (arith, length-append out q)))))
finish-Answers fuel cs in_buf q out (some r) (again o inbox) reads hc hb f = absurd f
finish-Answers fuel cs in_buf q out none (returned o inbox) reads hc hb f = absurd f

recv_loop-Reads : (cs : List Bytes) (fuel : ℕ) → All IsChunk cs → length cs < fuel → Reads fuel cs
unfolding recv_round refill
recv_loop-Reads cs zero hc hf in_buf out ho = absurd (omega arith)
recv_loop-Reads [] (suc fuel) hc hf in_buf out ho =
    rw (recv_loop-finish fuel)
      (subst (λ r. Answers out r (some blocked)) (sym (next_line_nil _ (omega arith))) tt)
recv_loop-Reads (c ∷ cs) (suc fuel) ((hz, hl), hc) hf in_buf out ho =
    rw
      (
        recv_loop-finish fuel,
        next_line-append _ c (concat cs),
        recv_round,
        refill,
        c_str-NoZero c hz,
      )
      (finish-Answers fuel cs c c out _ _ (recv_loop-Reads cs fuel hc (omega arith)) hc hl
        (copy_round-Follows c 0 out hl (omega arith) ho))

length-map-received : (cs : List Bytes) → length (map received cs) ≡ length cs
length-map-received [] = refl
length-map-received (c ∷ cs) = ap suc (length-map-received cs)

-- The first round of a call that finds bytes in the buffer.
recv_loop-pending :
    (cs : List Bytes) (fuel p : ℕ) (in_buf : Bytes)
    → All IsChunk cs
    → length cs < fuel
    → length in_buf < dbrelay_socket_bufsize
    → p ≤ length in_buf
    → Answers []
        (next_line (dbrelay_socket_bufsize - 1) (drop p in_buf ++ concat cs))
        (recv_loop (suc fuel) (map received cs) (record { in_buf = in_buf; in_ptr = some p }) [])
unfolding recv_round next_line wrap_ptr
recv_loop-pending cs fuel p in_buf hc hf hb hp =
    elim (Bool-cases (leb (dbrelay_socket_bufsize - 1) p)) [
      | inl over ↦
          rw
            (
              recv_loop-finish fuel,
              recv_round,
              wrap_ptr,
              over,
              drop_all p in_buf (ground arith),
              sym (
                  recv_loop-finish fuel (map received cs)
                    (record { in_buf = in_buf; in_ptr = none }) []),
            )
            (recv_loop-Reads cs (suc fuel) hc (omega arith) in_buf [] (omega arith))
      | inr within ↦
          rw
            (
              recv_loop-finish fuel,
              next_line-append _ (drop p in_buf) (concat cs),
              recv_round,
              wrap_ptr,
              within,
            )
            (finish-Answers fuel cs in_buf (drop p in_buf) [] _ _ (recv_loop-Reads cs fuel hc hf) hc
              hb (copy_round-Follows in_buf p [] hb hp (omega arith)))
    ]

-- Reading goes on where the last call left off: from the bytes in the buffer and those of the calls to
-- come, a call returns the next line, of at most 4095 bytes, and leaves the rest; without a whole line
-- it waits. How the bytes are spread over the calls of `recv` does not matter, as long as no call
-- brings more than the buffer holds, and none a zero byte.
pub dbrelay_socket_recv_string-Answers :
    (cs : List Bytes) (inbox : Inbox)
    → All IsChunk cs
    → length inbox.in_buf < dbrelay_socket_bufsize
    → InRange inbox
    → Answers []
        (next_line (dbrelay_socket_bufsize - 1) (pending inbox ++ concat cs))
        (dbrelay_socket_recv_string (map received cs) inbox)
unfolding dbrelay_socket_recv_string
dbrelay_socket_recv_string-Answers cs inbox hc hb hi =
    let e : suc (suc (length cs)) ≡ length (map received cs) + 2 =
      omega (arith, length-map-received cs) in
    subst
      (λ fuel.
        Answers [] (next_line (dbrelay_socket_bufsize - 1) (pending inbox ++ concat cs))
          (recv_loop fuel (map received cs) inbox []))
      e (go inbox.in_buf inbox.in_ptr hb hi)
  where
    go :
        (in_buf : Bytes) (p : Option ℕ)
        → length in_buf < dbrelay_socket_bufsize
        → InRange (record { in_buf = in_buf; in_ptr = p })
        → Answers []
            (next_line
              (dbrelay_socket_bufsize - 1)
              (pending (record { in_buf = in_buf; in_ptr = p }) ++ concat cs))
            (recv_loop
              (suc (suc (length cs)))
              (map received cs)
              (record { in_buf = in_buf; in_ptr = p })
              [])
    go in_buf none hb hi = recv_loop-Reads cs _ hc (omega arith) in_buf [] (omega arith)
    go in_buf (some p) hb hi =
        recv_loop-pending cs (suc (length cs)) p in_buf hc (omega arith) hb hi
