-- ===== src/Socket/Lines.antt =====
-- `dbrelay_socket_recv_string` of src/socket.c against a description of lines in a stream of bytes.
use ngx_dbrelay.Base.{
  ℕ, zero, suc, ◌+◌, ◌-◌, ◌≤◌, ◌<◌, ◌≡◌, refl, sym, ap, ◌∙◌, true, false, [], ◌∷◌, ◌++◌, Option,
  none, some, Bytes, length, take, drop, get_elem?, arith, ltb, leb, ◌==◌, if◌then◌else◌,
  Bool-cases, ltb→lt, inl, inr, drop_all, drop-drop, length-drop, length-take-le, get_elem?-drop,
}
use ngx_dbrelay.Socket.{
  Inbox, Round, returned, again, available, is_newline, wrap_ptr, copy_round,
  dbrelay_socket_bufsize,
}

abbrev pub push_front : ℕ → Option (Bytes × Bytes) → Option (Bytes × Bytes)
push_front c none = none
push_front c (some (before, after)) = some (c ∷ before, after)

-- The next line of a stream, of at most `room` bytes, and the stream behind it.
unfoldable pub next_line : ℕ → Bytes → Option (Bytes × Bytes)
next_line zero s = some ([], s)
next_line (suc room) [] = none
next_line (suc room) (c ∷ s) =
    if c == b'\n' then some (b'\n' ∷ [], s) else push_front c (next_line room s)

-- The bytes that a caller's buffer still holds.
abbrev pub pending : Inbox → Bytes
pending inbox = elim inbox.in_ptr [ none ↦ [] | some p ↦ drop p inbox.in_buf ]

next_line_whole :
    (s : Bytes) (room : ℕ)
    → available s < room
    → available s < length s
    → next_line room s ≡ some (take (available s) s ++ b'\n' ∷ [], drop (available s + 1) s)
unfolding next_line available
next_line_whole [] room h e = absurd (omega arith)
next_line_whole (c ∷ s) zero h e = absurd (omega arith)
next_line_whole (c ∷ s) (suc room) h e = ground (arith, next_line_whole s room)

next_line_partial :
    (s : Bytes) (room : ℕ)
    → available s < room
    → length s ≤ available s
    → (next_line room s ≡ none) × (take (available s) s ≡ s)
unfolding next_line available
next_line_partial [] zero h e = ground arith
next_line_partial [] (suc room) h e = ground arith
next_line_partial (c ∷ s) zero h e = absurd (omega arith)
next_line_partial (c ∷ s) (suc room) h e = ground (arith, next_line_partial s room)

pub next_line_long :
    (s : Bytes) (room : ℕ) → room ≤ available s → next_line room s ≡ some (take room s, drop room s)
unfolding next_line available
next_line_long s zero h = refl
next_line_long [] (suc room) h = absurd (omega arith)
next_line_long (c ∷ s) (suc room) h = ground (arith, next_line_long s room)

is_newline-available :
    (s : Bytes) → available s < length s → is_newline (get_elem? s (available s)) ≡ true
unfolding available
is_newline-available [] h = ground arith
is_newline-available (c ∷ s) h = ground (arith, is_newline-available s)

pending-wrap_ptr :
    (n p : ℕ) (s : Bytes)
    → length s ≤ n
    → pending (record { in_buf = s; in_ptr = wrap_ptr n p }) ≡ drop p s
unfolding wrap_ptr
pending-wrap_ptr n p s h = elim (Bool-cases (leb n p)) [
  | inl e ↦ rw e (sym (drop_all p s (ground arith)))
  | inr e ↦ rw e refl
]

-- What a round of copying does for the next line of the bytes `q` in the buffer.
abbrev pub Follows : Bytes → Bytes → Bytes → Option (Bytes × Bytes) → Round → Type 0
Follows in_buf q out (some (line, rest)) (returned o inbox) =
    (o ≡ out ++ line) × (pending inbox ≡ rest) × (inbox.in_buf ≡ in_buf)
Follows in_buf q out none (again o inbox) =
    (o ≡ out ++ q)
    × (inbox ≡ record { in_buf = in_buf; in_ptr = none })
    × (length out + length q < dbrelay_socket_bufsize - 1)
Follows in_buf q out _ _ = ⊥

wrap_ptr-none : (n p : ℕ) → n ≤ p → wrap_ptr n p ≡ none
unfolding wrap_ptr
wrap_ptr-none n p h = ground arith

pub copy_round-Follows :
    (in_buf : Bytes) (p : ℕ) (out : Bytes)
    → length in_buf < dbrelay_socket_bufsize
    → p ≤ length in_buf
    → length out < dbrelay_socket_bufsize - 1
    → Follows in_buf
        (drop p in_buf)
        out
        (next_line (dbrelay_socket_bufsize - length out - 1) (drop p in_buf))
        (copy_round in_buf p out)
unfolding copy_round
copy_round-Follows in_buf p out hb hp ho =
    let q = drop p in_buf in
    let room = dbrelay_socket_bufsize - length out - 1 in
    let inside : p + available q < length in_buf → available q < length q =
      λ h. omega (arith, length-drop p in_buf) in
    let outside : ltb (p + available q) (length in_buf) ≡ false → length q ≤ available q =
      λ h. ground (arith, length-drop p in_buf) in
    elim (Bool-cases (ltb (available q) room)) [
      | inl fits ↦ elim (Bool-cases (ltb (p + available q) (length in_buf))) [
        | inl ends ↦
            rw
              (
                fits,
                ends,
                sym (get_elem?-drop p (available q) in_buf),
                is_newline-available q (omega (arith, inside (ltb→lt _ _ ends))),
                next_line_whole q room (ltb→lt _ _ fits) (inside (ltb→lt _ _ ends)),
              )
              (
                refl,
                pending-wrap_ptr _ _ in_buf (omega arith)
                    ∙ ap (λ k. drop k in_buf) (omega arith)
                    ∙ sym (drop-drop p (available q + 1) in_buf),
                refl,
              )
        | inr stays ↦
            let rest = next_line_partial q room (ltb→lt _ _ fits) (outside stays) in
            rw
              (
                fits,
                stays,
                rest.0,
                rest.1,
                wrap_ptr-none (length in_buf) (p + available q) (ground arith),
              )
              (
                refl,
                refl,
                omega (arith, ltb→lt _ _ fits, ap length rest.1, length-take-le (available q) q),
              )
      ]
      | inr long ↦
          rw (long, next_line_long q room (ground arith))
            (refl, pending-wrap_ptr _ _ in_buf (omega arith) ∙ sym (drop-drop p room in_buf), refl)
    ]
