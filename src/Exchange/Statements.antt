-- ===== src/Exchange/Statements.antt =====
-- The statement of a request, from `dbrelay_conn_send_request` of src/client.c into the session of
-- src/connector.c.
use ngx_dbrelay.Base.{
  ℕ, zero, suc, ◌≤◌, ◌≡◌, refl, sym, ap, ◌∙◌, Bool, true, false, List, [], ◌∷◌, ◌++◌, none, some,
  Bytes, codes, starts_with, length, length-append, All, arith, append-nil, append_assoc, contains,
}
use ngx_dbrelay.StringBuf.{StringBuf, sb_new, sb_put, sb_to_char}
use ngx_dbrelay.StringBuf.Laws.{sb_to_char-sb_append, sb_to_char-sb_new}
use ngx_dbrelay.Connector.{Session, cont, process_line}
use ngx_dbrelay.Connector.Statements.{
  collecting, collected, process_line-begin, process_line-text, process_line-end,
}
use ngx_dbrelay.Connector.Serving.{Database, reads_on, serve_line, answer}
use ngx_dbrelay.Client.{Channel, send_strings, statement_strings}
use ngx_dbrelay.Exchange.{Link, connector_channel, serve_all, link_send, after_turn}
use ngx_dbrelay.Exchange.Lines.{
  IsLine, newline, link_at, serve_all_open, serve_all_line, link_send_line,
}
use ngx_dbrelay.Exchange.Options.{NoNewline-of, serve_line_ok, sent_bytes-timer_if}

-- A text from its lines and what stands behind the last newline.
abbrev pub join : List Bytes → Bytes → Bytes
join [] last = last
join (l ∷ ls) last = l ++ b'\n' ∷ join ls last

-- A line of a statement that the connector takes for text.
abbrev pub IsText : Bytes → Type 0
IsText l = IsLine l × (starts_with (codes ":SQL END") (l ++ newline) ≡ false)

abbrev put_lines : StringBuf → List Bytes → StringBuf
put_lines sb [] = sb
put_lines sb (l ∷ ls) = put_lines (sb_put sb (l ++ newline)) ls

sb_to_char-put_lines :
    (ls : List Bytes) (sb : StringBuf) (last : Bytes)
    → sb_to_char (put_lines sb ls) ++ last ≡ sb_to_char sb ++ join ls last
sb_to_char-put_lines [] sb last = refl
sb_to_char-put_lines (l ∷ ls) sb last =
    sb_to_char-put_lines ls (sb_put sb (l ++ newline)) last
    ∙ ap (λ t. t ++ join ls last) (sb_to_char-sb_append sb (some (l ++ newline)))
    ∙ append_assoc (sb_to_char sb) (l ++ newline) (join ls last)
    ∙ ap (◌++◌ (sb_to_char sb)) (append_assoc l newline (join ls last))

length-join : (ls : List Bytes) (last : Bytes) → length ls ≤ length (join ls last)
length-join [] last = omega arith
length-join (l ∷ ls) last =
    omega (arith, length-join ls last, length-append l (b'\n' ∷ join ls last))

module _ {D : Type 0} (database : Database D) (fuel pid : ℕ) where
  serve_line_cont :
      (s s' : Session D) (line : Bytes)
      → process_line s line ≡ some (cont, s')
      → serve_line database fuel pid s line
        ≡ some (record { actions = []; session = s'; next = reads_on })
  unfolding serve_line answer
  serve_line_cont s s' line p = rw (p, serve_line) refl

  -- A line of a statement is collected.
  serve_all_text :
      (n : ℕ) (s : Session D) (sb : StringBuf) (l rest unread : Bytes)
      → IsText l
      → serve_all database fuel pid (suc n) (link_at (collecting s sb) (l ++ b'\n' ∷ rest) unread)
        ≡ serve_all database fuel pid n
            (link_at (collecting s (sb_put sb (l ++ newline))) rest unread)
  unfolding after_turn
  serve_all_text n s sb l rest unread h =
      let next = collecting s (sb_put sb (l ++ newline)) in
      serve_all_line database fuel pid n (collecting s sb) l rest unread h.0
      ∙ ap
          (λ turn. serve_all database fuel pid n (
            after_turn database fuel pid (link_at (collecting s sb) (l ++ b'\n' ∷ rest) unread) rest
              turn))
          (serve_line_cont (collecting s sb) next (l ++ newline)
            (process_line-text s sb (l ++ newline) h.1))
      ∙ ap (λ u. serve_all database fuel pid n (link_at next rest u)) (append-nil unread)

  serve_all_lines :
      (ls : List Bytes) (n : ℕ) (s : Session D) (sb : StringBuf) (last unread : Bytes)
      → All IsText ls
      → IsLine last
      → length ls ≤ n
      → serve_all database fuel pid n (link_at (collecting s sb) (join ls last) unread)
        ≡ link_at (collecting s (put_lines sb ls)) last unread
  serve_all_lines [] n s sb last unread h hl hn =
      serve_all_open database fuel pid n (collecting s sb) last unread hl
  serve_all_lines (l ∷ ls) zero s sb last unread h hl hn = absurd (omega arith)
  serve_all_lines (l ∷ ls) (suc n) s sb last unread h hl hn =
      serve_all_text n s sb l (join ls last) unread h.0
      ∙ serve_all_lines ls n s (sb_put sb (l ++ newline)) last unread h.1 hl (omega arith)

  -- The text of the statement.
  link_send_text :
      (ls : List Bytes) (s : Session D) (sb : StringBuf) (last : Bytes)
      → All IsText ls
      → IsLine last
      → link_send database fuel pid (link_at (collecting s sb) [] []) (join ls last)
        ≡ (true, link_at (collecting s (put_lines sb ls)) last [])
  unfolding link_send
  link_send_text ls s sb last h hl =
      ap (λ x. (true, x))
        (serve_all_lines ls (length (join ls last)) s sb last [] h hl (length-join ls last))

  -- The newline behind it.
  link_send-newline :
      (s : Session D) (sb : StringBuf) (last : Bytes)
      → IsText last
      → link_send database fuel pid (link_at (collecting s sb) last []) newline
        ≡ (true, link_at (collecting s (sb_put sb (last ++ newline))) [] [])
  unfolding link_send
  link_send-newline s sb last h =
      let n : length (last ++ newline) ≡ suc (length last) =
        omega (arith, length-append last newline) in
      ap (λ x. (true, x))
        (rw n (
          serve_all_text (length last) s sb last [] [] h
          ∙ serve_all_open database fuel pid (length last)
              (collecting s (sb_put sb (last ++ newline))) [] [] (tt, omega arith)))

  link_send_begin :
      (s : Session D)
      → s.receive_sql ≡ false
      → link_send database fuel pid (link_at s [] []) (codes ":SQL BEGIN\n")
        ≡ (true, link_at (collecting s (sb_new none)) [] [])
  unfolding contains
  link_send_begin s h =
      link_send_line database fuel pid s (collecting s (sb_new none)) (codes ":SQL BEGIN") [] []
        (NoNewline-of (codes ":SQL BEGIN") refl, omega arith)
        (serve_line_cont s (collecting s (sb_new none)) (codes ":SQL BEGIN\n")
          (process_line-begin s h))

  link_send_end :
      (s : Session D) (sb : StringBuf)
      → link_send database fuel pid (link_at (collecting s sb) [] []) (codes ":SQL END\n")
        ≡ (true, link_at (collected s sb) [] (codes ":OK\n"))
  unfolding contains
  link_send_end s sb =
      let timeout = s.request.connection_timeout in
      link_send_line database fuel pid (collecting s sb) (collected s sb) (codes ":SQL END") [] _
        (NoNewline-of (codes ":SQL END") refl, omega arith)
        (serve_line_ok database fuel pid (collecting s sb) (collected s sb) (codes ":SQL END\n")
          (process_line-end s sb))
      ∙ ap (λ u. (true, link_at (collected s sb) [] (codes ":OK\n" ++ u)))
          (sent_bytes-timer_if timeout timeout)

-- The session behind a statement.
unfoldable pub with_sql : {D : Type 0} → Session D → Bytes → Session D
with_sql s sql = record s {
  receive_sql = false;
  sb_sql = none;
  request = record s.request { sql = some sql };
}

send_strings_step :
    (S : Type 0) (ch : Channel S) (s s1 : S) (str : Bytes) (rest : List Bytes)
    → ch.send_string s str ≡ (true, s1)
    → send_strings ch s (str ∷ rest) ≡ send_strings ch s1 rest
unfolding send_strings
send_strings_step S ch s s1 str rest e =
    ap (λ x. elim x.0 as (λ b. Bool × S) [ false ↦ (false, x.1) | true ↦ send_strings ch x.1 rest ])
      e

module _ {D : Type 0} (database : Database D) (fuel pid : ℕ) where
  abbrev send_from : Link D → List Bytes → Bool × Link D
  send_from link strs = send_strings (connector_channel database fuel pid) link strs

  step :
      (link link' : Link D) (str : Bytes) (rest : List Bytes)
      → link_send database fuel pid link str ≡ (true, link')
      → send_from link (str ∷ rest) ≡ send_from link' rest
  step link link' str rest e =
      send_strings_step (Link D) (connector_channel database fuel pid) link link' str rest e

  -- A statement reaches the session, with a newline behind it, if its lines are shorter than the
  -- socket's buffer and none starts with the end mark.
  pub send_strings-with_sql :
      (s : Session D) (ls : List Bytes) (last : Bytes)
      → s.receive_sql ≡ false
      → All IsText ls
      → IsText last
      → send_from (link_at s [] []) (statement_strings (join ls last))
        ≡ (true, link_at (with_sql s (join ls last ++ newline)) [] (codes ":OK\n"))
  unfolding statement_strings with_sql send_strings
  send_strings-with_sql s ls last h hls hl =
      let sb0 = sb_new none in
      let sb1 = put_lines sb0 ls in
      let sb2 = sb_put sb1 (last ++ newline) in
      step (link_at s [] []) (link_at (collecting s sb0) [] []) (codes ":SQL BEGIN\n")
        (join ls last ∷ newline ∷ codes ":SQL END\n" ∷ []) (link_send_begin database fuel pid s h)
      ∙ step (link_at (collecting s sb0) [] []) (link_at (collecting s sb1) last []) (join ls last)
          (newline ∷ codes ":SQL END\n" ∷ [])
          (link_send_text database fuel pid ls s sb0 last hls hl.0)
      ∙ step (link_at (collecting s sb1) last []) (link_at (collecting s sb2) [] []) newline
          (codes ":SQL END\n" ∷ []) (link_send-newline database fuel pid s sb1 last hl)
      ∙ step (link_at (collecting s sb2) [] []) (link_at (collected s sb2) [] (codes ":OK\n"))
          (codes ":SQL END\n") [] (link_send_end database fuel pid s sb2)
      ∙ ap (λ t. (true, link_at (with_sql s t) [] (codes ":OK\n")))
          (sb_to_char-sb_append sb1 (some (last ++ newline))
            ∙ sym (append_assoc (sb_to_char sb1) last newline)
            ∙ ap (λ t. t ++ newline)
                (sb_to_char-put_lines ls sb0 last
                  ∙ ap (λ t. t ++ join ls last) (sb_to_char-sb_new none)))
