-- ===== src/Exchange/Answers.antt =====
-- The loop of `dbrelay_conn_send_request` of src/client.c over what the connector of src/connector.c
-- sent.
use ngx_dbrelay.Base.{
  ℕ, zero, suc, ◌+◌, ◌-◌, ◌≤◌, ◌<◌, ◌≡◌, refl, sym, ap, ◌∙◌, Bool, true, false, not, List, [], ◌∷◌,
  ◌++◌, Option, none, some, Bytes, codes, contains, str_eq, length, All, arith, append_assoc,
  append-nil,
}
use ngx_dbrelay.Base.Int.{ℤ, pos, ltb_ℤ}
use ngx_dbrelay.StringBuf.{StringBuf, sb_new, sb_put, sb_to_char}
use ngx_dbrelay.StringBuf.Laws.{sb_to_char-sb_append, sb_to_char-sb_new}
use ngx_dbrelay.Socket.{Inbox, dbrelay_socket_bufsize}
use ngx_dbrelay.Connector.{Session, trim_newline}
use ngx_dbrelay.Connector.Commands.{trim_newline-append}
use ngx_dbrelay.Connector.Serving.{Database}
use ngx_dbrelay.Client.{Channel, Reading, is_last, read_line, end_reading, reply_loop}
use ngx_dbrelay.Client.Replies.{IsPlain, glue, read_line_plain}
use ngx_dbrelay.Exchange.{Link, connector_channel, link_recv, next_of}
use ngx_dbrelay.Exchange.Lines.{NoNewline, newline, link_at, next_line_one}
use ngx_dbrelay.Exchange.Options.{NoNewline-of}
use ngx_dbrelay.Exchange.Pieces.{Arrives, arrived, arrives, EndsPlain, text-Delivered}

-- One round of the loop on any channel that delivers a line.
reply_loop_round :
    (S : Type 0) (ch : Channel S) (n : ℕ) (r : Reading) (inbox : Inbox) (s s' : S) (out : Bytes)
    → ch.recv_string s inbox ≡ ((pos 1, out), (inbox, s'))
    → reply_loop ch (suc n) r inbox s
      ≡ (elim (is_last (trim_newline out)) as (λ b. Option (Bytes × ℕ × S)) [
        | true ↦ some (sb_to_char r.sb_rslt, r.error, s')
        | false ↦ reply_loop ch n (read_line r (trim_newline out)) inbox s'
      ])
unfolding reply_loop end_reading
reply_loop_round S ch n r inbox s s' out e =
    ap
      (λ (x : (ℤ × Bytes) × (Inbox × S)).
        elim (ltb_ℤ (pos 0) x.0.0) as (λ b. Option (Bytes × ℕ × S)) [
          | false ↦ some (end_reading ch x.0.0 r x.1.1)
          | true ↦ elim (is_last (trim_newline x.0.1)) as (λ b. Option (Bytes × ℕ × S)) [
            | true ↦ some (end_reading ch x.0.0 r x.1.1)
            | false ↦ reply_loop ch n (read_line r (trim_newline x.0.1)) x.1.0 x.1.1
          ]
        ])
      e

-- A part of an answer: results, or an error.
abbrev pub mark : Bool → Bytes → Bytes
mark true which = codes ":ERROR " ++ which
mark false which = codes ":RESULTS " ++ which

abbrev pub error_code : Bool → ℕ
error_code true = 1
error_code false = 0

-- The state of the loop before an answer, and within a part of it.
abbrev pub before_answer : Reading
before_answer = record { results = false; errors = false; sb_rslt = sb_new none; error = 0 }

abbrev in_part : Bool → StringBuf → Reading
in_part failed sb = record {
  results = not failed;
  errors = failed;
  sb_rslt = sb;
  error = error_code failed;
}

read_line-in_part :
    (failed : Bool) (sb : StringBuf) (l : Bytes)
    → IsPlain l
    → read_line (in_part failed sb) l ≡ in_part failed (sb_put sb l)
read_line-in_part true sb l h = read_line_plain (in_part true sb) l h
read_line-in_part false sb l h = read_line_plain (in_part false sb) l h

read_line-begin :
    (failed : Bool)
    → read_line before_answer (mark failed (codes "BEGIN")) ≡ in_part failed (sb_new none)
unfolding read_line str_eq
read_line-begin true = refl
read_line-begin false = refl

read_line-end :
    (failed : Bool) (sb : StringBuf)
    → read_line (in_part failed sb) (mark failed (codes "END"))
      ≡ record { results = false; errors = false; sb_rslt = sb; error = error_code failed }
unfolding read_line str_eq
read_line-end true sb = refl
read_line-end false sb = refl

mark_facts :
    (failed : Bool) (which : Bytes)
    → contains b'\n' which ≡ false
    → NoNewline (mark failed which)
      × (length (mark failed which) ≤ length which + 9)
      × (is_last (mark failed which) ≡ false)
unfolding contains is_last str_eq
mark_facts true which h = (NoNewline-of (codes ":ERROR " ++ which) h, omega arith, refl)
mark_facts false which h = (NoNewline-of (codes ":RESULTS " ++ which) h, omega arith, refl)

-- What stands behind a part.
abbrev pub closing : Bool → Bytes
closing failed = mark failed (codes "END") ++ b'\n' ∷ codes ":OK\n"

module _ {D : Type 0} (database : Database D) (fuel pid : ℕ) (inbox : Inbox) (s : Session D) where
  -- The loop on what is unread.
  abbrev reads : ℕ → Reading → Bytes → Option (Bytes × ℕ × Link D)
  reads n r unread =
      reply_loop (connector_channel database fuel pid) n r inbox (link_at s [] unread)

  link_recv_of :
      (unread line rest : Bytes)
      → next_of unread ≡ some (line, rest)
      → link_recv database fuel pid (link_at s [] unread) inbox
        ≡ ((pos 1, line), (inbox, link_at s [] rest))
  unfolding link_recv
  link_recv_of unread line rest e =
      ap
        (λ (o : Option (Bytes × Bytes)). elim o as (λ x. (ℤ × Bytes) × (Inbox × Link D)) [
          | none ↦ ((pos 0, []), (inbox, link_at s [] unread))
          | some (l, u) ↦ ((pos 1, l), (inbox, link_at s [] u))
        ])
        e

  reads_on_line :
      (n : ℕ) (r : Reading) (unread line rest : Bytes)
      → next_of unread ≡ some (line, rest)
      → is_last (trim_newline line) ≡ false
      → reads (suc n) r unread ≡ reads n (read_line r (trim_newline line)) rest
  reads_on_line n r unread line rest e h =
      reply_loop_round (Link D) (connector_channel database fuel pid) n r inbox
        (link_at s [] unread) (link_at s [] rest) line (link_recv_of unread line rest e)
      ∙ rw h refl

  reads_last :
      (n : ℕ) (r : Reading) (unread line rest : Bytes)
      → next_of unread ≡ some (line, rest)
      → is_last (trim_newline line) ≡ true
      → reads (suc n) r unread ≡ some (sb_to_char r.sb_rslt, r.error, link_at s [] rest)
  reads_last n r unread line rest e h =
      reply_loop_round (Link D) (connector_channel database fuel pid) n r inbox
        (link_at s [] unread) (link_at s [] rest) line (link_recv_of unread line rest e)
      ∙ rw h refl

  -- A mark is a line of its own.
  reads-mark :
      (n : ℕ) (r : Reading) (failed : Bool) (which rest : Bytes)
      → contains b'\n' which ≡ false
      → length which ≤ 20
      → reads (suc n) r (mark failed which ++ b'\n' ∷ rest)
        ≡ reads n (read_line r (mark failed which)) rest
  reads-mark n r failed which rest hc hl =
      let (hn, hs, hm) = mark_facts failed which hc in
      let line = mark failed which in
      let trimmed = trim_newline-append line in
      reads_on_line n r (line ++ b'\n' ∷ rest) (line ++ newline) rest
        (next_line_one line rest (dbrelay_socket_bufsize - 1) hn (omega arith))
        (ap is_last trimmed ∙ hm)
      ∙ ap (λ l. reads n (read_line r l) rest) trimmed

  reads_ok :
      (n : ℕ) (r : Reading)
      → reads (suc n) r (codes ":OK\n") ≡ some (sb_to_char r.sb_rslt, r.error, link_at s [] [])
  unfolding contains is_last str_eq trim_newline
  reads_ok n r =
      reads_last n r (codes ":OK\n") (codes ":OK\n") []
        (next_line_one (codes ":OK") [] (dbrelay_socket_bufsize - 1)
          (NoNewline-of (codes ":OK") refl) (omega arith))
        refl

  reads-closing :
      (n : ℕ) (failed : Bool) (sb : StringBuf)
      → 1 < n
      → reads n (in_part failed sb) (closing failed)
        ≡ some (sb_to_char sb, error_code failed, link_at s [] [])
  unfolding contains
  reads-closing zero failed sb h = absurd (omega arith)
  reads-closing (suc zero) failed sb h = absurd (omega arith)
  reads-closing (suc (suc n)) failed sb h =
      reads-mark (suc n) (in_part failed sb) failed (codes "END") (codes ":OK\n") refl (omega arith)
      ∙ ap (λ r. reads (suc n) r (codes ":OK\n")) (read_line-end failed sb)
      ∙ reads_ok n _

  -- The lines of a part are put together.
  reads_part :
      (n : ℕ) (failed : Bool) (sb : StringBuf) {unread rest : Bytes} {ls : List Bytes}
      → Arrives unread ls rest
      → rest ≡ closing failed
      → All (λ l. IsPlain (trim_newline l)) ls
      → length ls + 1 < n
      → reads n (in_part failed sb) unread
        ≡ some (sb_to_char sb ++ glue ls, error_code failed, link_at s [] [])
  reads_part n failed sb (arrived u) at_end h hn =
      ap (reads n (in_part failed sb)) at_end
      ∙ reads-closing n failed sb (omega arith)
      ∙ ap (λ t. some (t, error_code failed, link_at s [] [])) (sym (append-nil (sb_to_char sb)))
  reads_part zero failed sb (arrives e more) at_end h hn = absurd (omega arith)
  reads_part (suc n) failed sb {unread} (arrives {line = line} {s' = s'} {ls = ls} e more) at_end h
        hn =
      let l = trim_newline line in
      reads_on_line n (in_part failed sb) unread line s' e h.0.0
      ∙ ap (λ r. reads n r s') (read_line-in_part failed sb l h.0)
      ∙ reads_part n failed (sb_put sb l) more at_end h.1 (omega arith)
      ∙ ap (λ t. some (t, error_code failed, link_at s [] []))
          (ap (λ t. t ++ glue ls) (sb_to_char-sb_append sb (some l))
            ∙ append_assoc (sb_to_char sb) l (glue ls))

  -- A whole answer of one line of text.
  pub reads_answer :
      (n : ℕ) (failed : Bool) (text : Bytes)
      → NoNewline text
      → EndsPlain text
      → length text + 3 < n
      → reads n before_answer
          (mark failed (codes "BEGIN") ++ b'\n' ∷ (text ++ b'\n' ∷ closing failed))
        ≡ some (text, error_code failed, link_at s [] [])
  unfolding contains
  reads_answer zero failed text hn hp h = absurd (omega arith)
  reads_answer (suc n) failed text hn hp h =
      let (ls, arriving, e, plain, few) =
        text-Delivered (length text) text (closing failed) (omega arith) hn hp in
      reads-mark n before_answer failed (codes "BEGIN") (text ++ b'\n' ∷ closing failed) refl
        (omega arith)
      ∙ ap (λ r. reads n r (text ++ b'\n' ∷ closing failed)) (read_line-begin failed)
      ∙ reads_part n failed (sb_new none) arriving refl plain (omega (arith, few))
      ∙ ap (λ t. some (t, error_code failed, link_at s [] []))
          (ap (λ t. t ++ glue ls) (sb_to_char-sb_new none) ∙ e)
