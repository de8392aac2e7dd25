-- ===== src/Exchange/Pieces.antt =====
-- A long line on the way to the client of src/client.c: the pieces in which it is received.
use ngx_dbrelay.Base.{
  ℕ, zero, suc, ◌+◌, ◌-◌, ◌≤◌, ◌<◌, ◌≡◌, ◌≢◌, refl, sym, ap, subst, ◌∙◌, false, List, [], ◌∷◌, ◌++◌,
  some, Bytes, codes, contains, str_eq, str_eq_iff, length, take, drop, All, arith, append-nil, ap₂,
  length-drop, take-append-drop, take_front, drop_front, length-take, ltb, Bool-cases, inl, inr,
  ltb→lt,
}
use ngx_dbrelay.Socket.{dbrelay_socket_bufsize, available}
use ngx_dbrelay.Socket.Lines.{next_line_long}
use ngx_dbrelay.Connector.{trim_newline}
use ngx_dbrelay.Connector.Commands.{trim_newline-append}
use ngx_dbrelay.Client.{is_last}
use ngx_dbrelay.Client.Replies.{IsPlain, glue}
use ngx_dbrelay.Exchange.{next_of}
use ngx_dbrelay.Exchange.Lines.{NoNewline, newline, next_line_one}

-- The lines in which the beginning of a stream is received, and the rest of it.
pub data Arrives : Bytes → List Bytes → Bytes → Type 0 where
  arrived : (s : Bytes) → Arrives s [] s
  arrives :
      {s line s' rest : Bytes} {ls : List Bytes}
      → next_of s ≡ some (line, s')
      → Arrives s' ls rest
      → Arrives s (line ∷ ls) rest

-- The last byte is not that of a mark or of a line that ends an answer.
abbrev pub EndsPlain : Bytes → Type 0
EndsPlain [] = Unit
EndsPlain (c ∷ []) = contains c (codes "NDKER") ≡ false
EndsPlain (c ∷ d ∷ s) = EndsPlain (d ∷ s)

EndsPlain-drop : (n : ℕ) (s : Bytes) → EndsPlain s → EndsPlain (drop n s)
EndsPlain-drop zero s h = h
EndsPlain-drop (suc n) [] h = tt
EndsPlain-drop (suc zero) (c ∷ []) h = tt
EndsPlain-drop (suc (suc n)) (c ∷ []) h = tt
EndsPlain-drop (suc n) (c ∷ d ∷ s) h = EndsPlain-drop n (d ∷ s) h

NoNewline-drop : (n : ℕ) (s : Bytes) → NoNewline s → NoNewline (drop n s)
NoNewline-drop zero s h = h
NoNewline-drop (suc n) [] h = tt
NoNewline-drop (suc n) (c ∷ s) h = NoNewline-drop n s h.1

NoNewline-take : (n : ℕ) (s : Bytes) → NoNewline s → NoNewline (take n s)
NoNewline-take zero s h = tt
NoNewline-take (suc n) [] h = tt
NoNewline-take (suc n) (c ∷ s) h = (h.0, NoNewline-take n s h.1)

trim_newline-NoNewline : (s : Bytes) → NoNewline s → trim_newline s ≡ s
unfolding trim_newline
trim_newline-NoNewline [] h = refl
trim_newline-NoNewline (c ∷ []) h = ground (arith, h.0)
trim_newline-NoNewline (c ∷ d ∷ s) h = ap (◌∷◌ c) (trim_newline-NoNewline (d ∷ s) h.1)

str_eq_ne : (a b : Bytes) → a ≢ b → str_eq a b ≡ false
str_eq_ne a b h = elim (Bool-cases (str_eq a b)) [
  | inl e ↦ absurd (h ((str_eq_iff a b).0 e))
  | inr e ↦ e
]

-- A line that has what no mark has is plain.
IsPlain-of :
    (P : Bytes → Type 0) (l : Bytes)
    → P l
    → ¬ P (codes ":BYE")
    → ¬ P (codes ":OK")
    → ¬ P (codes ":ERR")
    → ¬ P (codes ":RESULTS END")
    → ¬ P (codes ":ERROR END")
    → ¬ P (codes ":RESULTS BEGIN")
    → ¬ P (codes ":ERROR BEGIN")
    → IsPlain l
unfolding is_last
IsPlain-of P l h h1 h2 h3 h4 h5 h6 h7 = (
  rw (ne (codes ":BYE") h1, ne (codes ":OK") h2, ne (codes ":ERR") h3) refl,
  ne (codes ":RESULTS END") h4,
  ne (codes ":ERROR END") h5,
  ne (codes ":RESULTS BEGIN") h6,
  ne (codes ":ERROR BEGIN") h7,
)
  where
    ne : (mark : Bytes) → ¬ P mark → str_eq l mark ≡ false
    ne mark n = str_eq_ne l mark (λ e. n (subst P e h))

EndsPlain-IsPlain : (l : Bytes) → EndsPlain l → IsPlain l
unfolding contains
EndsPlain-IsPlain l h =
    IsPlain-of EndsPlain l h (λ e. ground arith) (λ e. ground arith) (λ e. ground arith)
      (λ e. ground arith) (λ e. ground arith) (λ e. ground arith) (λ e. ground arith)

IsPlain-long : (l : Bytes) → 20 < length l → IsPlain l
IsPlain-long l h =
    IsPlain-of (λ s. 20 < length s) l h (λ e. omega arith) (λ e. omega arith) (λ e. omega arith)
      (λ e. omega arith) (λ e. omega arith) (λ e. omega arith) (λ e. omega arith)

available-NoNewline : (s t : Bytes) → NoNewline s → length s ≤ available (s ++ t)
unfolding available
available-NoNewline [] t h = omega arith
available-NoNewline (c ∷ s) t h = ground (arith, available-NoNewline s t h.1)

-- The pieces of a text, which make it up again.
abbrev pub Delivered : Bytes → Bytes → Type 0
Delivered text rest =
    (ls : List Bytes) × Arrives (text ++ b'\n' ∷ rest) ls rest
    × (glue ls ≡ text)
    × All (λ l. IsPlain (trim_newline l)) ls
    × (length ls ≤ length text + 1)

abbrev cut : ℕ
cut = dbrelay_socket_bufsize - 1

next_of-long :
    (text rest : Bytes)
    → NoNewline text
    → cut ≤ length text
    → next_of (text ++ b'\n' ∷ rest) ≡ some (take cut text, drop cut text ++ b'\n' ∷ rest)
next_of-long text rest hn hl =
    next_line_long (text ++ b'\n' ∷ rest) cut
      (omega (arith, available-NoNewline text (b'\n' ∷ rest) hn))
    ∙ ap₂ (λ a b. some (a, b)) (take_front cut text (b'\n' ∷ rest) hl)
        (drop_front cut text (b'\n' ∷ rest) hl)

-- A text that is received whole.
short-Delivered :
    (text rest : Bytes) → NoNewline text → EndsPlain text → length text < cut → Delivered text rest
short-Delivered text rest hn hp short = (
  (text ++ newline) ∷ [],
  arrives (next_line_one text rest cut hn short) (arrived rest),
  append-nil _ ∙ trim_newline-append text,
  (subst IsPlain (sym (trim_newline-append text)) (EndsPlain-IsPlain text hp), tt),
  omega arith,
)

-- A text of which a piece is received first.
long-Delivered :
    (text rest : Bytes)
    → NoNewline text
    → cut ≤ length text
    → Delivered (drop cut text) rest
    → Delivered text rest
long-Delivered text rest hn hl (ls, arriving, e, plain, few) =
    let piece = take cut text in
    let whole : trim_newline piece ≡ piece =
      trim_newline-NoNewline piece (NoNewline-take cut text hn) in
    (
      piece ∷ ls,
      arrives (next_of-long text rest hn hl) arriving,
      ap₂ ◌++◌ whole e ∙ take-append-drop cut text,
      (
        subst IsPlain (sym whole) (IsPlain-long piece (omega (arith, length-take cut text hl))),
        plain,
      ),
      omega (arith, few, hl, length-drop cut text),
    )

-- A text without newlines, followed by one, is received in pieces that make it up again, and none of
-- them is taken for a mark.
pub text-Delivered :
    (fuel : ℕ) (text rest : Bytes)
    → length text ≤ fuel
    → NoNewline text
    → EndsPlain text
    → Delivered text rest
text-Delivered zero text rest h hn hp = short-Delivered text rest hn hp (omega arith)
text-Delivered (suc fuel) text rest h hn hp = elim (Bool-cases (ltb (length text) cut)) [
  | inl short ↦ short-Delivered text rest hn hp (ltb→lt _ _ short)
  | inr long ↦
      let hl : cut ≤ length text = ground arith in
      long-Delivered text rest hn hl (
        text-Delivered fuel (drop cut text) rest (omega (arith, length-drop cut text))
          (NoNewline-drop cut text hn) (EndsPlain-drop cut text hp))
]
