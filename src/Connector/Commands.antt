-- ===== src/Connector/Commands.antt =====
-- What the connector of src/connector.c makes of the lines that its client sends.
use ngx_dbrelay.Base.{
  ℕ, suc, ◌+◌, ◌≤◌, ◌≡◌, refl, sym, ap, ◌∙◌, true, false, not, ◌&&◌, ◌||◌, List, [], ◌∷◌, ◌++◌,
  Option, none, some, Bytes, codes, length, drop, starts_with, ltb, if◌then◌else◌, arith,
  Bool-cases, lt→ltb, length-append, append_assoc, inl, inr,
}
use ngx_dbrelay.Request.{dbrelay_copy_string}
use ngx_dbrelay.StringBuf.{sb_put}
use ngx_dbrelay.Params.Split.{drop-append}
use ngx_dbrelay.Connector.{
  Reply, Session, err, cont, check_command, argument, trim_newline, first_command, process_command,
  process_line, commands,
}

starts_with_long : (p s : Bytes) → starts_with p s ≡ true → length p ≤ length s
unfolding starts_with
starts_with_long [] s h = omega arith
starts_with_long (x ∷ p) [] h = absurd (ground arith)
starts_with_long (x ∷ p) (y ∷ s) h = ground (arith, starts_with_long p s)

-- The test of the length is part of the test of the name.
check_command-starts_with :
    (c : ℕ) (line command : Bytes) → check_command (c ∷ line) command ≡ starts_with command line
unfolding check_command
check_command-starts_with c line command = elim (Bool-cases (starts_with command line)) [
  | inl h ↦ ground (arith, starts_with_long command line h)
  | inr h ↦ ground arith
]

pub trim_newline-append : (s : Bytes) → trim_newline (s ++ b'\n' ∷ []) ≡ s
unfolding trim_newline
trim_newline-append [] = refl
trim_newline-append (c ∷ []) = refl
trim_newline-append (c ∷ d ∷ s) = ap (◌∷◌ c) (trim_newline-append (d ∷ s))

-- The first command that a line starts with.
abbrev pub first_match {ℓ} : {A : Type ℓ} → Bytes → List (Bytes × A) → Option A
first_match line [] = none
first_match line ((command, a) ∷ rest) =
    if starts_with command line then some a else first_match line rest

first_command-first_match {ℓ} :
    {A : Type ℓ} (c : ℕ) (line : Bytes) (table : List (Bytes × A))
    → first_command (c ∷ line) table ≡ first_match line table
unfolding first_command
first_command-first_match c line [] = refl
first_command-first_match c line ((command, a) ∷ rest) =
    rw (check_command-starts_with c line command, first_command-first_match c line rest) refl

-- What a command is answered with, by the first name in the table that it starts with.
abbrev pub outcome :
    {D : Type 0} → Session D → Option (Option (Reply × Session D)) → Option (Reply × Session D)
outcome s none = some (err, s)
outcome s (some result) = result

drop_argument : (c b : ℕ) (command v : Bytes) → drop (length command + 2) (c ∷ command ++ b ∷ v) ≡ v
drop_argument c b command v =
    ap (λ n. drop n (c ∷ command ++ b ∷ v)) {x = length command + 2}
      {y = suc (length (command ++ b ∷ []))} (omega (arith, length-append command (b ∷ [])))
    ∙ ap (drop (length (command ++ b ∷ []))) (sym (append_assoc command (b ∷ []) v))
    ∙ drop-append (command ++ b ∷ []) v

pub argument_value :
    (c b : ℕ) (command v : Bytes) (sz : ℕ)
    → argument (c ∷ command ++ b ∷ v) command sz ≡ some (dbrelay_copy_string v sz)
unfolding argument
argument_value c b command v sz =
    let long : ltb (length command + 1) (length (c ∷ command ++ b ∷ v)) ≡ true =
      lt→ltb _ _ (omega (arith, length-append command (b ∷ v))) in
    rw (long, drop_argument c b command v) refl

module _ {D : Type 0} where
  -- Outside a statement a line is a command.
  process_line-process_command :
      (s : Session D) (line : Bytes)
      → s.receive_sql ≡ false
      → process_line s line ≡ process_command s line
  unfolding process_line
  process_line-process_command s line h =
      ap
        (λ b.
          if b && (ltb (length line) 8 || not (starts_with (codes ":SQL END") line))
          then (elim s.sb_sql as (λ o. Option (Reply × Session D)) [
            | none ↦ none
            | some sb ↦ some (cont, record s { sb_sql = some (sb_put sb line) })
          ])
          else process_command s line)
        h

  pub process_command-outcome :
      (s : Session D) (l : Bytes)
      → process_command s (b':' ∷ l ++ b'\n' ∷ [])
        ≡ outcome s (first_match l (commands s (b':' ∷ l)))
  unfolding process_command
  process_command-outcome s l =
      let long : ltb (length (b':' ∷ l ++ b'\n' ∷ [])) 1 ≡ false = ground arith in
      rw
        (
          long,
          trim_newline-append (b':' ∷ l),
          first_command-first_match b':' l (commands s (b':' ∷ l)),
        )
        (go (first_match l (commands s (b':' ∷ l))))
    where
      go :
          (r : Option (Option (Reply × Session D)))
          → (elim r [ none ↦ some (err, s) | some result ↦ result ]) ≡ outcome s r
      go none = refl
      go (some result) = refl

  pub process_line-outcome :
      (s : Session D) (l : Bytes)
      → s.receive_sql ≡ false
      → process_line s (b':' ∷ l ++ b'\n' ∷ []) ≡ outcome s (first_match l (commands s (b':' ∷ l)))
  process_line-outcome s l h = process_line-process_command s _ h ∙ process_command-outcome s l
