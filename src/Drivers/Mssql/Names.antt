-- ===== src/Drivers/Mssql/Names.antt =====
-- Names of tables in src/mssql.c: how `split_tablename` takes a name apart.
use ngx_dbrelay.Base.{
  ℕ, ◌+◌, ◌-◌, ◌≡◌, refl, sym, ap, ap₂, ◌∙◌, true, false, [], ◌∷◌, ◌++◌, Option, none, some, Bytes,
  codes, contains, length, take, drop, arith, length-append, take_exact, drop-drop, append_assoc,
}
use ngx_dbrelay.Params.Split.{drop-append}
use ngx_dbrelay.Drivers.Mssql.{dot_loop, strip_quotes, split_tablename}

-- A part of a name as it is written: plain, in brackets, or in quotes.
pub data Part : Type 0 where
  plain bracketed quoted : Bytes → Part

abbrev pub text : Part → Bytes
text (plain s) = s
text (bracketed s) = s
text (quoted s) = s

abbrev pub written : Part → Bytes
written (plain s) = s
written (bracketed s) = b'[' ∷ s ++ codes "]"
written (quoted s) = b'"' ∷ s ++ codes "\""

-- No byte is one of those listed.
abbrev pub Avoids : Bytes → Bytes → Type 0
Avoids marks [] = Unit
Avoids marks (c ∷ s) = (contains c marks ≡ false) × Avoids marks s

-- What a part may hold: a plain one no dot, quote or opening bracket, one in brackets no quote or closing
-- bracket, one in quotes no quote or opening bracket.
abbrev pub IsPart : Part → Type 0
IsPart (plain s) = Avoids (codes ".\"[") s
IsPart (bracketed s) = Avoids (codes "\"]") s
IsPart (quoted s) = Avoids (codes "\"[") s

-- The marks that the loop passes over, in each of its states.
dot_loop_plain :
    (s t : Bytes) (i : ℕ)
    → Avoids (codes ".\"[") s
    → dot_loop false false i (s ++ t) ≡ dot_loop false false (i + length s) t
unfolding dot_loop contains
dot_loop_plain [] t i h = ap (λ k. dot_loop false false k t) {x = i} {y = i + 0} (omega arith)
dot_loop_plain (c ∷ s) t i h = ground (arith, dot_loop_plain s t (i + 1) h.1)

dot_loop_bracketed :
    (s t : Bytes) (i : ℕ)
    → Avoids (codes "\"]") s
    → dot_loop false true i (s ++ t) ≡ dot_loop false true (i + length s) t
unfolding dot_loop contains
dot_loop_bracketed [] t i h = ap (λ k. dot_loop false true k t) {x = i} {y = i + 0} (omega arith)
dot_loop_bracketed (c ∷ s) t i h = ground (arith, dot_loop_bracketed s t (i + 1) h.1)

dot_loop_quoted :
    (s t : Bytes) (i : ℕ)
    → Avoids (codes "\"[") s
    → dot_loop true false i (s ++ t) ≡ dot_loop true false (i + length s) t
unfolding dot_loop contains
dot_loop_quoted [] t i h = ap (λ k. dot_loop true false k t) {x = i} {y = i + 0} (omega arith)
dot_loop_quoted (c ∷ s) t i h = ground (arith, dot_loop_quoted s t (i + 1) h.1)

-- The loop passes over a whole part.
dot_loop-written :
    (a : Part) (t : Bytes)
    → IsPart a
    → dot_loop false false 0 (written a ++ t) ≡ dot_loop false false (length (written a)) t
unfolding dot_loop
dot_loop-written (plain s) t h =
    dot_loop_plain s t 0 h
    ∙ ap (λ k. dot_loop false false k t) {x = 0 + length s} {y = length s} (omega arith)
dot_loop-written (bracketed s) t h =
    ap (dot_loop false true 1) (append_assoc s (codes "]") t)
    ∙ dot_loop_bracketed s (b']' ∷ t) 1 h
    ∙ ap (λ k. dot_loop false false k t) {x = 1 + length s + 1} {y = length (b'[' ∷ s ++ codes "]")}
        (omega (arith, length-append s (codes "]")))
dot_loop-written (quoted s) t h =
    ap (dot_loop true false 1) (append_assoc s (codes "\"") t)
    ∙ dot_loop_quoted s (b'"' ∷ t) 1 h
    ∙ ap (λ k. dot_loop false false k t) {x = 1 + length s + 1}
        {y = length (b'"' ∷ s ++ codes "\"")} (omega (arith, length-append s (codes "\"")))

take_inner : (s end : Bytes) → length end ≡ 1 → take (length (s ++ end) - 1) (s ++ end) ≡ s
take_inner s end e =
    ap (λ k. take k (s ++ end)) (omega (arith, length-append s end)) ∙ take_exact s end

-- What is left of a part.
strip_quotes-written : (a : Part) → IsPart a → strip_quotes (written a) ≡ text a
unfolding strip_quotes contains
strip_quotes-written (plain []) h = refl
strip_quotes-written (plain (c ∷ s)) h = ground arith
strip_quotes-written (bracketed s) h = take_inner s (codes "]") refl
strip_quotes-written (quoted s) h = take_inner s (codes "\"") refl

drop_behind : (s t : Bytes) (c : ℕ) → drop (length s + 1) (s ++ c ∷ t) ≡ t
drop_behind s t c = sym (drop-drop (length s) 1 (s ++ c ∷ t)) ∙ ap (drop 1) (drop-append s (c ∷ t))

-- A name of two parts, each plain, in brackets or in quotes, is taken apart into the texts of the two,
-- if a plain part has no dot, quote or opening bracket, one in brackets no quote or closing bracket,
-- and one in quotes no quote or opening bracket.
pub split_tablename-written :
    (a b : Part)
    → IsPart a
    → IsPart b
    → split_tablename (written a ++ b'.' ∷ written b) ≡ (text a, text b)
unfolding split_tablename dot_loop
split_tablename-written a b ha hb =
    let orig = written a ++ b'.' ∷ written b in
    ap
      (λ (o : Option ℕ). elim o as (λ x. Bytes × Bytes) [
        | none ↦ ([], orig)
        | some n ↦ (strip_quotes (take n orig), strip_quotes (drop (n + 1) orig))
      ])
      (dot_loop-written a (b'.' ∷ written b) ha)
    ∙ ap₂ (λ x y. (strip_quotes x, strip_quotes y)) (take_exact (written a) (b'.' ∷ written b))
        (drop_behind (written a) (written b) b'.')
    ∙ ap₂ (λ x y. (x, y)) (strip_quotes-written a ha) (strip_quotes-written b hb)
