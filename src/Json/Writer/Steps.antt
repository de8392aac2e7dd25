-- ===== src/Json/Writer/Steps.antt =====
-- What each call of the writer in src/json.c does to the text and to the state, on a well-formed
-- state.
use ngx_dbrelay.Base.{
  ℕ, zero, suc, ◌≡◌, refl, sym, ap, ◌∙◌, Bool, true, false, List, ◌∷◌, ◌++◌, some, arith,
  append_assoc, append-nil, Bytes, codes, Bool-cases, inl, inr,
}
use ngx_dbrelay.Base.Int.{pos, negsuc, ◌+ℤ◌}
use ngx_dbrelay.StringBuf.Laws.{sb_to_char-sb_append}
use ngx_dbrelay.Json.Print.{pretty, indent_rounds, indent, lead}
use ngx_dbrelay.Json.{
  Json, Node, NodeType, json_to_string, append, append_pretty, json_tab, tab_rounds, rounds_of,
  has_items, count_item, json_push, separate, enter, pop_node, leave,
}

-- The writer has written `out`, at nesting level `d`, with the open brackets `st`; `waits` if a key
-- waits for its value.
pub record Shows (j : Json) (pp : Bool) (d : ℕ) (st : List Node) (waits : Bool) (out : Bytes)
    : Type 0 where
  pub text : json_to_string j ≡ out
  pub style : j.prettyprint ≡ pp
  pub level : j.tab_level ≡ pos d
  pub open_nodes : j.stack ≡ st
  pub waiting : j.pending ≡ waits

json_to_string-append : (j : Json) (s : Bytes) → json_to_string (append j s) ≡ json_to_string j ++ s
unfolding json_to_string append
json_to_string-append j s = sb_to_char-sb_append j.sb (some s)

module _ {j : Json} {pp : Bool} {d : ℕ} {st : List Node} {waits : Bool} {out : Bytes} where
  pub reshow : {out' : Bytes} → out ≡ out' → Shows j pp d st waits out → Shows j pp d st waits out'
  reshow e h = rw (← e) h

  pub append-Shows :
      (s : Bytes) → Shows j pp d st waits out → Shows (append j s) pp d st waits (out ++ s)
  append-Shows s h = record {
    text = json_to_string-append j s ∙ ap (λ o. o ++ s) h.text;
    style = unfold append in h.style;
    level = unfold append in h.level;
    open_nodes = unfold append in h.open_nodes;
    waiting = unfold append in h.waiting;
  }

append_pretty_on : (j : Json) (s : Bytes) → j.prettyprint ≡ true → append_pretty j s ≡ append j s
unfolding append_pretty
append_pretty_on j s h = simp h

append_pretty_off : (j : Json) (s : Bytes) → j.prettyprint ≡ false → append_pretty j s ≡ j
unfolding append_pretty
append_pretty_off j s h = simp h

pub append_pretty-Shows :
    {j : Json} {pp : Bool} {d : ℕ} {st : List Node} {waits : Bool} {out : Bytes} (s : Bytes)
    → Shows j pp d st waits out
    → Shows (append_pretty j s) pp d st waits (out ++ pretty pp s)
append_pretty-Shows {j} {pp = true} s h = rw (append_pretty_on j s h.style) (append-Shows s h)
append_pretty-Shows {j} {pp = false} {out = o} s h =
    rw (append_pretty_off j s h.style) (reshow (sym (append-nil o)) h)

tab_rounds-Shows :
    (n : ℕ) {j : Json} {pp : Bool} {d : ℕ} {st : List Node} {waits : Bool} {out : Bytes}
    → Shows j pp d st waits out
    → Shows (tab_rounds n j) pp d st waits (out ++ indent_rounds n)
unfolding tab_rounds
tab_rounds-Shows zero {out = o} h = reshow (sym (append-nil o)) h
tab_rounds-Shows (suc n) {out = o} h =
    reshow (append_assoc o _ _) (tab_rounds-Shows n (append-Shows (codes "   ") h))

json_tab_on :
    (j : Json) (d : ℕ) → j.prettyprint ≡ true → j.tab_level ≡ pos d → json_tab j ≡ tab_rounds d j
unfolding json_tab rounds_of
json_tab_on j d h k = simp (h, k)

json_tab_off : (j : Json) → j.prettyprint ≡ false → json_tab j ≡ j
unfolding json_tab
json_tab_off j h = simp h

pub json_tab-Shows :
    {j : Json} {pp : Bool} {d : ℕ} {st : List Node} {waits : Bool} {out : Bytes}
    → Shows j pp d st waits out
    → Shows (json_tab j) pp d st waits (out ++ indent pp d)
json_tab-Shows {j} {pp = true} {d} h = rw (json_tab_on j d h.style h.level) (tab_rounds-Shows d h)
json_tab-Shows {j} {pp = false} {out = o} h =
    rw (json_tab_off j h.style) (reshow (sym (append-nil o)) h)

separate_more :
    (j : Json)
    → has_items j.stack ≡ true
    → j.pending ≡ false
    → separate j ≡ json_tab (append_pretty (append j (codes ",")) (codes "\n"))
unfolding separate
separate_more j h k = simp (h, k)

separate_first :
    (j : Json) → has_items j.stack ≡ false → j.pending ≡ false → separate j ≡ json_tab j
unfolding separate
separate_first j h k = simp (h, k)

-- In front of an item, where no key waits.
pub separate-Shows :
    {j : Json} {pp : Bool} {d : ℕ} {st : List Node} {out : Bytes}
    → Shows j pp d st false out
    → Shows (separate j) pp d st false (out ++ lead pp d (has_items st))
separate-Shows {j} {pp} {d} {st} {out} h = elim (Bool-cases (has_items st)) [
  | inl more ↦
      rw (separate_more j (ap has_items h.open_nodes ∙ more) h.waiting, more)
        (reshow (simp append_assoc)
          (json_tab-Shows (append_pretty-Shows (codes "\n") (append-Shows (codes ",") h))))
  | inr first ↦
      rw (separate_first j (ap has_items h.open_nodes ∙ first) h.waiting, first) (json_tab-Shows h)
]

-- Behind a key nothing is written.
pub separate_waiting :
    {j : Json} {pp : Bool} {d : ℕ} {st : List Node} {out : Bytes}
    → Shows j pp d st true out
    → separate j ≡ j
unfolding separate
separate_waiting h = simp h.waiting

-- The record updates of the writer that leave the text alone.
counted-Shows :
    {j : Json} {pp : Bool} {d : ℕ} {st : List Node} {waits : Bool} {out : Bytes} (t : NodeType)
    → Shows j pp d st waits out
    → Shows
        (record j {
          tab_level = j.tab_level +ℤ pos 1;
          stack = record { node_type = t; num_items = 0 } ∷ count_item j.stack;
          pending = false;
        })
        pp
        (suc d)
        (record { node_type = t; num_items = 0 } ∷ count_item st)
        false
        out
unfolding json_to_string
counted-Shows {j} {d} t h = record {
  text = h.text;
  style = h.style;
  level = ap (λ l. l +ℤ pos 1) h.level ∙ unfold ◌+ℤ◌ in ground arith;
  open_nodes = ap (λ s. record { node_type = t; num_items = 0 } ∷ count_item s) h.open_nodes;
  waiting = refl;
}

pub enter-Shows :
    {j : Json} {pp : Bool} {d : ℕ} {st : List Node} {waits : Bool} {out : Bytes} (t : NodeType)
    (bracket : Bytes)
    → Shows j pp d st waits out
    → Shows
        (enter t bracket j)
        pp
        (suc d)
        (record { node_type = t; num_items = 0 } ∷ count_item st)
        false
        (out ++ bracket ++ pretty pp (codes "\n"))
unfolding enter json_push
enter-Shows t bracket h =
    counted-Shows t (append_pretty-Shows (codes "\n") (append-Shows bracket h))

dedent-Shows :
    {j : Json} {pp : Bool} {d : ℕ} {st : List Node} {waits : Bool} {out : Bytes}
    → Shows j pp (suc d) st waits out
    → Shows (record j { tab_level = j.tab_level +ℤ negsuc 0 }) pp d st waits out
unfolding json_to_string
dedent-Shows {j} {d} h = record {
  text = h.text;
  style = h.style;
  level = ap (λ l. l +ℤ negsuc 0) h.level ∙ unfold ◌+ℤ◌ in ground arith;
  open_nodes = h.open_nodes;
  waiting = h.waiting;
}

pop-Shows :
    {j : Json} {pp : Bool} {d : ℕ} {st : List Node} {n : Node} {waits : Bool} {out : Bytes}
    → Shows j pp d (n ∷ st) waits out
    → Shows (record j { stack = pop_node j.stack }) pp d st waits out
unfolding json_to_string
pop-Shows {j} h = record {
  text = h.text;
  style = h.style;
  level = h.level;
  open_nodes = ap pop_node h.open_nodes ∙ unfold pop_node in refl;
  waiting = h.waiting;
}

pub leave-Shows :
    {j : Json} {pp : Bool} {d : ℕ} {st : List Node} {n : Node} {waits : Bool} {out : Bytes}
    (bracket : Bytes)
    → Shows j pp (suc d) (n ∷ st) waits out
    → Shows
        (leave bracket j)
        pp
        d
        st
        waits
        (out ++ pretty pp (codes "\n") ++ indent pp d ++ bracket)
unfolding leave
leave-Shows {n} bracket h =
    pop-Shows {n = n}
      (append-Shows bracket (json_tab-Shows (append_pretty-Shows (codes "\n") (dedent-Shows h))))

pub recount-Shows :
    {j : Json} {pp : Bool} {d : ℕ} {st : List Node} {waits : Bool} {out : Bytes}
    → Shows j pp d st waits out
    → Shows (record j { stack = count_item j.stack }) pp d (count_item st) waits out
unfolding json_to_string
recount-Shows h = record {
  text = h.text;
  style = h.style;
  level = h.level;
  open_nodes = ap count_item h.open_nodes;
  waiting = h.waiting;
}

pub wait-Shows :
    {j : Json} {pp : Bool} {d : ℕ} {st : List Node} {waits : Bool} {out : Bytes} (waits' : Bool)
    → Shows j pp d st waits out
    → Shows (record j { pending = waits' }) pp d st waits' out
unfolding json_to_string
wait-Shows waits' h = record {
  text = h.text;
  style = h.style;
  level = h.level;
  open_nodes = h.open_nodes;
  waiting = refl;
}
