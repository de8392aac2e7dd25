-- ===== src/Query/Refusal.antt =====
-- The early returns of `dbrelay_db_run_query` of src/db.c: what a client reads of a request that is
-- refused.
use ngx_dbrelay.Base.{
  ℕ, ◌≡◌, refl, sym, ap, ◌∙◌, Bool, true, false, [], ◌∷◌, ◌++◌, ◌⊎◌, not, Option, none, some, Bytes,
  codes, is_set, if◌then◌else◌, Bool-cases, Option-cases, inl, inr,
}
use ngx_dbrelay.Request.{Request, has_flag, pp}
use ngx_dbrelay.Params.{dbrelay_check_request}
use ngx_dbrelay.Json.{
  Json, json_new, json_pretty_print, json_to_string, json_new_object, json_add_callback,
  json_end_callback, json_add_key, json_add_string, json_end_object,
}
use ngx_dbrelay.Json.Print.{Tree, obj, Fields, end, string_field, tree_field, lead, print_tree}
use ngx_dbrelay.Json.Writer.Trees.{
  write_tree, write_fields, document-print_tree, call_text, callback-call_text,
}
use ngx_dbrelay.Pool.{Connections}
use ngx_dbrelay.Results.{DbApi}
use ngx_dbrelay.Query.{
  Peer, add_if_set, dbrelay_append_request_json, dbrelay_write_json_log, dbrelay_db_restart_json,
  start_answer, end_answer, refuse, dbrelay_db_run_query,
}

abbrev pub set_field : Bytes → Bytes → Fields → Fields
set_field k v fs = if is_set v then string_field k v fs else fs

abbrev pub sql_field : Option Bytes → Fields → Fields
sql_field none fs = fs
sql_field (some sql) fs = string_field (codes "sql") sql fs

abbrev pub request_fields : Request → Fields
request_fields r = set_field (codes "query_tag") r.query_tag (
    string_field (codes "sql_server") r.sql_server (
      string_field (codes "sql_user") r.sql_user (
        set_field (codes "sql_port") r.sql_port
          (string_field (codes "sql_database") r.sql_database end))))

-- The document of a refusal: the request without its password, the statement and the reason.
abbrev pub refusal_tree : Request → Bytes → Tree
refusal_tree r message = obj (
    tree_field (codes "request") (obj (request_fields r)) (
      tree_field (codes "log") (obj (sql_field r.sql (string_field (codes "error") message end)))
        end))

write_fields-set_field :
    (k v : Bytes) (fs : Fields) (j : Json)
    → write_fields (set_field k v fs) j ≡ write_fields fs (add_if_set j k v)
unfolding write_tree
write_fields-set_field k [] fs j = refl
write_fields-set_field k (c ∷ v) fs j = refl

append_request-request_fields :
    (r : Request) (j : Json)
    → dbrelay_append_request_json j r
      ≡ write_fields (tree_field (codes "request") (obj (request_fields r)) end) j
unfolding dbrelay_append_request_json write_tree
append_request-request_fields r j =
    let database = string_field (codes "sql_database") r.sql_database end in
    let port = set_field (codes "sql_port") r.sql_port database in
    let user = string_field (codes "sql_user") r.sql_user port in
    let server = string_field (codes "sql_server") r.sql_server user in
    let opened = json_new_object (json_add_key j (codes "request")) in
    let tagged = add_if_set opened (codes "query_tag") r.query_tag in
    let served = json_add_string tagged (codes "sql_server") r.sql_server in
    let used = json_add_string served (codes "sql_user") r.sql_user in
    ap json_end_object (
      sym (
        write_fields-set_field (codes "query_tag") r.query_tag server opened
        ∙ write_fields-set_field (codes "sql_port") r.sql_port database used))

write_json_log-sql_field :
    (r : Request) (message : Bytes) (j : Json)
    → dbrelay_write_json_log j r message
      ≡ json_end_object (
          write_fields
            (tree_field
              (codes "log")
              (obj (sql_field r.sql (string_field (codes "error") message end)))
              end)
            j)
unfolding dbrelay_write_json_log write_tree
write_json_log-sql_field r message j = elim (Option-cases r.sql) [
  | inl no_sql ↦ rw no_sql refl
  | inr (sql, e) ↦ rw e refl
]

log-refusal_tree :
    (r : Request) (message : Bytes) (j : Json)
    → dbrelay_write_json_log (dbrelay_append_request_json (json_new_object j) r) r message
      ≡ write_tree (refusal_tree r message) j
unfolding write_tree
log-refusal_tree r message j =
    write_json_log-sql_field r message (dbrelay_append_request_json (json_new_object j) r)
    ∙ ap
        (λ (x : Json). json_end_object (
          write_fields
            (tree_field (codes "log")
              (obj (sql_field r.sql (string_field (codes "error") message end))) end)
            x))
        (append_request-request_fields r (json_new_object j))

-- What a client reads of a refusal: the compact document in a call of `js_error` if the request has
-- that, else the document in the style of the request, in a call of `js_callback` if it has that.
abbrev pub refusal_text : Request → Bytes → Bytes
refusal_text r message =
    let style = has_flag r.flags pp in
    if is_set r.js_error
    then call_text r.js_error (lead false 0 false ++ print_tree false 0 (refusal_tree r message))
    else if is_set r.js_callback
    then call_text r.js_callback (lead style 0 false ++ print_tree style 0 (refusal_tree r message))
    else lead style 0 false ++ print_tree style 0 (refusal_tree r message)

styled :
    (b : Bool)
    → (if b then json_pretty_print json_new true else json_new) ≡ json_pretty_print json_new b
unfolding json_pretty_print json_new
styled true = refl
styled false = refl

-- A refusal that is written in the call `open` makes, and closed by `close`.
told :
    (r : Request) (message : Bytes) (start : Json) (close : Json → Json)
    → json_to_string (
        close (
          dbrelay_write_json_log (dbrelay_append_request_json (json_new_object start) r) r message))
      ≡ json_to_string (close (write_tree (refusal_tree r message) start))
told r message start close =
    ap (λ (x : Json). json_to_string (close x)) (log-refusal_tree r message start)

start_plain :
    (r : Request)
    → is_set r.js_callback ≡ false
    → start_answer r
      ≡ dbrelay_append_request_json
          (json_new_object (json_pretty_print json_new (has_flag r.flags pp)))
          r
unfolding start_answer
start_plain r h =
    rw (h, start_answer)
      (ap (λ (x : Json). dbrelay_append_request_json (json_new_object x) r)
        (styled (has_flag r.flags pp)))

start_called :
    (r : Request)
    → is_set r.js_callback ≡ true
    → start_answer r
      ≡ dbrelay_append_request_json
          (json_new_object
            (json_add_callback (json_pretty_print json_new (has_flag r.flags pp)) r.js_callback))
          r
unfolding start_answer
start_called r h =
    rw (h, start_answer)
      (ap
        (λ (x : Json).
          dbrelay_append_request_json (json_new_object (json_add_callback x r.js_callback)) r)
        (styled (has_flag r.flags pp)))

refuse_restarted :
    (r : Request) (message : Bytes) (j : Json)
    → is_set r.js_error ≡ true
    → refuse r j message
      ≡ json_to_string (
          json_end_callback (
            dbrelay_write_json_log
              (dbrelay_append_request_json
                (json_new_object (json_add_callback json_new r.js_error))
                r)
              r
              message))
unfolding refuse end_answer dbrelay_db_restart_json
refuse_restarted r message j h = elim (Bool-cases (is_set r.js_callback)) [
  | inl callback ↦ rw (h, callback, refuse) refl
  | inr bare ↦ rw (h, bare, refuse) refl
]

refuse_called :
    (r : Request) (message : Bytes) (j : Json)
    → is_set r.js_error ≡ false
    → is_set r.js_callback ≡ true
    → refuse r j message ≡ json_to_string (json_end_callback (dbrelay_write_json_log j r message))
unfolding refuse end_answer dbrelay_db_restart_json
refuse_called r message j h callback = rw (h, callback, refuse) refl

refuse_plain :
    (r : Request) (message : Bytes) (j : Json)
    → is_set r.js_error ≡ false
    → is_set r.js_callback ≡ false
    → refuse r j message ≡ json_to_string (dbrelay_write_json_log j r message)
unfolding refuse end_answer dbrelay_db_restart_json
refuse_plain r message j h bare = rw (h, bare, refuse) refl

refuse-refusal_text :
    (r : Request) (message : Bytes) → refuse r (start_answer r) message ≡ refusal_text r message
unfolding json_new json_pretty_print
refuse-refusal_text r message = elim (Bool-cases (is_set r.js_error)) [
  | inl on_error ↦
      rw (refuse_restarted r message (start_answer r) on_error, on_error)
        (told r message (json_add_callback json_new r.js_error) json_end_callback
          ∙ callback-call_text false r.js_error (refusal_tree r message))
  | inr plain ↦ elim (Bool-cases (is_set r.js_callback)) [
    | inl callback ↦
        rw
          (
            refuse_called r message (start_answer r) plain callback,
            start_called r callback,
            plain,
            callback,
          )
          (told r message
              (json_add_callback (json_pretty_print json_new (has_flag r.flags pp)) r.js_callback)
              json_end_callback
            ∙ callback-call_text (has_flag r.flags pp) r.js_callback (refusal_tree r message))
    | inr bare ↦
        rw (refuse_plain r message (start_answer r) plain bare, start_plain r bare, plain, bare)
          (told r message (json_pretty_print json_new (has_flag r.flags pp)) (λ x. x)
            ∙ document-print_tree (has_flag r.flags pp) (refusal_tree r message))
  ]
]

-- A request that lacks its statement, its server or its user.
abbrev pub Incomplete : Request → Type 0
Incomplete r = (r.sql ≡ none) ⊎ ((r.sql_server ≡ []) ⊎ (r.sql_user ≡ []))

check_request-Incomplete : (r : Request) → Incomplete r → dbrelay_check_request r ≡ false
unfolding dbrelay_check_request
check_request-Incomplete r (inl no_sql) = rw no_sql refl
check_request-Incomplete r (inr (inl no_server)) = go r.sql
  where
    go :
        (o : Option Bytes)
        → (elim o as (λ x. Bool) [
          | none ↦ false
          | some sql ↦
              if not (is_set r.sql_server)
              then false
              else if not (is_set r.sql_user)
              then false
              else true
        ])
          ≡ false
    go none = refl
    go (some sql) = rw no_server refl
check_request-Incomplete r (inr (inr no_user)) = go r.sql (is_set r.sql_server)
  where
    go :
        (o : Option Bytes) (b : Bool)
        → (elim o as (λ x. Bool) [
          | none ↦ false
          | some sql ↦ if not b then false else if not (is_set r.sql_user) then false else true
        ])
          ≡ false
    go none b = refl
    go (some sql) false = refl
    go (some sql) true = rw no_user refl

-- A request without a statement, a server or a user is refused: the pool is left as it was, nothing
-- is asked of the world, and the answer is the document of the refusal, compact in a call of
-- `js_error` if the request has one, else in its own style and in a call of `js_callback` if it
-- has one.
pub dbrelay_db_run_query-refusal_text :
    {D : Type 0} (api : DbApi D) (fuel : ℕ) (magic : Bytes) (peer : Peer D) (request : Request)
    (cs : Connections)
    → Incomplete request
    → dbrelay_db_run_query api fuel magic peer request cs
      ≡ some (record {
        answer = refusal_text request (codes "Not all required parameters submitted.");
        connections = cs;
        effects = [];
      })
unfolding dbrelay_db_run_query
dbrelay_db_run_query-refusal_text api fuel magic peer request cs h =
    rw (check_request-Incomplete request h, dbrelay_db_run_query)
      (ap (λ (text : Bytes). some (record { answer = text; connections = cs; effects = [] }))
        (refuse-refusal_text request (codes "Not all required parameters submitted.")))
