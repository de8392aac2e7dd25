-- ===== src/Connector/Waiting.antt =====
-- The wait for a client in `main` of src/connector.c.
use ngx_dbrelay.Base.{ℕ, ◌≡◌, refl, List, [], ◌∷◌}
use ngx_dbrelay.Base.Int.{pos}
use ngx_dbrelay.Connector.Serving.{
  Accepted, accept_failed, accept_timed_out, accepted, Wait, connected_to, still, accept_loop,
  wait_for_client,
}

-- The first call that does not time out.
abbrev pub first_call : List (Accepted × ℕ) → Wait
first_call [] = still
first_call ((accept_timed_out, now) ∷ rest) = first_call rest
first_call ((accept_failed, now) ∷ rest) = connected_to accept_failed
first_call ((accepted, now) ∷ rest) = connected_to accepted

-- Without a connection timeout the wait ends with the first call that does not time out, whether it
-- succeeded or failed: the count of failures never reaches the limit at which the process would end.
pub wait_for_client-first_call :
    (last_accessed : ℕ) (calls : List (Accepted × ℕ))
    → wait_for_client (pos 0) last_accessed calls ≡ first_call calls
unfolding wait_for_client accept_loop
wait_for_client-first_call last_accessed [] = refl
wait_for_client-first_call last_accessed ((accept_timed_out, now) ∷ rest) =
    wait_for_client-first_call last_accessed rest
wait_for_client-first_call last_accessed ((accept_failed, now) ∷ rest) = refl
wait_for_client-first_call last_accessed ((accepted, now) ∷ rest) = refl
