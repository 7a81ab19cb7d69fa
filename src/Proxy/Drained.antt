-- ===== src/Proxy/Drained.antt =====
-- crates/pqc-proxy/src/proxy.rs: the handlers that wait come to their ends.
use pqc_gateway.Common.{
  ap, refl, ◌∙◌, map, suc, panic, ℕ, ◌≡◌, List, [], ◌∷◌, Bytes, Str, Outcome, done, Result, length,
}
use pqc_gateway.Proxy.{Outside, ProxyState, Response}
use pqc_gateway.Proxy.Admission.{Forward}
use pqc_gateway.Proxy.Answers.{answer_body-IsSound, complete-IsSound}
use pqc_gateway.Proxy.Completion.{
  Answer, responded, failed, timed_out, tell_status, count_request, answer_body, complete,
}
use pqc_gateway.Proxy.Sound.{IsSound, EndsSound}
use pqc_gateway.Proxy.Runs.{
  Waiting, sent, reading, heard, broken, late, answered, Reach, stay, then_,
}

module _ (o : Outside) where
  open o use {cr, ht, fl}

  -- How a waiting handler ends: the time, the duration and the answer that the upstream gives to one
  -- that waits for it, or the body, read or not, of one that reads it.
  pub data Ending : Type 0 where
    of_sent : Forward o → ℕ → ℕ → Answer o → Ending
    of_reading : Forward o → ℕ → ht.Headers → Result Bytes Str → Ending

  abbrev pub waiting : Ending → Waiting o
  waiting (of_sent f now duration_ms a) = sent f
  waiting (of_reading f status h read) = reading f status h

  abbrev pub end_ : ProxyState o → Ending → Outcome (ProxyState o × Response o)
  end_ s (of_sent f now duration_ms a) = complete o now duration_ms s f a
  end_ s (of_reading f status h read) = answer_body o s f status h read

  abbrev pub end_next :
      Outcome (ProxyState o × List (Response o))
      → Response o
      → Outcome (ProxyState o × List (Response o))
  end_next panic r = panic
  end_next (done (s, rs)) r = done (s, r ∷ rs)

  abbrev pub end_then :
      Outcome (ProxyState o × Response o)
      → (ProxyState o → Outcome (ProxyState o × List (Response o)))
      → Outcome (ProxyState o × List (Response o))
  end_then panic rest = panic
  end_then (done (s, r)) rest = end_next (rest s) r

  -- Handlers that end one after another: the state and the responses that they send.
  unfoldable pub end_all : ProxyState o → List Ending → Outcome (ProxyState o × List (Response o))
  end_all s [] = done (s, [])
  end_all s (e ∷ es) = end_then (end_ s e) (λ s'. end_all s' es)

  end_total : (s : ProxyState o) (e : Ending) → IsSound o s → EndsSound o (end_ s e)
  end_total s (of_sent f now duration_ms a) h = complete-IsSound o now duration_ms s f a h
  end_total s (of_reading f status hs read) h = answer_body-IsSound o s f status hs read h

  -- What a handler does at its end are steps.
  end_steps :
      (s s' : ProxyState o) (e : Ending) (r : Response o) (ws : List (Waiting o))
      (w : ProxyState o × List (Waiting o))
      → end_ s e ≡ done (s', r)
      → Reach o (s', ws) w
      → Reach o (s, waiting e ∷ ws) w
  unfolding complete
  end_steps s s' (of_sent f now duration_ms (responded status h read)) r ws w q rest =
      let s₁ = count_request o f status duration_ms (tell_status o f now status s) in
      then_ _ (s₁, reading f status h ∷ ws) _ (heard now duration_ms status h s f [] ws)
        (then_ _ (s', ws) _ (answered status h read s₁ s' f r [] ws q) rest)
  end_steps s s' (of_sent f now duration_ms (failed e)) r ws w q rest =
      then_ _ (s', ws) _ (broken now duration_ms e s s' f r [] ws q) rest
  end_steps s s' (of_sent f now duration_ms timed_out) r ws w q rest =
      then_ _ (s', ws) _ (late now duration_ms s s' f r [] ws q) rest
  end_steps s s' (of_reading f status h read) r ws w q rest =
      then_ _ (s', ws) _ (answered status h read s s' f r [] ws q) rest

  -- From a sound state, whatever handlers wait, whatever the upstreams answer them, failures and
  -- timeouts included, and whether the bodies are read or not, ending them one after another does not
  -- panic, sends one response for each, is a run of the steps to a state in which none waits, and
  -- leaves the state sound.
  pub drain :
      (s : ProxyState o) (es : List Ending)
      → IsSound o s
      → (s' : ProxyState o) × (rs : List (Response o)) × (end_all s es ≡ done (s', rs))
        × (length rs ≡ length es)
        × Reach o (s, map waiting es) (s', [])
        × IsSound o s'
  unfolding end_all
  drain s [] h = (s, [], refl, refl, stay (s, []), h)
  drain s (e ∷ es) h =
      let (s₁, r, q, v) = end_total s e h in
      let (s₂, rs, p, n, run, v₂) = drain s₁ es v in
      (
        s₂,
        r ∷ rs,
        ap (λ x. end_then x (λ s'. end_all s' es)) q ∙ ap (λ x. end_next x r) p,
        ap suc n,
        end_steps s s₁ e r (map waiting es) (s₂, []) q run,
        v₂,
      )
