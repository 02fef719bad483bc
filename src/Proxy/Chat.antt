-- ===== src/Proxy/Chat.antt =====
-- The route of the chat completions, around the rotation.
use ollama_proxy.Prelude.{◌≡◌, refl, String, false, All}
use ollama_proxy.Exec.{Result, returned, raised}
use ollama_proxy.Python.{Json}
use ollama_proxy.KeyManager.{Pool}
use ollama_proxy.Rotation.Attempt.{Env}
use ollama_proxy.Rotation.{execute_with_rotation}
use ollama_proxy.Rotation.Replies.{Response, blocked, json_error}
use ollama_proxy.Rotation.Answers.{execute_hides_headers}
use ollama_proxy.Rotation.Reservations.{IsQuiet, in_flight-execute}
use ollama_proxy.Proxy.{
  or_503, Validated, invalid, valid, Decoded, malformed, undecodable, decode, decoded,
  run_validated, run_decoded, chat_completions,
}

abbrev pub Hides : Response → Type 0
Hides response = All (λ e. blocked e.0 ≡ false) response.headers

-- An answer that hides the upstream's headers; none at all only where the decoding of the body ended in
-- that very exception.
abbrev pub Answers : Decoded → Result Response → Type 0
Answers d (returned response) = Hides response
Answers d (raised e) = d ≡ undecodable e

-- Against the pool before: such an answer, and the same reservations.
abbrev pub IsSafe : Decoded → Pool → Result Response × Pool → Type 0
IsSafe d s r = Answers d r.0 × (r.1.in_flight ≡ s.in_flight)

or_503-Hides :
    (s : Pool) (m : Result Response × Pool)
    → ((r : Response) → m.0 ≡ returned r → Hides r)
    → m.1.in_flight ≡ s.in_flight
    → Hides (or_503 m).0 × ((or_503 m).1.in_flight ≡ s.in_flight)
unfolding json_error
or_503-Hides s (returned r, t) hides kept = (hides r refl, kept)
or_503-Hides s (raised e, t) hides kept = (tt, kept)

module _ (env : Env) (quiet : IsQuiet env) where
  run_validated-Hides :
      (v : Validated) (s : Pool)
      → Hides (run_validated env v s).0 × ((run_validated env v s).1.in_flight ≡ s.in_flight)
  unfolding json_error
  run_validated-Hides (invalid text) s = (tt, refl)
  run_validated-Hides (valid body) s =
      or_503-Hides s (execute_with_rotation env body s) (execute_hides_headers env body s)
        (in_flight-execute env body quiet s)

  run_decoded-IsSafe :
      (validate : Json → Validated) (d : Decoded) (s : Pool)
      → IsSafe d s (run_decoded env validate d s)
  unfolding json_error
  run_decoded-IsSafe validate (malformed text) s = (tt, refl)
  run_decoded-IsSafe validate (undecodable e) s = (refl, refl)
  run_decoded-IsSafe validate (decoded parsed) s = run_validated-Hides (validate parsed) s

  -- Every request for a completion is answered, whatever the rotation raises, unless the decoding of its
  -- body ends in another exception than a JSONDecodeError, and then it ends in that exception; no answer carries a header of the upstream's server or connection; and no reservation is
  -- left, when the other tasks leave the set of reserved ids as it was.
  pub chat_completions-IsSafe :
      (loads : String → Decoded) (validate : Json → Validated) (raw_body : String) (s : Pool)
      → IsSafe (decode loads raw_body) s (chat_completions loads validate env raw_body s)
  unfolding chat_completions
  chat_completions-IsSafe loads validate raw_body s =
      run_decoded-IsSafe validate (decode loads raw_body) s
