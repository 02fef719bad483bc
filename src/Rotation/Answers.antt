-- ===== src/Rotation/Answers.antt =====
-- What a client can be answered: an answer of the upstream that ends the rotation, or one of the
-- proxy's own.
use ollama_proxy.Prelude.{
  ℕ, zero, suc, ◌+◌, ◌<◌, String, ◌≡◌, ◌⊎◌, inl, inr, Bool, true, false, not, Option, none, some,
  List, [], arith, ◌==◌, Bool-cases, All, All-keep,
}
use ollama_proxy.Exec.{Exec, Result, returned, raised}
use ollama_proxy.Models.{ApiKey}
use ollama_proxy.OllamaClient.{UpstreamResponse}
use ollama_proxy.KeyManager.{Pool, pick_next_key}
use ollama_proxy.Rotation.Replies.{
  Response, build_success_response, json_error, safe_headers, blocked,
}
use ollama_proxy.Rotation.Attempt.{Env, Body, DispatchOutcome, dispatch_one, wait_for_free_slot}
use ollama_proxy.Rotation.{
  Flags, LoopEnd, answer, left_with, conclude, round, rotate_from, execute_with_rotation,
  count_active, max_iter, first_flags, give_up, answer_of,
}
use ollama_proxy.Rotation.Final.{Passed, Sound, dispatch_one-Sound}

module _ (env : Env) (body : Body) (initial_count : ℕ) where
  -- A loop that ends by an answer ends by one of an attempt before `last`.
  abbrev Answered : ℕ → Result LoopEnd → Type 0
  Answered last (returned (answer r)) = (i : ℕ) × (i < last) × Passed env body.stream i r
  Answered last _ = Unit

  conclude-Answered :
      (last i : ℕ) (next : Flags → Exec Pool LoopEnd) (flags : Flags) (o : Result DispatchOutcome)
      (s : Pool)
      → i < last
      → Sound env body.stream i o
      → ((f : Flags) → Answered last (next f s).0)
      → Answered last (conclude next flags body.stream o s).0
  conclude-Answered last i next flags (raised e) s lt x go = tt
  conclude-Answered last i next flags (returned o) s lt x go = elim (Bool-cases o.rotate) [
    | inl e ↦ rw e (go _)
    | inr e ↦ elim x [
      | inl rotates ↦ cc
      | inr (inl (r, t, passed)) ↦ rw (e, t) (i, lt, passed)
      | inr (inr (up, t, u, passed)) ↦ rw (e, t, u) (i, lt, passed)
    ]
  ]

  round-Answered :
      (last i : ℕ) (next : Flags → Exec Pool LoopEnd) (flags : Flags) (r : Option ApiKey × Pool)
      → i < last
      → ((f : Flags) (s : Pool) → Answered last (next f s).0)
      → Answered last (round env body initial_count i next flags r).0
  unfolding round
  round-Answered last i next flags (none, s) lt go = elim (Bool-cases (initial_count == 0)) [
    | inl z ↦ rw z tt
    | inr z ↦ elim (Bool-cases (wait_for_free_slot env i s).0) [
      | inl w ↦ rw (z, w) (go flags (wait_for_free_slot env i s).1)
      | inr w ↦ rw (z, w) tt
    ]
  ]
  round-Answered last i next flags (some key, s) lt go =
      conclude-Answered last i next flags (dispatch_one env i key body.stream s).0 _ lt
        (dispatch_one-Sound env body.stream i key s) (λ f. go f _)

  rotate_from-Answered :
      (left i : ℕ) (flags : Flags) (s : Pool)
      → Answered (i + left) (rotate_from env body initial_count left i flags s).0
  unfolding rotate_from
  rotate_from-Answered zero i flags s = tt
  rotate_from-Answered (suc left) i flags s =
      let e : i + 1 + left ≡ i + suc left = omega arith in
      round-Answered (i + suc left) i (rotate_from env body initial_count left (i + 1)) flags
        (pick_next_key (env.pick_at i) (env.others i s)) (omega arith)
        (λ f t. rw (← e) (rotate_from-Answered left (i + 1) f t))

-- The proxy's own answers.
abbrev pub Own : Response → Type 0
Own r = ((r.status_code ≡ 404) ⊎ (r.status_code ≡ 503)) × (r.headers ≡ [])

give_up-Own : (n : ℕ) (body : Body) (flags : Flags) → Own (give_up n body flags)
unfolding give_up json_error
give_up-Own n body flags = ground arith

module _ (env : Env) (body : Body) where
  answer_of-cases :
      (n last : ℕ) (end : Result LoopEnd) (r : Response)
      → Answered env body n last end
      → answer_of n body end ≡ returned r
      → ((i : ℕ) × (i < last) × Passed env body.stream i r) ⊎ Own r
  answer_of-cases n last (returned (answer r')) r a e =
      let same : r' ≡ r = ground arith in inl (rw (← same) a)
  answer_of-cases n last (returned (left_with flags)) r a e =
      let same : give_up n body flags ≡ r = ground arith in
      inr (rw (← same) (give_up-Own n body flags))
  answer_of-cases n last (raised x) r a e = cc

  -- A request that returns gives the client either an answer of the upstream to one of its at most
  -- max_iter attempts, which is then none of 401, 403, 404, 429 or 5xx, or a 404 or 503 of the
  -- proxy's own with no headers.
  pub execute-Passed :
      (s : Pool) (r : Response)
      → (execute_with_rotation env body s).0 ≡ returned r
      → ((i : ℕ) × (i < max_iter env s) × Passed env body.stream i r) ⊎ Own r
  unfolding execute_with_rotation
  execute-Passed s r e =
      let zero_add : 0 + max_iter env s ≡ max_iter env s = omega arith in
      let ended : Answered env body (count_active s) (max_iter env s)
          (rotate_from env body (count_active s) (max_iter env s) 0 first_flags s).0 =
        rw zero_add at
          (rotate_from-Answered env body (count_active s) (max_iter env s) 0 first_flags s) in
      answer_of-cases (count_active s) (max_iter env s)
        (rotate_from env body (count_active s) (max_iter env s) 0 first_flags s).0 r ended e

-- No blocked name is left.
safe_headers-All : (h : List (String × String)) → All (λ e. blocked e.0 ≡ false) (safe_headers h)
unfolding safe_headers
safe_headers-All h =
    All-keep (λ e. blocked e.0 ≡ false) (λ e. not (blocked e.0)) h (λ x e. ground arith)

headers-built :
    (up : UpstreamResponse) (stream : Bool)
    → All (λ e. blocked e.0 ≡ false) (build_success_response up stream).headers
unfolding build_success_response
headers-built up true = safe_headers-All up.headers
headers-built up false = safe_headers-All up.headers

-- No answer of the rotation, passed on or its own, carries a header that names the upstream's
-- server or that belongs to the upstream's connection.
pub execute_hides_headers :
    (env : Env) (body : Body) (s : Pool) (r : Response)
    → (execute_with_rotation env body s).0 ≡ returned r
    → All (λ e. blocked e.0 ≡ false) r.headers
execute_hides_headers env body s r e = elim (execute-Passed env body s r e) [
  | inl (i, lt, (up, req, sent, same, final)) ↦ rw same (headers-built up body.stream)
  | inr (own, empty) ↦ rw empty tt
]
