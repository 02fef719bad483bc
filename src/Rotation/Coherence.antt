-- ===== src/Rotation/Coherence.antt =====
-- A whole request keeps the keys' states in order.
use ollama_proxy.Prelude.{ℕ, All}
use ollama_proxy.KeyManager.{Pool}
use ollama_proxy.KeyManager.Lifecycle.{IsCoherent}
use ollama_proxy.Rotation.Attempt.{Env, Body}
use ollama_proxy.Rotation.Bounds.{Respects}

module _ (env : Env) (body : Body) (respects : Respects env (All IsCoherent)) where
  CoherentAt : ℕ → Pool → Type 0
  CoherentAt j s = All IsCoherent s.api_keys
