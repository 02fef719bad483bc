-- ===== src/KeyManager/Scan.antt =====
-- The anti-stacking scan of `pick_next_key`: which active key it stops at.
use ollama_proxy.Prelude.{
  ℕ, zero, suc, ◌+◌, ◌%◌, ◌≤◌, ◌<◌, ◌≡◌, true, false, Option, none, some, List, inl, inr, arith,
  ◌==◌, Bool-cases, length, get_elem?, get_elem?-total, contains,
}
use native.Mathlib.Nat.{mod-lt}
use ollama_proxy.Models.{ApiKey}
use ollama_proxy.KeyManager.{scan}

module _ (keys : List ApiKey) (busy : List ℕ) (start : ℕ) where
  -- The key that the scan looks at in round `offset`.
  abbrev pub at : ℕ → Option ApiKey
  at offset = get_elem? keys ((start + offset) % length keys)

  abbrev pub BusyAt : ℕ → Type 0
  BusyAt offset = (k : ApiKey) × (at offset ≡ some k) × (contains k.id busy ≡ true)

  -- What a scan that started at round `first` may have found.
  abbrev pub Found : ℕ → ℕ → Option (ApiKey × ℕ) → Type 0
  Found first last none = (i : ℕ) → first ≤ i → i < last → BusyAt i
  Found first last (some (k, offset)) =
      (first ≤ offset)
      × (offset < last)
      × (at offset ≡ some k)
      × (contains k.id busy ≡ false)
      × ((i : ℕ) → first ≤ i → i < offset → BusyAt i)

  Found-step :
      (first last : ℕ) (r : Option (ApiKey × ℕ))
      → BusyAt first
      → first < last
      → Found (first + 1) last r
      → Found first last r
  Found-step first last none b l f = λ i lo hi. elim (Bool-cases (i == first)) [
    | inl e ↦ let e' : i ≡ first = ground arith in rw e' b
    | inr e ↦ f i (ground arith) hi
  ]
  Found-step first last (some (k, offset)) b l f = (
    omega (arith, f.0),
    f.1,
    f.2,
    f.3,
    λ i lo hi. elim (Bool-cases (i == first)) [
      | inl e ↦ let e' : i ≡ first = ground arith in rw e' b
      | inr e ↦ f.4 i (ground arith) hi
    ],
  )

  at-total : (offset : ℕ) → 0 < length keys → (k : ApiKey) × (at offset ≡ some k)
  at-total offset h =
      get_elem?-total keys ((start + offset) % length keys) (mod-lt (start + offset) h)

  -- A scan that finds nothing has met a reserved key in each of its rounds; one that finds a key
  -- stops at the first round whose key is free.
  pub scan-Found :
      (left offset : ℕ)
      → 0 < length keys
      → Found offset (offset + left) (scan keys busy start left offset)
  unfolding scan
  scan-Found zero offset h = λ i lo hi. absurd (omega arith)
  scan-Found (suc left) offset h =
      let (k, e) = at-total offset h in
      let last : offset + 1 + left ≡ offset + suc left = omega arith in
      let ih : Found (offset + 1) (offset + suc left) (scan keys busy start left (offset + 1)) =
        rw (← last) (scan-Found left (offset + 1) h) in
      elim (Bool-cases (contains k.id busy)) [
        | inl taken ↦
            rw (e, scan)
              (rw taken (
                Found-step offset (offset + suc left) (scan keys busy start left (offset + 1))
                  (k, e, taken) (omega arith) ih))
        | inr free ↦
            rw (e, scan)
              (rw free (omega arith, omega arith, e, free, λ i lo hi. absurd (omega arith)))
      ]
