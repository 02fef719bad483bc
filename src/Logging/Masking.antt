-- ===== src/Logging/Masking.antt =====
-- What the masking leaves of a record: nothing of a secret but a preview, and all else as it was.
use ollama_proxy.Prelude.{
  ℕ, suc, ◌+◌, ◌≤◌, ◌≡◌, String, true, Option, some, List, [], ◌∷◌, ◌++◌, if◌then◌else◌,
}
use ollama_proxy.Python.{Json, Items, Fields, str, array, dict}
use ollama_proxy.Logging.{is_forbidden, preview, mask_fields, mask_items, mask_nested}
use ollama_proxy.Logging.Paths.{Step, at_name, look, names_on, IsPreview}

module _ (show : Json → String) (lower : String → String) where
  -- What stands under a name after the masking at a depth.
  abbrev entry : ℕ → String → Json → Json
  entry depth name value =
      if is_forbidden (lower name)
      then str (preview show lower value)
      else mask_nested show lower depth value

  module _ (name : String) (forbidden : is_forbidden (lower name) ≡ true) where
    -- The path to the entry of the name behind another path.
    abbrev to : List Step → List Step
    to path = path ++ at_name name ∷ []

    -- Whatever a path finds in a masked value is the preview of what it finds in the value itself.
    abbrev Shown : Option Json → Json → Type 0
    Shown original w = (v : Json) × (original ≡ some v) × IsPreview show v w

    abbrev Previews : List Step → Json → Json → Type 0
    Previews path value masked = (w : Json) → look path masked ≡ some w → Shown (look path value) w

    abbrev PreviewsWithin : List Step → Type 0
    PreviewsWithin path =
        ((depth : ℕ) (d : Fields)
          → depth + names_on path ≤ 2
          → Previews (to path) (dict d) (dict (mask_fields show lower depth d)))
        × ((depth : ℕ) (items : Items)
            → suc depth + names_on path ≤ 2
            → Previews (to path) (array items) (array (mask_items show lower depth items)))
