-- ===== src/ModelCache/Clean.antt =====
-- The loop that cleans the fetched names.
use ollama_proxy.Prelude.{String, ◌≡◌, refl, false, not, ◌&&◌, List, [], ◌∷◌, arith, str_eq, eq_iff}
use ollama_proxy.ModelCache.{mem, clean}

-- No name is empty or comes twice.
abbrev pub IsClean : List String → Type 0
IsClean [] = Unit
IsClean (n ∷ ns) = (str_eq n "" ≡ false) × (mem n ns ≡ false) × IsClean ns

mem-clean_seen :
    (a : String) (seen names : List String)
    → mem a (clean seen names) ≡ (mem a names && not (str_eq a "") && not (mem a seen))
unfolding clean
mem-clean_seen a seen [] = refl
mem-clean_seen a seen (n ∷ ns) =
    ground (arith, eq_iff n a, mem-clean_seen a seen ns, mem-clean_seen a (n ∷ seen) ns)

clean_seen-IsClean : (seen names : List String) → IsClean (clean seen names)
unfolding clean
clean_seen-IsClean seen [] = tt
clean_seen-IsClean seen (n ∷ ns) = ground (
  arith,
  eq_iff n n,
  clean_seen-IsClean seen ns,
  clean_seen-IsClean (n ∷ seen) ns,
  mem-clean_seen n (n ∷ seen) ns,
)

-- The cleaned list has each name that was fetched, but for the empty one, and each of them once.
pub mem-clean :
    (names : List String)
    → IsClean (clean [] names)
      × ((a : String) → mem a (clean [] names) ≡ (mem a names && not (str_eq a "")))
mem-clean names = (clean_seen-IsClean [] names, λ a. ground (arith, mem-clean_seen a [] names))
