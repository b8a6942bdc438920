-- ===== src/Js/Sort.antt =====
-- Array.prototype.sort on texts.
use Prim.Native.String.{compare}
use Prim.Native.Nat.{Ordering}
use clairveil_samples.Prelude.{Bool, List, String, [], false, if◌then◌else◌, true, ◌∷◌}

abbrev precedes : String → String → Bool
precedes s t = elim (compare s t) [ Ordering.gt ↦ false | _ ↦ true ]

unfoldable pub insert_sorted : String → List String → List String
insert_sorted s [] = s ∷ []
insert_sorted s (t ∷ ts) = if precedes s t then s ∷ t ∷ ts else t ∷ insert_sorted s ts

-- `.sort()`, by code points.
unfoldable pub sort : List String → List String
unfolding insert_sorted
sort [] = []
sort (s ∷ ss) = insert_sorted s (sort ss)
