-- ===== src/Js/Messages.antt =====
-- Template literals.
use Prim.Native.String.{◌++◌ as str_append}
use clairveil_samples.Prelude.{List, String, [], ◌∷◌}

unfoldable pub message : List String → String
message [] = ""
message (part ∷ parts) = str_append part (message parts)
