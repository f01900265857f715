-- ===== src/FileServer/Get.antt =====
-- hw2: a GET request as bytes, and its answer.
use cs162hw.Base.{ℕ, ◌≡◌, Bool, true, [], ◌∷◌, ◌++◌}
use cs162hw.Base.Text.{Text, codes}

abbrev Passing : (ℕ → Bool) → Text → Type 0
Passing passes [] = Unit
Passing passes (b ∷ s) = (passes b ≡ true) × Passing passes s

-- The bytes of a GET request: the rest of the first line, and what follows it.
abbrev pub get_bytes : Text → Text → Text → Text
get_bytes path version more = codes "GET " ++ (path ++ 32 ∷ (version ++ 10 ∷ more))
