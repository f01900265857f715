-- ===== src/FileServer/Tests.antt =====
-- The theorems of the file server at concrete inputs.
use cs162hw.Base.{ℕ, zero, suc, ap, ◌↔◌, ◌≡◌, refl, arith, some, [], ◌∷◌, length, if◌then◌else◌}
use cs162hw.Base.Text.{Text, codes, str_eq}
use cs162hw.FileServer.{FileSystem, missing, regular}
use cs162hw.FileServer.Proxy.{relay_answer, relay_request, rounds, flat, Full, relay_exact}

-- One file, in a directory that is empty otherwise.
abbrev site : FileSystem
site = record {
  stat = λ p. if str_eq p (codes "www/a.html") then regular 2 else missing;
  read_file = λ p. some (codes "hi");
  read_dir = λ p. some [];
}

abbrev zeros : ℕ → Text
zeros zero = []
zeros (suc n) = 0 ∷ zeros n

length-zeros : (n : ℕ) → length (zeros n) ≡ n
length-zeros zero = refl
length-zeros (suc n) = ap suc (length-zeros n)

relay_exact_example :
    (relay_answer (rounds (codes "GET / HTTP/1.0" ∷ [])) ≡ flat (codes "GET / HTTP/1.0" ∷ []))
    × ((relay_request (zeros 1024) (rounds (codes "GET / HTTP/1.0" ∷ []))
          ≡ flat (codes "GET / HTTP/1.0" ∷ []))
        ↔ Full (codes "GET / HTTP/1.0" ∷ []))
relay_exact_example =
    relay_exact (codes "GET / HTTP/1.0" ∷ []) (zeros 1024) (length-zeros 1024) (omega arith)
