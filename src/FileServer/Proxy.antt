-- ===== src/FileServer/Proxy.antt =====
-- hw2/httpserver.c: the two loops of handle_proxy_request, each in a process of its own. A round is
-- what read returns, which is not empty and fits into the buffer, and whether the write behind it
-- succeeds; one that does writes all that it is asked to.
use cs162hw.Base.{
  ℕ, zero, suc, ◌+◌, ◌*◌, ◌≤◌, ◌≡◌, ◌↔◌, ◌∙◌, refl, sym, ap, Bool, true, List, [], ◌∷◌, ◌++◌,
  append-nil, length, length-append, drop, if◌then◌else◌, arith,
}
use cs162hw.Base.Text.{Text}

abbrev pub buffer_size : ℕ
buffer_size = 1024

-- From the target of the proxy to the client.
unfoldable pub relay_answer : List (Text × Bool) → Text
relay_answer [] = []
relay_answer ((chunk, written) ∷ rest) =
    let later = relay_answer rest in if written then chunk ++ later else []

-- From the client to the target: the whole buffer is written, with what it held before behind what
-- was read.
unfoldable pub relay_request : Text → List (Text × Bool) → Text
relay_request buf [] = []
relay_request buf ((chunk, written) ∷ rest) =
    let buf' = chunk ++ drop (length chunk) buf in
    let later = relay_request buf' rest in if written then buf' ++ later else []

-- The rounds that read a list of chunks, where each write succeeds.
abbrev pub rounds : List Text → List (Text × Bool)
rounds [] = []
rounds (chunk ∷ chunks) = (chunk, true) ∷ rounds chunks

abbrev pub flat : List Text → Text
flat [] = []
flat (chunk ∷ chunks) = chunk ++ flat chunks

abbrev pub Fit : List Text → Type 0
Fit [] = Unit
Fit (chunk ∷ chunks) = (length chunk ≤ buffer_size) × Fit chunks

abbrev pub Full : List Text → Type 0
Full [] = Unit
Full (chunk ∷ chunks) = (length chunk ≡ buffer_size) × Full chunks

relay_answer-flat : (chunks : List Text) → relay_answer (rounds chunks) ≡ flat chunks
unfolding relay_answer
relay_answer-flat [] = refl
relay_answer-flat (chunk ∷ chunks) = ap (λ s. chunk ++ s) (relay_answer-flat chunks)

length-drop : (n : ℕ) (s : Text) → n ≤ length s → length (drop n s) + n ≡ length s
length-drop zero s le = omega arith
length-drop (suc n) [] le = absurd (omega arith)
length-drop (suc n) (b ∷ s) le = omega (arith, length-drop n s)

length-filled :
    (buf chunk : Text)
    → length buf ≡ buffer_size
    → length chunk ≤ buffer_size
    → length (chunk ++ drop (length chunk) buf) ≡ buffer_size
length-filled buf chunk full fits = omega (
  arith,
  length-append chunk (drop (length chunk) buf),
  length-drop (length chunk) buf (omega (arith, full, fits)),
)

-- What is sent is as long as full chunks are.
length-relay :
    (chunks : List Text) (buf : Text)
    → length buf ≡ buffer_size
    → Fit chunks
    → length (relay_request buf (rounds chunks)) ≡ buffer_size * length chunks
unfolding relay_request
length-relay [] buf full fits = refl
length-relay (chunk ∷ chunks) buf full fits =
    let buf' = chunk ++ drop (length chunk) buf in
    let filled = length-filled buf chunk full fits.0 in
    omega (
      arith,
      filled,
      length-append buf' (relay_request buf' (rounds chunks)),
      length-relay chunks buf' filled fits.1,
    )

length-flat : (chunks : List Text) → Fit chunks → length (flat chunks) ≤ buffer_size * length chunks
length-flat [] fits = omega arith
length-flat (chunk ∷ chunks) fits =
    omega (arith, fits.0, length-append chunk (flat chunks), length-flat chunks fits.1)

flat-Full :
    (chunks : List Text)
    → Fit chunks
    → length (flat chunks) ≡ buffer_size * length chunks
    → Full chunks
flat-Full [] fits eq = tt
flat-Full (chunk ∷ chunks) fits eq =
    let rest = length-flat chunks fits.1 in
    let sum = length-append chunk (flat chunks) in
    (
      omega (arith, fits.0, rest, sum, eq),
      flat-Full chunks fits.1 (omega (arith, fits.0, rest, sum, eq)),
    )

drop_all : (n : ℕ) (s : Text) → length s ≡ n → drop n s ≡ []
drop_all zero [] eq = refl
drop_all zero (b ∷ s) eq = absurd (omega arith)
drop_all (suc n) [] eq = absurd (omega arith)
drop_all (suc n) (b ∷ s) eq = drop_all n s (omega arith)

Full-relay :
    (chunks : List Text) (buf : Text)
    → length buf ≡ buffer_size
    → Full chunks
    → relay_request buf (rounds chunks) ≡ flat chunks
unfolding relay_request
Full-relay [] buf full each = refl
Full-relay (chunk ∷ chunks) buf full each =
    let whole : chunk ++ drop (length chunk) buf ≡ chunk =
      rw (drop_all (length chunk) buf (omega (arith, full, each.0))) (append-nil chunk) in
    rw whole (ap (λ s. chunk ++ s) (Full-relay chunks chunk each.0 each.1))

-- Where all writes succeed, the answer of the target reaches the client as it is, whatever the sizes
-- of the parts that are read. A request reaches the target as it is exactly where every part that is
-- read fills the buffer: behind a shorter one the target gets what the buffer held before.
pub relay_exact :
    (chunks : List Text) (buf : Text)
    → length buf ≡ buffer_size
    → Fit chunks
    → (relay_answer (rounds chunks) ≡ flat chunks)
      × ((relay_request buf (rounds chunks) ≡ flat chunks) ↔ Full chunks)
relay_exact chunks buf full fits = (
  relay_answer-flat chunks,
  (
    λ same. flat-Full chunks fits (ap length (sym same) ∙ length-relay chunks buf full fits),
    Full-relay chunks buf full,
  ),
)
