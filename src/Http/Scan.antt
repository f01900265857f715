-- ===== src/Http/Scan.antt =====
-- hw4/src/libhttp.c: what the parser of responses finds in a text, and that its loop ends.
use cs162hw.Base.{
  ◌||◌, ℕ, zero, suc, ◌+◌, ◌≤◌, ◌<◌, ◌≡◌, ◌≢◌, refl, true, false, Option, none, some, [], ◌∷◌, ◌++◌,
  length, drop, ℤ, pos, negsuc, ltb, arith, Bool-cases, Option-cases, inl, inr, ltb→le, List, take,
}
use cs162hw.Base.Text.{Text, codes, c_str}
use cs162hw.Http.Number.{strtol}
use cs162hw.Url.{is_prefix, behind}
use cs162hw.Url.RoundTrip.{Avoids}
use cs162hw.Http.{crlf, max_size}
use cs162hw.Http.Reply.{
  Parsed, got, refused, fault, unfinished, and_then, or_refuse, strstr, lf, line_end, read_header,
  read_headers, read_body, message_of, read_status_text, read_status, parse_response,
  http_response_parse,
}

pub is_prefix_refl : (s : Text) → is_prefix s s ≡ true
unfolding is_prefix
is_prefix_refl [] = refl
is_prefix_refl (a ∷ s) = ground (arith, is_prefix_refl s)

is_prefix-append : (s t : Text) → is_prefix s (s ++ t) ≡ true
unfolding is_prefix
is_prefix-append [] t = refl
is_prefix-append (a ∷ s) t = ground (arith, is_prefix-append s t)

-- The first occurrence is found where the bytes before it avoid the first byte of the pattern.
pub strstr-append :
    (c : ℕ) (p s t : Text)
    → Avoids c s
    → strstr (c ∷ p) (s ++ ((c ∷ p) ++ t)) ≡ some (s, (c ∷ p) ++ t)
unfolding strstr
strstr-append c p [] t h = rw (is_prefix-append (c ∷ p) t) refl
strstr-append c p (b ∷ s) t h = rw (strstr-append c p s t h.1, other) refl
  where
    other : is_prefix (c ∷ p) (b ∷ (s ++ ((c ∷ p) ++ t))) ≡ false
    other = unfold is_prefix in ground (arith, h.0)

-- What is found is no longer than the text.
strstr-le : (pat s before from : Text) → strstr pat s ≡ some (before, from) → length from ≤ length s
unfolding strstr
strstr-le pat [] before from eq = cc
strstr-le pat (b ∷ s) before from eq = elim (Bool-cases (is_prefix pat (b ∷ s))) [
  | inl here ↦ ground (arith, here)
  | inr later ↦ elim (Option-cases (strstr pat s)) [
    | inl e ↦ ground (arith, later, e)
    | inr ((before', from'), e) ↦ ground (arith, later, e, strstr-le pat s before' from' e)
  ]
]

pub line_end-append : (s t : Text) → Avoids 13 s → line_end (s ++ (crlf ++ t)) ≡ some (s, crlf ++ t)
unfolding line_end
line_end-append s t h = rw (strstr-append 13 (10 ∷ []) s t h, line_end) refl

line_end-le : (s line limit : Text) → line_end s ≡ some (line, limit) → length limit ≤ length s
unfolding line_end
line_end-le s line limit eq = elim (Option-cases (strstr crlf s)) [
  | inl e ↦ strstr-le lf s line limit (rw (e, line_end) at eq)
  | inr ((b, f), e) ↦ ground (arith, e, strstr-le crlf s b f e)
]

-- Steps that come to an end one after the other.
and_then-Ends :
    {A B : Type 0} (m : Parsed A) (f : A → Parsed B)
    → m ≢ unfinished
    → ((a : A) → m ≡ got a → f a ≢ unfinished)
    → and_then m f ≢ unfinished
and_then-Ends (got a) f hm hf = hf a refl
and_then-Ends refused f hm hf = cc
and_then-Ends fault f hm hf = cc
and_then-Ends unfinished f hm hf = absurd (hm refl)

or_refuse-Ends : {A : Type 0} (o : Option A) → or_refuse o ≢ unfinished
or_refuse-Ends none = cc
or_refuse-Ends (some a) = cc

read_header-Ends : (start : Text) (n : ℤ) → read_header start n ≢ unfinished
unfolding read_header
read_header-Ends start n =
    and_then-Ends (or_refuse (line_end start)) _ (or_refuse-Ends (line_end start))
      λ (line, limit) _.
        and_then-Ends (or_refuse (strstr (codes ": ") start)) _ (or_refuse-Ends _)
          λ (name, colon) _. ground arith

read_header-le :
    (start : Text) (n m : ℤ) (stop : Text)
    → read_header start n ≡ got (stop, m)
    → length stop ≤ length start
unfolding read_header
read_header-le start n m stop eq = elim (Option-cases (line_end start)) [
  | inl e ↦ ground (arith, e)
  | inr ((line, limit), e) ↦ elim (Option-cases (strstr (codes ": ") start)) [
    | inl e' ↦ ground (arith, e, e')
    | inr ((name, colon), e') ↦ ground (arith, e, e', line_end-le start line limit e)
  ]
]

length-drop_two : (s : Text) → 2 ≤ length s → length (drop 2 s) + 2 ≡ length s
length-drop_two [] le = absurd (omega arith)
length-drop_two (a ∷ []) le = absurd (omega arith)
length-drop_two (a ∷ b ∷ s) le = omega arith

-- The loop over the headers gets nearer to the end of the text in each round.
read_headers-Ends :
    (fuel : ℕ) (at : Text) (n : ℤ) → length at < fuel → read_headers fuel at n ≢ unfinished
unfolding read_headers
read_headers-Ends zero at n lt = absurd (omega arith)
read_headers-Ends (suc fuel) at n lt =
    elim (Bool-cases (is_prefix (lf ++ lf) at || is_prefix (crlf ++ crlf) at)) [
      | inl stop ↦ rw stop (cc)
      | inr more ↦ elim (Bool-cases (ltb (length at) 2)) [
        | inl short ↦ rw (more, short) (cc)
        | inr enough ↦
            rw (more, enough)
              (and_then-Ends (read_header (drop 2 at) n) _ (read_header-Ends (drop 2 at) n)
                λ (limit, m) eq. read_headers-Ends fuel limit m (
                  omega (
                    arith,
                    length-drop_two at (ltb→le (length at) 2 enough),
                    read_header-le (drop 2 at) n m limit eq,
                  )))
      ]
    ]

read_body-Ends : (status : ℤ) (at : Text) (n : ℤ) → read_body status at n ≢ unfinished
unfolding read_body
read_body-Ends status at (negsuc n) = cc
read_body-Ends status at (pos n) = ground arith

read_status_text-Ends : (status : ℤ) (start : Text) → read_status_text status start ≢ unfinished
unfolding read_status_text
read_status_text-Ends status start =
    and_then-Ends (or_refuse (line_end start)) _ (or_refuse-Ends (line_end start)) λ (text, at) _.
      elim (Option-cases (message_of status)) [
        | inl e ↦ rw e (cc)
        | inr (m, e) ↦ rw e (elim (Bool-cases (is_prefix text m)) [
          | inl yes_it ↦ rw yes_it (
              and_then-Ends (read_headers (suc (length at)) at (negsuc 0)) _
                (read_headers-Ends (suc (length at)) at (negsuc 0) (omega arith))
                (λ (stop, n) _. read_body-Ends status stop n))
          | inr not_it ↦ rw not_it (cc)
        ])
      ]

read_status-Ends : (start : Text) → read_status start ≢ unfinished
unfolding read_status
read_status-Ends start =
    ground (arith, read_status_text-Ends (strtol start).0 (drop 1 (strtol start).1))

parse_response-Ends : (buf : Text) → parse_response buf ≢ unfinished
unfolding parse_response
parse_response-Ends buf =
    and_then-Ends (or_refuse (behind 32 buf)) _ (or_refuse-Ends (behind 32 buf))
      λ start _. ground (arith, read_status-Ends start)

-- http_response_parse ends on every input: its loop over the headers never runs out of the fuel
-- that the length of the message gives it.
pub parse-ends : (bytes : List ℕ) → http_response_parse bytes ≢ unfinished
unfolding http_response_parse
parse-ends [] = cc
parse-ends (b ∷ bytes) = parse_response-Ends (c_str (take max_size (b ∷ bytes)))
