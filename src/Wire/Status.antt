-- ===== src/Wire/Status.antt =====
-- Responses: types and status codes.
use cs162hw.Base.{ℕ, ◌≡◌, ◌≢◌, refl, pos, arith}
use cs162hw.Consts.{MsgType, empty, getresp, success, error, vote, ack}
use cs162hw.Wire.{http_code_for, status_type}

pub pos_injective : (m n : ℕ) → pos m ≡ pos n → m ≡ n
pos_injective m n eq = cc

pub code-status : (t : MsgType) (n : ℕ) → http_code_for t ≡ pos n → status_type n ≡ t
unfolding http_code_for status_type
code-status getresp n eq = rw (← pos_injective 200 n eq) refl
code-status success n eq = rw (← pos_injective 201 n eq) refl
code-status error n eq = rw (← pos_injective 500 n eq) refl
code-status vote n eq = rw (← pos_injective 202 n eq) refl
code-status ack n eq = rw (← pos_injective 204 n eq) refl
code-status _ n eq = cc

status-code : (n : ℕ) → status_type n ≢ empty → http_code_for (status_type n) ≡ pos n
unfolding http_code_for status_type
status-code n known = ground arith

-- The status code that a response type is sent with is read back as that type; and a status code
-- that is read as a type is the one that the type is sent with.
pub status-inverse :
    (t : MsgType) (m : ℕ)
    → ((n : ℕ) → http_code_for t ≡ pos n → status_type n ≡ t)
      × (status_type m ≢ empty → http_code_for (status_type m) ≡ pos m)
status-inverse t m = (code-status t, status-code m)
