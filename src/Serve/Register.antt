-- ===== src/Serve/Register.antt =====
-- A follower that registers with the leader, over the bytes.
use cs162hw.Base.{
  ℕ, pos, ◌+◌, ◌*◌, ◌-◌, ◌%◌, ◌^◌, ◌≤◌, ◌<◌, ◌≡◌, ◌∙◌, refl, ap, some, [], ◌∷◌, length, ◌⊎◌, inl,
  inr, if◌then◌else◌, ◌>>=◌, arith,
}
use cs162hw.Base.Text.{Text, skip_space, IsText}
use cs162hw.Consts.{register, success, error, errmsg_follower_capacity}
use cs162hw.Message.{Request, Response, blank, body_text}
use cs162hw.Log.{is_type}
use cs162hw.Http.Number.{decimal, read_digits}
use cs162hw.Http.Digits.{IsDigits, decimal-IsDigits, decimal-cons, read_digits-all, length-decimal}
use cs162hw.Url.{print_url}
use cs162hw.Wire.{kvrequest_send, kvrequest_recieve, kvresponse_send, http_code_for, params_of}
use cs162hw.Wire.Shape.{Passes}
use cs162hw.Wire.Message.{digits-Avoids}
use cs162hw.Wire.RoundTrip.{receive-send}
use cs162hw.Wire.Answer.{receive-response}
use cs162hw.Server.{Server}
use cs162hw.Leader
use cs162hw.Leader.{Leader, Follower, Answer, digits, read_port, new_follower}
use cs162hw.Leader.Insert.{IsLeader}
use cs162hw.Leader.Ring.{Known, Added, register-IsLeader}
use cs162hw.Serve.{leader_request, tpcleader_handle, register_request, register_result}

digits-read : (n : ℕ) (s : Text) → digits n s ≡ (read_digits n s).0
unfolding digits read_digits
digits-read n [] = refl
digits-read n (b ∷ s) = ground (arith, digits-read (n * 10 + (b - 48)) s)

read_port-digits :
    (b : ℕ) (s : Text)
    → IsDigits (b ∷ s)
    → read_port (skip_space (b ∷ s)) ≡ digits 0 (b ∷ s) % 2 ^ 32
unfolding skip_space read_port
read_port-digits b s (lo, hi, _) = ground arith

-- atoi reads a printed port back.
read_port-decimal : (n : ℕ) → n < 2 ^ 32 → read_port (skip_space (decimal n)) ≡ n
read_port-decimal n small =
    let (b, s, eq) = decimal-cons n in
    let all = rw eq at (decimal-IsDigits n) in
    let read = digits-read 0 (decimal n) ∙ ap (λ p. p.0) (read_digits-all n) in
    rw eq (read_port-digits b s all ∙ ap (λ m. m % 2 ^ 32) (rw eq at read) ∙ omega arith)

decimal-Passes : (n : ℕ) → Passes (decimal n)
decimal-Passes n = record {
  no_and = digits-Avoids b'&' (decimal n) (omega arith) (decimal-IsDigits n);
  no_space = digits-Avoids 32 (decimal n) (omega arith) (decimal-IsDigits n);
  no_feed = digits-Avoids 10 (decimal n) (omega arith) (decimal-IsDigits n);
  no_nul = digits-Avoids 0 (decimal n) (omega arith) (decimal-IsDigits n);
}

abbrev pub registration : Server → Request
registration s = record { type = register; key = some s.hostname; val = some (decimal s.port) }

request-eq : (s : Server) → s.port < 10 ^ 5 → register_request s ≡ some (registration s)
unfolding register_request
request-eq s small = ground (arith, length-decimal 4 s.port small)

-- The follower that the leader makes of it.
abbrev pub joined : (Text → ℕ) → Server → Follower
joined hash s = new_follower hash s.hostname (decimal s.port)

-- What the follower makes of an answer.
answer-eq :
    (res : Response) (n : ℕ)
    → http_code_for res.type ≡ pos n
    → IsText (body_text res.body)
    → length (body_text res.body) ≤ 8132
    → (out : Text) × (kvresponse_send res ≡ some out)
      × (register_result out ≡ some (if is_type res.type success then pos 1 else pos 0))
unfolding register_result
answer-eq res n code text short =
    let (out, sent, read) = receive-response res n code text short in
    (out, sent, rw (read, register_result) refl)

module _ (hash : Text → ℕ) (payload : Text) {W : Type 0}
    (send : W → Follower → Request → Answer × W) where
  handle-eq :
      (fuel : ℕ) (l l' : Leader) (w : W) (s : Server) (res : Response) (bytes out : Text)
      → kvrequest_recieve bytes ≡ some (registration s)
      → Leader.register_follower hash l (registration s) blank ≡ some (l', res)
      → kvresponse_send res ≡ some out
      → tpcleader_handle hash payload send fuel l w bytes ≡ some ((l', w), out)
  unfolding tpcleader_handle leader_request
  handle-eq fuel l l' w s res bytes out read eq sent = rw (read, ◌>>=◌, eq, ◌>>=◌, sent) refl

  -- The two answers.
  refused-eq :
      (res : Response)
      → res ≡ record { type = error; body = some errmsg_follower_capacity }
      → (out : Text) × (kvresponse_send res ≡ some out) × (register_result out ≡ some (pos 0))
  unfolding http_code_for
  refused-eq res r = rw r (
      answer-eq (record { type = error; body = some errmsg_follower_capacity }) 500 refl
        (omega arith) (omega arith))

  accepted-eq :
      (res : Response)
      → res ≡ record blank { type = success }
      → (out : Text) × (kvresponse_send res ≡ some out) × (register_result out ≡ some (pos 1))
  unfolding http_code_for
  accepted-eq res r = rw r (answer-eq (record blank { type = success }) 201 refl tt (omega arith))

  -- A follower whose host name passes through and whose port has at most five digits registers with
  -- a well-formed leader over the bytes, where the URL fits. If the leader is at capacity, then it
  -- keeps its ring, and kvserver_register_leader returns 0. Otherwise it returns 1, and the ring
  -- holds a follower of that ID, and the new one is the follower with this host and this port.
  pub register_exchange :
      (fuel : ℕ) (l : Leader) (w : W) (s : Server)
      → IsLeader l
      → Passes s.hostname
      → s.port < 10 ^ 5
      → length (print_url (params_of (registration s))) + 1 ≤ 128
      → (bytes out : Text) × (l' : Leader) × (register_request s ≡ some (registration s))
        × (kvrequest_send (registration s) ≡ some bytes)
        × (tpcleader_handle hash payload send fuel l w bytes ≡ some ((l', w), out))
        × (((l.follower_count ≡ l.follower_capacity)
              × (l' ≡ l)
              × (register_result out ≡ some (pos 0)))
            ⊎ ((l.follower_count < l.follower_capacity)
                × (register_result out ≡ some (pos 1))
                × (((l' ≡ l) × Known l (joined hash s)) ⊎ Added l l' (joined hash s))))
        × ((joined hash s).host ≡ s.hostname)
        × ((joined hash s).port ≡ s.port)
  register_exchange fuel l w s inv passes small fits =
      let (bytes, sent, read) =
        receive-send (registration s) (s.hostname, decimal s.port, refl, refl) passes
          (decimal-Passes s.port) fits in
      let (l', res, eq, _, cases) =
        register-IsLeader hash l (registration s) blank s.hostname (decimal s.port) inv refl refl in
      let port : (joined hash s).port ≡ s.port =
        unfold new_follower in read_port-decimal s.port (omega arith) in
      let host : (joined hash s).host ≡ s.hostname = unfold new_follower in refl in
      elim cases [
        | inl (full, same, r) ↦
            let (out, answered, result) = refused-eq res r in
            (
              bytes,
              out,
              l',
              request-eq s small,
              sent,
              handle-eq fuel l l' w s res bytes out read eq answered,
              inl (full, same, result),
              host,
              port,
            )
        | inr (free, r, added) ↦
            let (out, answered, result) = accepted-eq res r in
            (
              bytes,
              out,
              l',
              request-eq s small,
              sent,
              handle-eq fuel l l' w s res bytes out read eq answered,
              inr (free, result, added),
              host,
              port,
            )
      ]
