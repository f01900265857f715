-- ===== src/Server/Vote.antt =====
-- The first phase: what a follower votes for, and what it keeps of it.
use cs162hw.Base.{
  ℕ, suc, ◌≤◌, ◌≡◌, ◌≢◌, ◌∙◌, ap, refl, ◌⊎◌, inl, inr, ℤ, pos, is_neg, int_eq, true, false, ◌||◌,
  some, [], length, arith, Bool-cases, ltb, ◌==◌,
}
use cs162hw.Base.Text.{Text, IsText}
use cs162hw.Consts.{
  MsgType, putreq, delreq, vote, TpcState, tpc_init, tpc_wait, tpc_ready, max_keylen, msg_commit,
  get_msg,
}
use cs162hw.Disk.{Disk, Os, put_log, log_at-put_log}
use cs162hw.Store
use cs162hw.Store.{found_code}
use cs162hw.Store.Find.{find_hit, find_miss}
use cs162hw.Store.Get.{At-cases, get_hit, get_miss}
use cs162hw.Log.{make_log_entry, log_msg}
use cs162hw.Server.{Server, voting, handle_put, handle_del, server_put_check, server_del_check}
use cs162hw.Server.Redo.{Action, put, del, entry_of}
use cs162hw.Server.Action.{acts, Works, IsAllowed, IsAllowedPut, IsAllowedDel}
use cs162hw.Server.Phase.{Phase, IsServer, IsStore-entries, log_msg-eq, IsLog-put_log}
use cs162hw.Server.Decide.{Voted}

-- Before a vote the log is empty.
voting-empty : (st : TpcState) (d : Disk) (n : ℕ) → voting st ≡ true → Phase st d n → n ≡ 0
voting-empty tpc_init d n v p = p
voting-empty tpc_wait d n v p = p
voting-empty tpc_ready d n v p = cc
voting-empty TpcState.tpc_abort d n v p = cc
voting-empty TpcState.tpc_commit d n v p = cc

-- No error message reads like the vote to commit.
pub get_msg-ne-commit : (c : ℤ) → get_msg c ≢ msg_commit
unfolding get_msg
get_msg-ne-commit c = ground arith

-- The server once it has logged the action that it votes for.
abbrev pub voted : Server → Action → Server
voted s a = record s {
  disk = put_log s.disk 0 (some (entry_of a));
  log = record s.log { nextid = 1 };
  state = tpc_ready;
}

module _ (hash : Text → ℕ) (os : Os) (works : Works os) (s : Server) (inv : IsServer hash s)
    (open_to_vote : voting s.state ≡ true) where
  pub empty_log : s.log.nextid ≡ 0
  empty_log = voting-empty s.state s.disk s.log.nextid open_to_vote inv.phase

  pub voted-Voted : (a : Action) → IsAllowed a → Voted hash (voted s a) a
  voted-Voted a allowed = record {
    store = IsStore-entries hash s.disk _ refl refl inv.store;
    ready = refl;
    allowed = allowed;
    one = refl;
    files = IsLog-put_log s.disk 0 (some (entry_of a)) (λ i. inv.files i ∙ rw empty_log);
    logged = rw log_at-put_log;
  }

  log_action :
      (t : MsgType) (k v : Text)
      → (t ≡ putreq) ⊎ (t ≡ delreq)
      → log_msg os s.log s.disk t k v
        ≡ (pos 0, record s.log { nextid = 1 }, put_log s.disk 0 (some (make_log_entry t k v)))
  log_action t k v is =
      log_msg-eq os s.log s.disk t k v (acts works) (ground arith)
      ∙ ap
          (λ n. (
            pos 0,
            record s.log { nextid = suc n },
            put_log s.disk n (some (make_log_entry t k v)),
          ))
          empty_log

  pub put_check_exact :
      (k v : Text)
      → IsText k
      → IsText v
      → (IsAllowedPut k v × (server_put_check s.disk k v ≡ pos 0))
        ⊎ ((¬ IsAllowedPut k v) × (int_eq (server_put_check s.disk k v) (pos 0) ≡ false))
  put_check_exact k v tk tv = elim (Bool-cases (is_neg (server_put_check s.disk k v))) [
    | inl bad ↦ inr (
      (λ ok. ground (arith, allowed-check ok)),
      unfold server_put_check Store.put_check in ground arith,
    )
    | inr good ↦
        unfold server_put_check Store.put_check in
        inl (
          record {
            key_text = tk;
            value_text = tv;
            nonempty = ground arith;
            key_fits = ground arith;
            value_fits = ground arith;
          },
          ground arith,
        )
  ]
    where
      allowed-check : IsAllowedPut k v → server_put_check s.disk k v ≡ pos 0
      allowed-check ok =
          unfold server_put_check Store.put_check in
          ground (arith, ok.nonempty, ok.key_fits, ok.value_fits, inv.store.there)

  -- Where the system calls succeed, a PUTREQ of C strings to a well-formed follower that is open
  -- to votes is answered with a vote. The vote is to commit exactly where the key is not empty and
  -- key and value are within the limits; then the follower is ready and its log holds that action
  -- alone, and its store is untouched. Otherwise nothing has changed.
  pub put-votes :
      (k v : Text)
      → IsText k
      → IsText v
      → (IsAllowedPut k v
          × (handle_put os s k v
              ≡ (voted s (put k v), record { type = vote; body = some msg_commit }))
          × Voted hash (voted s (put k v)) (put k v))
        ⊎ ((¬ IsAllowedPut k v)
            × ((handle_put os s k v).0 ≡ s)
            × ((handle_put os s k v).1.type ≡ vote)
            × ((handle_put os s k v).1.body ≢ some msg_commit))
  put-votes k v tk tv = elim (put_check_exact k v tk tv) [
    | inl (ok, check) ↦ inl (
      ok,
      (unfold handle_put entry_of in ground (arith, log_action putreq k v)),
      voted-Voted (put k v) ok,
    )
    | inr (bad, check) ↦ inr (
      bad,
      (unfold handle_put in ground arith),
      (unfold handle_put in ground arith),
      (unfold handle_put in ground (arith, get_msg-ne-commit (server_put_check s.disk k v))),
    )
  ]

  del_check_exact :
      (k : Text)
      → IsText k
      → (IsAllowedDel k
          × ((Store.get hash os s.disk k).0 ≡ pos 0)
          × (server_del_check hash os s.disk k ≡ pos 0))
        ⊎ ((IsAllowedDel k → (Store.get hash os s.disk k).0 ≢ pos 0)
            × (int_eq (server_del_check hash os s.disk k) (pos 0) ≡ false))
  del_check_exact k tk = elim (Bool-cases (ltb max_keylen (length k) || length k == 0)) [
    | inl bad ↦ inr (
      (λ ok got. ground (arith, ok.nonempty, ok.key_fits)),
      unfold server_del_check in ground arith,
    )
    | inr good ↦
        let short : length k ≤ max_keylen = ground arith in
        let ok : IsAllowedDel k = record {
          key_text = tk;
          nonempty = ground arith;
          key_fits = short;
        } in
        elim (At-cases hash os s.disk k works.opens inv.store short) [
          | inl (i, e, at) ↦ inl (
            ok,
            rw (get_hit hash os s.disk k works.opens inv.store short i e at),
            unfold server_del_check Store.del_check Store.haskey found_code in
                ground (
                  arith,
                  inv.store.there,
                  find_hit hash os s.disk k works.opens inv.store short i e at,
                ),
          )
          | inr lacks ↦ inr (
            (λ ok got. ground (arith, get_miss hash os s.disk k works.opens inv.store short lacks)),
            unfold server_del_check Store.del_check Store.haskey found_code in
                ground (
                  arith,
                  inv.store.there,
                  find_miss hash os s.disk k works.opens inv.store short lacks,
                ),
          )
        ]
  ]

  -- Where the system calls succeed, a DELREQ of a C string to a well-formed follower that is open
  -- to votes is answered with a vote. The vote is to commit exactly where the key is not empty,
  -- within the limit and stored; then the follower is ready and its log holds that action alone.
  -- Otherwise nothing has changed.
  pub del-votes :
      (k : Text)
      → IsText k
      → (IsAllowedDel k
          × ((Store.get hash os s.disk k).0 ≡ pos 0)
          × (handle_del hash os s k
              ≡ (voted s (del k), record { type = vote; body = some msg_commit }))
          × Voted hash (voted s (del k)) (del k))
        ⊎ ((IsAllowedDel k → (Store.get hash os s.disk k).0 ≢ pos 0)
            × ((handle_del hash os s k).0 ≡ s)
            × ((handle_del hash os s k).1.type ≡ vote)
            × ((handle_del hash os s k).1.body ≢ some msg_commit))
  del-votes k tk = elim (del_check_exact k tk) [
    | inl (ok, got, check) ↦ inl (
      ok,
      got,
      (unfold handle_del entry_of in ground (arith, log_action delreq k [])),
      voted-Voted (del k) ok,
    )
    | inr (bad, check) ↦ inr (
      bad,
      (unfold handle_del in ground arith),
      (unfold handle_del in ground arith),
      (unfold handle_del in ground (arith, get_msg-ne-commit (server_del_check hash os s.disk k))),
    )
  ]
