-- ===== src/Sockets/Close.antt =====
-- `socketSeverClose` closes every socket, as long as its array has room for them.
use lighting_gateway.Prelude.{
  ℕ, ◌++◌, ◌<◌, ◌∙◌, ◌∷◌, ◌≡◌, ◌≤◌, All, All-take, List, Option, [], ap, append-nil, append_assoc,
  arith, false, length, ltb, none, refl, some, split_at, suc, take, take_all, true, zero,
}
use lighting_gateway.Prelude.Int.{ℤ, eq_ℤ, eq_ℤ_refl, pos}
use lighting_gateway.Sockets.{
  Server, close_loop, close_listening, delete_socket_rec, socket_sever_get_num_clients, delete_loop,
  close_with, socket_sever_get_client_fds, max_clients, socket_sever_close,
}
use lighting_gateway.Sockets.Records.{delete_socket_rec_lem}

-- Not the listening socket.
abbrev pub IsClient : ℤ → ℤ → Type 0
IsClient listening fd = eq_ℤ listening fd ≡ false

module _ (listening : ℤ) where
  delete_listening :
      (s : Server) (cs : List ℤ)
      → s.records ≡ listening ∷ cs
      → delete_socket_rec listening s ≡ some s
  unfolding delete_socket_rec
  delete_listening s cs e = rw (e, delete_loop, eq_ℤ_refl listening) (ap some (rw (← e) refl))

  alone : (s : Server) → s.records ≡ listening ∷ [] → ltb 1 (socket_sever_get_num_clients s) ≡ false
  unfolding socket_sever_get_num_clients
  alone s e = rw e (ground arith)

  several :
      (s : Server) (fd : ℤ) (rest : List ℤ)
      → s.records ≡ listening ∷ fd ∷ rest
      → ltb 1 (socket_sever_get_num_clients s) ≡ true
  unfolding socket_sever_get_num_clients
  several s fd rest e = rw e (ground arith)

  -- The head of the clients is removed.
  delete_head :
      (s : Server) (fd : ℤ) (rest : List ℤ)
      → s.records ≡ listening ∷ fd ∷ rest
      → IsClient listening fd
      → delete_socket_rec fd s
        ≡ some (record s { records = listening ∷ rest; closed = s.closed ++ fd ∷ [] })
  delete_head s fd rest e other =
      delete_socket_rec_lem s listening fd (fd ∷ rest) e other ∙ rw (eq_ℤ_refl fd) refl

  close_loop_clients :
      (fuel : ℕ) (cs : List ℤ) (s : Server)
      → s.records ≡ listening ∷ cs
      → length cs < fuel
      → All (IsClient listening) cs
      → close_loop fuel cs s ≡ some (record s { records = listening ∷ []; closed = s.closed ++ cs })
  unfolding close_loop
  close_loop_clients zero cs s e k h = absurd (omega arith)
  close_loop_clients (suc fuel) [] s e k h =
      rw (close_loop, alone s e, append-nil s.closed, ← e) refl
  close_loop_clients (suc fuel) (c ∷ cs) s e k h =
      rw (close_loop, several s c cs e, delete_head s c cs e h.0)
        (close_loop_clients fuel cs
            (record s { records = listening ∷ cs; closed = s.closed ++ c ∷ [] }) refl (omega arith)
            h.1
          ∙ rw (append_assoc s.closed (c ∷ []) cs) refl)

  close_loop_more :
      (fuel : ℕ) (cs : List ℤ) (c : ℤ) (post : List ℤ) (s : Server)
      → s.records ≡ listening ∷ (cs ++ c ∷ post)
      → All (IsClient listening) cs
      → close_loop fuel cs s ≡ none
  unfolding close_loop
  close_loop_more zero cs c post s e h = refl
  close_loop_more (suc fuel) [] c post s e h = rw (close_loop, several s c post e) refl
  close_loop_more (suc fuel) (d ∷ cs) c post s e h =
      rw (close_loop, several s d (cs ++ c ∷ post) e, delete_head s d (cs ++ c ∷ post) e h.0)
        (close_loop_more fuel cs c post
          (record s { records = listening ∷ (cs ++ c ∷ post); closed = s.closed ++ d ∷ [] }) refl
          h.1)

  -- The listening socket is asked for first, and stays.
  first_round :
      (fuel : ℕ) (c : ℤ) (cs rest : List ℤ) (s : Server)
      → s.records ≡ listening ∷ c ∷ cs
      → close_loop (suc fuel) (listening ∷ rest) s ≡ close_loop fuel rest s
  unfolding close_loop
  first_round fuel c cs rest s e =
      rw (close_loop, several s c cs e, delete_listening s (c ∷ cs) e) refl

  loop_closes :
      (n : ℕ) (s : Server) (cs : List ℤ)
      → s.records ≡ listening ∷ cs
      → length cs ≤ n
      → All (IsClient listening) cs
      → close_loop (suc (suc n)) (listening ∷ cs) s
        ≡ some (record s { records = listening ∷ []; closed = s.closed ++ cs })
  loop_closes n s [] e k h =
      unfold close_loop in rw (close_loop, alone s e, append-nil s.closed, ← e) refl
  loop_closes n s (c ∷ cs) e k h =
      first_round (suc n) c cs (c ∷ cs) s e
      ∙ close_loop_clients (suc n) (c ∷ cs) s e (omega arith) h

  loop_overruns :
      (n : ℕ) (s : Server) (pre : List ℤ) (c : ℤ) (post : List ℤ)
      → s.records ≡ listening ∷ (pre ++ c ∷ post)
      → All (IsClient listening) pre
      → close_loop (suc (suc n)) (listening ∷ pre) s ≡ none
  loop_overruns n s [] c post e h =
      first_round (suc n) c post [] s e ∙ close_loop_more (suc n) [] c post s e h
  loop_overruns n s (d ∷ pre) c post e h =
      first_round (suc n) d (pre ++ c ∷ post) (d ∷ pre) s e
      ∙ close_loop_more (suc n) (d ∷ pre) c post s e h

  got_fds :
      (n : ℕ) (s : Server) (cs : List ℤ)
      → s.records ≡ listening ∷ cs
      → socket_sever_get_client_fds (suc n) s ≡ listening ∷ take n cs
  unfolding socket_sever_get_client_fds
  got_fds n s cs e = rw e refl

  abbrev after : List ℤ → Option Server → Option Server
  after fds r = elim r [ none ↦ none | some s' ↦ close_listening fds s' ]

  close_with_done :
      (n : ℕ) (s : Server) (cs : List ℤ)
      → s.records ≡ listening ∷ cs
      → length cs ≤ n
      → All (IsClient listening) cs
      → IsClient listening (pos 0)
      → close_with (suc n) s
        ≡ some (record s { records = listening ∷ []; closed = (s.closed ++ cs) ++ listening ∷ [] })
  unfolding close_with
  close_with_done n s cs e k h nonzero =
      ap (λ fds. after fds (close_loop (suc (suc n)) fds s))
        (got_fds n s cs e ∙ ap (λ l. listening ∷ l) (take_all n cs k))
      ∙ ap (after (listening ∷ cs)) (loop_closes n s cs e k h)
      ∙ (unfold close_listening in rw nonzero refl)

  close_with-overruns :
      (n : ℕ) (s : Server) (cs : List ℤ)
      → s.records ≡ listening ∷ cs
      → n < length cs
      → All (IsClient listening) cs
      → close_with (suc n) s ≡ none
  unfolding close_with
  close_with-overruns n s cs e k h =
      let (c, post, split) = split_at n cs k in
      ap (λ fds. after fds (close_loop (suc (suc n)) fds s)) (got_fds n s cs e)
      ∙ ap (after (listening ∷ take n cs)) (
          loop_overruns n s (take n cs) c post (e ∙ ap (λ l. listening ∷ l) split)
            (All-take (IsClient listening) n cs h))

  -- With fewer than fifty clients, none of them with the number of the listening socket, which is
  -- not 0, closing the server closes every client in the order of the list and the listening socket
  -- last, and only the listening record is left.
  pub socket_sever_close_done :
      (s : Server) (cs : List ℤ)
      → s.records ≡ listening ∷ cs
      → length cs < max_clients
      → All (IsClient listening) cs
      → IsClient listening (pos 0)
      → socket_sever_close s
        ≡ some (record s { records = listening ∷ []; closed = (s.closed ++ cs) ++ listening ∷ [] })
  unfolding socket_sever_close
  socket_sever_close_done s cs e k h nonzero = close_with_done 49 s cs e (omega arith) h nonzero

  -- With fifty clients or more, none of them with the number of the listening socket, closing the
  -- server reads past the end of its array of sockets.
  pub socket_sever_close-overruns :
      (s : Server) (cs : List ℤ)
      → s.records ≡ listening ∷ cs
      → max_clients ≤ length cs
      → All (IsClient listening) cs
      → socket_sever_close s ≡ none
  unfolding socket_sever_close
  socket_sever_close-overruns s cs e k h = close_with-overruns 49 s cs e (omega arith) h
