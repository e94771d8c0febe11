-- ===== src/Sockets/Broadcast.antt =====
-- What `socketSeverSendAllclients` sends to whom.
use lighting_gateway.Prelude.{
  ◌++◌, ◌∙◌, ◌∷◌, ◌≡◌, All, Bool-cases, List, [], ap, append-nil, append_assoc, false, inl, inr,
  none, refl, some, sym, true,
}
use lighting_gateway.Prelude.Int.{ℤ, pos, eq_ℤ, is_negative}
use lighting_gateway.Prelude.Reading.{Bytes}
use lighting_gateway.Sockets.{Server, send_loop, socket_sever_send_allclients}
use lighting_gateway.Sockets.Records.{
  IsHeaded, delete_socket_rec-Succeeds, erase, mem-append, delete_socket_rec_lem,
}
use mathlib.Core.List.{map}

-- One write of `buf` to each.
abbrev pub to_each : Bytes → List ℤ → List (ℤ × Bytes)
to_each buf fds = map (λ fd. (fd, buf)) fds

abbrev pub Works : (ℤ → ℤ) → ℤ → Type 0
Works result fd = is_negative (result fd) ≡ false

module _ (result : ℤ → ℤ) (buf : Bytes) where
  send_loop-Works :
      (pre rest : List ℤ) (s : Server)
      → All (Works result) pre
      → send_loop result buf (pre ++ rest) s
        ≡ send_loop result buf rest (record s { written = s.written ++ to_each buf pre })
  unfolding send_loop
  send_loop-Works [] rest s h = rw append-nil
  send_loop-Works (fd ∷ pre) rest s h = rw h.0 (
      send_loop-Works pre rest (record s { written = s.written ++ (fd, buf) ∷ [] }) h.1
      ∙ rw (append_assoc s.written ((fd, buf) ∷ []) (to_each buf pre)) refl)

  -- If every write to a client succeeds, a message to all clients is written once to each of them,
  -- in the order of the list and not to the listening socket, and the result is 0.
  pub send_allclients_done :
      (s : Server) (listening : ℤ) (clients : List ℤ)
      → s.records ≡ listening ∷ clients
      → All (Works result) clients
      → socket_sever_send_allclients result buf s
        ≡ some (pos 0, record s { written = s.written ++ to_each buf clients })
  unfolding socket_sever_send_allclients
  send_allclients_done s listening clients e h =
      ap (λ l. elim l [ [] ↦ none | _ ∷ fds ↦ send_loop result buf fds s ])
        (e ∙ ap (λ l. listening ∷ l) (sym (append-nil clients)))
      ∙ send_loop-Works clients [] s h

  -- At the first client whose write fails, other than the listening socket, a message to all
  -- clients ends with that result: the client's first record is removed and its socket closed, the
  -- clients before it have the message, and no client behind it gets it.
  pub send_allclients_fails :
      (s : Server) (listening : ℤ) (pre : List ℤ) (fd : ℤ) (post : List ℤ)
      → s.records ≡ listening ∷ (pre ++ fd ∷ post)
      → All (Works result) pre
      → is_negative (result fd) ≡ true
      → eq_ℤ listening fd ≡ false
      → socket_sever_send_allclients result buf s
        ≡ some (
          result fd,
          record s {
            records = listening ∷ erase fd (pre ++ fd ∷ post);
            closed = s.closed ++ fd ∷ [];
            written = (s.written ++ to_each buf pre) ++ (fd, buf) ∷ [];
          },
        )
  unfolding socket_sever_send_allclients
  send_allclients_fails s listening pre fd post e h bad other =
      let s' = record s { written = (s.written ++ to_each buf pre) ++ (fd, buf) ∷ [] } in
      ap (λ l. elim l [ [] ↦ none | _ ∷ clients ↦ send_loop result buf clients s ]) e
      ∙ send_loop-Works pre (fd ∷ post) s h
      ∙ (unfold send_loop in
          rw
            (
              bad,
              delete_socket_rec_lem s' listening fd (pre ++ fd ∷ post) e other,
              mem-append fd pre post,
            )
            refl)

  -- Whatever the writes return, the call runs through and the listening socket stays at the head.
  send_loop-Succeeds :
      (listening : ℤ) (fds : List ℤ) (s : Server)
      → IsHeaded listening s
      → (t : Server) × (n : ℤ) × (send_loop result buf fds s ≡ some (n, t)) × IsHeaded listening t
  unfolding send_loop
  send_loop-Succeeds listening [] s h = (s, pos 0, refl, h)
  send_loop-Succeeds listening (fd ∷ fds) s h =
      let s' = record s { written = s.written ++ (fd, buf) ∷ [] } in
      elim (Bool-cases (is_negative (result fd))) [
        | inl bad ↦
            (let (t, e, headed) = delete_socket_rec-Succeeds listening fd s' h in
              (t, result fd, rw (bad, e) refl, headed))
        | inr good ↦
            (let (t, n, e, headed) = send_loop-Succeeds listening fds s' h in
              (t, n, rw good e, headed))
      ]

  -- Whatever the writes return, a message to all clients runs through without a stray pointer and
  -- leaves the listening socket at the head of the list, if it was there before.
  pub send_allclients-Succeeds :
      (listening : ℤ) (s : Server)
      → IsHeaded listening s
      → (t : Server) × (n : ℤ) × (socket_sever_send_allclients result buf s ≡ some (n, t))
        × IsHeaded listening t
  unfolding socket_sever_send_allclients
  send_allclients-Succeeds listening s (clients, e) =
      let (t, n, sent, headed) = send_loop-Succeeds listening clients s (clients, e) in
      (t, n, ap (λ l. elim l [ [] ↦ none | _ ∷ fds ↦ send_loop result buf fds s ]) e ∙ sent, headed)
