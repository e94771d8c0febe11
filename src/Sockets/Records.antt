-- ===== src/Sockets/Records.antt =====
-- `deleteSocketRec` removes the first record of a client's socket and closes the socket; the
-- listening socket stays at the head through every call.
use lighting_gateway.Prelude.{
  if◌then◌else◌, ℕ, ◌++◌, ◌==◌, ◌||◌, ◌∷◌, ◌≡◌, Bool, Bool-cases, List, Option, [], ap, append-nil,
  arith, bit_and, false, inl, inr, none, refl, some, true,
}
use lighting_gateway.Prelude.Int.{ℤ, eq_ℤ, eq_ℤ_refl}
use lighting_gateway.Sockets.{
  Server, removed, not_found, delete_loop, delete_socket_rec, create_socket_rec, socket_sever_poll,
  RxResult, Part, idle, ended, blocked, proceed, put_back, poll_shut_down,
}

abbrev pub erase : ℤ → List ℤ → List ℤ
erase rm [] = []
erase rm (fd ∷ fds) = if eq_ℤ fd rm then fds else fd ∷ erase rm fds

abbrev pub mem : ℤ → List ℤ → Bool
mem rm [] = false
mem rm (fd ∷ fds) = eq_ℤ fd rm || mem rm fds

delete_loop_lem :
    (rm : ℤ) (fds : List ℤ)
    → delete_loop false rm fds ≡ (if mem rm fds then removed (erase rm fds) else not_found)
unfolding delete_loop
delete_loop_lem rm [] = refl
delete_loop_lem rm (fd ∷ fds) = ground (arith, delete_loop_lem rm fds)

erase_absent : (rm : ℤ) (fds : List ℤ) → mem rm fds ≡ false → erase rm fds ≡ fds
erase_absent rm [] h = refl
erase_absent rm (fd ∷ fds) h = ground (arith, erase_absent rm fds)

pub mem-append : (fd : ℤ) (pre post : List ℤ) → mem fd (pre ++ fd ∷ post) ≡ true
mem-append fd [] post = rw (eq_ℤ_refl fd) refl
mem-append fd (x ∷ pre) post = ground (arith, mem-append fd pre post)

-- Deleting a socket that is not the listening one removes the first record of its number and closes
-- it if there is one, and changes nothing otherwise.
pub delete_socket_rec_lem :
    (s : Server) (listening rm : ℤ) (clients : List ℤ)
    → s.records ≡ listening ∷ clients
    → eq_ℤ listening rm ≡ false
    → delete_socket_rec rm s
      ≡ some (record s {
        records = listening ∷ erase rm clients;
        closed = s.closed ++ (if mem rm clients then rm ∷ [] else []);
      })
unfolding delete_socket_rec
delete_socket_rec_lem s listening rm clients e other = elim (Bool-cases (mem rm clients)) [
  | inl present ↦ rw (e, delete_loop, other, delete_loop_lem rm clients, present) refl
  | inr absent ↦
      rw
        (
          e,
          delete_loop,
          other,
          delete_loop_lem rm clients,
          absent,
          append-nil,
          erase_absent rm clients absent,
        )
        refl
]

-- The listening socket is at the head of the list.
abbrev pub IsHeaded : ℤ → Server → Type 0
IsHeaded listening s = (clients : List ℤ) × (s.records ≡ listening ∷ clients)

-- The call runs through, and leaves the listening socket at the head.
abbrev pub Succeeds : ℤ → Option Server → Type 0
Succeeds listening r = (s : Server) × (r ≡ some s) × IsHeaded listening s

pub delete_socket_rec-Succeeds :
    (listening rm : ℤ) (s : Server)
    → IsHeaded listening s
    → Succeeds listening (delete_socket_rec rm s)
delete_socket_rec-Succeeds listening rm s (clients, e) = elim (Bool-cases (eq_ℤ listening rm)) [
  | inl same ↦ (
    s,
    unfold delete_socket_rec in rw (e, delete_loop, same) (ap some (rw (← e) refl)),
    (clients, e),
  )
  | inr other ↦ (_, delete_socket_rec_lem s listening rm clients e other, (erase rm clients, refl))
]

create_socket_rec-Succeeds :
    (listening accepted : ℤ) (s : Server)
    → IsHeaded listening s
    → Succeeds listening (create_socket_rec accepted s)
unfolding create_socket_rec
create_socket_rec-Succeeds listening accepted s (clients, e) = (
  record s { records = s.records ++ accepted ∷ [] },
  rw e refl,
  (clients ++ accepted ∷ [], rw e refl),
)

module _ {S : Type 0} (part : Part S) where
  -- The listening socket is at the head wherever the program still runs.
  abbrev pub Keeps : ℤ → Option (RxResult S) → Type 0
  Keeps listening none = Unit
  Keeps listening (some (ended s)) = Unit
  Keeps listening (some (blocked s)) = IsHeaded listening (part.server s)
  Keeps listening (some (idle s)) = IsHeaded listening (part.server s)

  pub proceed-Keeps :
      (listening : ℤ) (r : Option (RxResult S)) (next : S → Option (RxResult S))
      → Keeps listening r
      → ((s : S) → IsHeaded listening (part.server s) → Keeps listening (next s))
      → Keeps listening (proceed r next)
  unfolding proceed
  proceed-Keeps listening none next h k = h
  proceed-Keeps listening (some (ended s)) next h k = tt
  proceed-Keeps listening (some (blocked s)) next h k = h
  proceed-Keeps listening (some (idle s)) next h k = k s h

  put_back-Keeps :
      (listening : ℤ) (s : S) (r : Option Server)
      → Succeeds listening r
      → Keeps listening (put_back part s r)
  put_back-Keeps listening s r (t, e, h) = rw (e, part.server_put s t) h

  poll_shut_down-Keeps :
      (listening fd : ℤ) (revent : ℕ) (s : S)
      → IsHeaded listening (part.server s)
      → Keeps listening (poll_shut_down part fd revent s)
  unfolding poll_shut_down
  poll_shut_down-Keeps listening fd revent s h = elim (Bool-cases (bit_and revent 0x2000 == 0)) [
    | inl stays ↦ rw stays h
    | inr gone ↦ rw gone (
        put_back-Keeps listening s (delete_socket_rec fd (part.server s))
          (delete_socket_rec-Succeeds listening fd (part.server s) h))
  ]

  -- The poll handler keeps the listening socket at the head, whatever the event, if the callback
  -- for received data does.
  pub socket_sever_poll-Keeps :
      (rx : ℤ → S → Option (RxResult S)) (listening accepted fd : ℤ) (revent : ℕ) (s : S)
      → ((fd : ℤ) (t : S) → IsHeaded listening (part.server t) → Keeps listening (rx fd t))
      → IsHeaded listening (part.server s)
      → Keeps listening (socket_sever_poll part rx accepted fd revent s)
  unfolding socket_sever_poll
  socket_sever_poll-Keeps rx listening accepted fd revent s keeps (clients, e) =
      let then_shut_down = poll_shut_down-Keeps listening fd revent in
      elim (Bool-cases (eq_ℤ fd listening)) [
        | inl connects ↦
            rw (socket_sever_poll, e, connects)
              (put_back-Keeps listening s _
                (create_socket_rec-Succeeds listening accepted (part.server s) (clients, e)))
        | inr client ↦ elim (Bool-cases (bit_and revent 0x1 == 0)) [
          | inl quiet ↦
              rw (socket_sever_poll, e, client, quiet)
                (proceed-Keeps listening (some (idle s)) (poll_shut_down part fd revent)
                  (clients, e) then_shut_down)
          | inr rx_event ↦
              rw (socket_sever_poll, e, client, rx_event)
                (proceed-Keeps listening (rx fd s) (poll_shut_down part fd revent)
                  (keeps fd s (clients, e)) then_shut_down)
        ]
      ]
