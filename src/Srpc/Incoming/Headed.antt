-- ===== src/Srpc/Incoming/Headed.antt =====
-- The calls that send to clients leave the listening socket at the head of the list of sockets.
use lighting_gateway.Prelude.{
  ◌+◌, ◌∷◌, Bool-cases, List, Option, Option-cases, [], arith, get_or, inl, inr, leb, length, none,
  some, take,
}
use lighting_gateway.Prelude.Reading.{Bytes, Reader, ◌>>=◌}
use lighting_gateway.Prelude.Int.{ℤ}
use lighting_gateway.Lists.{Lists}
use lighting_gateway.Sockets.Records.{IsHeaded}
use lighting_gateway.Srpc.{
  Gateway, Outcome, Action, Handler, running, exited, System, srpc_send, srpc_send_all,
}
use lighting_gateway.Sockets.{socket_sever_send}
use lighting_gateway.Sockets.Broadcast.{send_allclients-Succeeds}
use lighting_gateway.Srpc.Store.{finish, send_each}

-- What a call leaves to go on with, if anything, has the listening socket at the head.
module _ {L : Type 0} (listening : ℤ) where
  abbrev pub HeadedAfter : Option (Outcome L) → Type 0
  HeadedAfter none = Unit
  HeadedAfter (some (exited g)) = Unit
  HeadedAfter (some (running g)) = IsHeaded listening g.server

  abbrev pub StaysHeaded : Option (Gateway L) → Type 0
  StaysHeaded none = Unit
  StaysHeaded (some g) = IsHeaded listening g.server

  -- The action keeps it.
  abbrev pub Leaves : Option (Action L × Bytes) → Type 0
  Leaves none = Unit
  Leaves (some (f, rest)) = (g : Gateway L) → IsHeaded listening g.server → HeadedAfter (f g)

  continue_lem :
      {A : Type 0} (r : Option (A × Bytes)) (k : A → Handler L)
      → ((a : A) (bs : Bytes) → Leaves (k a bs))
      → Leaves (((λ _. r) >>= k) [])
  continue_lem none k h = tt
  continue_lem (some (a, rest)) k h = h a rest

  pub bind-Leaves :
      {A : Type 0} (m : Reader A) (k : A → Handler L)
      → ((a : A) (bs : Bytes) → Leaves (k a bs))
      → (bs : Bytes) → Leaves ((m >>= k) bs)
  bind-Leaves m k h bs = continue_lem (m bs) k h

module _ {L : Type 0} (ops : Lists L) (sys : System) (listening : ℤ) where
  pub finish_lem :
      (r : Option (Gateway L)) → StaysHeaded listening r → HeadedAfter listening (finish ops sys r)
  finish_lem none h = tt
  finish_lem (some g) h = h

  pub srpc_send-StaysHeaded :
      (msg : Bytes) (fd : ℤ) (g : Gateway L)
      → IsHeaded listening g.server
      → StaysHeaded listening (srpc_send sys msg fd g)
  unfolding srpc_send socket_sever_send
  srpc_send-StaysHeaded msg fd g h = ground arith

  pub srpc_send_all-StaysHeaded :
      (msg : Bytes) (g : Gateway L)
      → IsHeaded listening g.server
      → StaysHeaded listening (srpc_send_all sys msg g)
  unfolding srpc_send_all
  srpc_send_all-StaysHeaded msg g h =
      let len = get_or msg 1 0 + 2 in
      let (t, n, sent, headed) =
        send_allclients-Succeeds sys.write_result (take len msg) listening g.server h in
      elim (Bool-cases (leb len (length msg))) [
        | inl room ↦ rw (srpc_send_all, room, sent) headed
        | inr short ↦ rw (srpc_send_all, short) tt
      ]

  pub send_each-StaysHeaded :
      {A : Type 0} (make : A → Option Bytes) (rest : List A) (fd : ℤ) (g : Gateway L)
      → IsHeaded listening g.server
      → StaysHeaded listening (send_each ops sys make rest fd g)
  unfolding send_each
  send_each-StaysHeaded make [] fd g h = h
  send_each-StaysHeaded make (a ∷ rest) fd g h = elim (Option-cases (make a)) [
    | inl missing ↦ rw (send_each, missing) tt
    | inr (msg, made) ↦
        (let kept = srpc_send-StaysHeaded msg fd g h in
          elim (Option-cases (srpc_send sys msg fd g)) [
            | inl fault ↦ rw (send_each, made, fault) tt
            | inr (g', sent) ↦
                rw (send_each, made, sent) (send_each-StaysHeaded make rest fd g' (rw sent at kept))
          ])
  ]
