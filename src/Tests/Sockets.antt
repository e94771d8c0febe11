-- ===== src/Tests/Sockets.antt =====
-- A server with a listening socket and three clients.
use lighting_gateway.Prelude.{
  if◌then◌else◌, ℕ, ◌∷◌, ◌≡◌, All, List, [], arith, none, refl, some, suc, zero,
}
use lighting_gateway.Prelude.Int.{ℤ, pos, negsuc, eq_ℤ}
use lighting_gateway.Prelude.Reading.{Bytes}
use lighting_gateway.Sockets.{Server, socket_sever_send_allclients, socket_sever_close}
use lighting_gateway.Sockets.Broadcast.{send_allclients_fails}
use lighting_gateway.Sockets.Close.{IsClient, socket_sever_close_done, socket_sever_close-overruns}

abbrev server : Server
server = record { records = pos 3 ∷ pos 4 ∷ pos 5 ∷ pos 6 ∷ []; closed = []; written = [] }

abbrev works : ℤ → ℤ
works fd = pos 2

abbrev fails_at_5 : ℤ → ℤ
fails_at_5 fd = if eq_ℤ fd (pos 5) then negsuc 0 else pos 2

abbrev message : Bytes
message = 0x8D ∷ 0 ∷ []

-- Clients with one number, as after failed calls of `accept`.
abbrev copies : ℕ → List ℤ
copies zero = []
copies (suc n) = negsuc 0 ∷ copies n

All-copies-IsClient : (n : ℕ) → All (IsClient (pos 3)) (copies n)
All-copies-IsClient zero = tt
All-copies-IsClient (suc n) = (refl, All-copies-IsClient n)

send_allclients_fails_example :
    socket_sever_send_allclients fails_at_5 message server
    ≡ some (
      negsuc 0,
      record {
        records = pos 3 ∷ pos 4 ∷ pos 6 ∷ [];
        closed = pos 5 ∷ [];
        written = (pos 4, message) ∷ (pos 5, message) ∷ [];
      },
    )
send_allclients_fails_example =
    send_allclients_fails fails_at_5 message server (pos 3) (pos 4 ∷ []) (pos 5) (pos 6 ∷ []) refl
      (refl, tt) refl refl

socket_sever_close_done_example :
    socket_sever_close server
    ≡ some (record server { records = pos 3 ∷ []; closed = pos 4 ∷ pos 5 ∷ pos 6 ∷ pos 3 ∷ [] })
socket_sever_close_done_example =
    socket_sever_close_done (pos 3) server (pos 4 ∷ pos 5 ∷ pos 6 ∷ []) refl (omega arith)
      (refl, (refl, (refl, tt))) refl

socket_sever_close-overruns_example :
    socket_sever_close (record server { records = pos 3 ∷ copies 50 }) ≡ none
socket_sever_close-overruns_example =
    socket_sever_close-overruns (pos 3) (record server { records = pos 3 ∷ copies 50 }) (copies 50)
      refl (omega arith) (All-copies-IsClient 50)
