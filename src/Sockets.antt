-- ===== src/Sockets.antt =====
-- The TCP server (server/Source/socket_server.c): the list of its sockets, the first of which is
-- the listening one. `none` is a use of a pointer or of an array element that is not there.
pub mod Records
pub mod Broadcast
pub mod Close
pub mod Distinct
use mathlib.Core.Option
use lighting_gateway.Prelude.{
  if◌then◌else◌, ℕ, ◌++◌, ◌-◌, ◌==◌, ◌^◌, ◌||◌, ◌∷◌, ◌≡◌, Bool, List, Option, [], bit_and, false,
  length, ltb, none, some, suc, take, true, zero,
}
use lighting_gateway.Prelude.Int.{ℤ, pos, negsuc, eq_ℤ, is_negative}
use lighting_gateway.Prelude.Reading.{Bytes}

-- `socketRecordHead` as the list of `socketFd`, empty for `NULL`; the calls of `close` and of `write`
-- so far.
pub record Server : Type 0 where
  pub records : List ℤ
  pub closed : List ℤ
  pub written : List (ℤ × Bytes)

-- `MAX_CLIENTS`
abbrev pub max_clients : ℕ
max_clients = 50

-- `createSocketRec`; the argument is what `accept` returns. An error is printed, and the record is
-- added all the same.
unfoldable pub create_socket_rec : ℤ → Server → Option Server
create_socket_rec accepted s = elim s.records [
  | [] ↦ none
  | listening ∷ clients ↦ some (record s { records = s.records ++ accepted ∷ [] })
]

pub data Deletion : Type 0 where
  not_found : Deletion
  -- the first record, which is not removed
  is_first : Deletion
  -- the records that are left
  removed : List ℤ → Deletion

abbrev pub keep : ℤ → Deletion → Deletion
keep r (removed rest) = removed (r ∷ rest)
keep r not_found = not_found
keep r is_first = is_first

-- The search of `deleteSocketRec`; `first` says that `prevRec` is `NULL`.
unfoldable pub delete_loop : Bool → ℤ → List ℤ → Deletion
delete_loop first rm [] = not_found
delete_loop first rm (r ∷ rest) =
    if eq_ℤ r rm
    then (if first then is_first else removed rest)
    else keep r (delete_loop false rm rest)

unfoldable pub delete_result : ℤ → Server → Deletion → Server
delete_result rm s not_found = s
delete_result rm s is_first = s
delete_result rm s (removed rest) = record s { records = rest; closed = s.closed ++ rm ∷ [] }

unfoldable pub delete_socket_rec : ℤ → Server → Option Server
unfolding delete_loop delete_result
delete_socket_rec rm s = elim s.records [
  | [] ↦ none
  | _ ∷ _ ↦ some (delete_result rm s (delete_loop true rm s.records))
]

-- `socketSeverInit`; the arguments are what `socket` and `bind` return. A socket that was opened before
-- is kept.
unfoldable pub socket_sever_init : ℤ → ℤ → Server → ℤ × Server
socket_sever_init fd stat s = elim s.records [
  | [] ↦
      if is_negative fd || is_negative stat
      then (negsuc 0, s)
      else (pos 0, record s { records = fd ∷ [] })
  | _ ∷ _ ↦ (pos 0, s)
]

-- `socketSeverGetClientFds`
unfoldable pub socket_sever_get_client_fds : ℕ → Server → List ℤ
socket_sever_get_client_fds max_fds s = take max_fds s.records

-- `socketSeverGetNumClients`; -1 as a `uint32` where there is no record.
unfoldable pub socket_sever_get_num_clients : Server → ℕ
socket_sever_get_num_clients s = if length s.records == 0 then 2 ^ 32 - 1 else length s.records

-- What the callback for received data comes to, in the state of the whole program.
pub data RxResult (S : Type 0) : Type 0 where
  -- nothing is left to read
  idle : S → RxResult S
  -- the process has ended
  ended : S → RxResult S
  -- `read` waits for the client
  blocked : S → RxResult S

-- Where the sockets stand in the state of the whole program.
pub record Part (S : Type 0) : Type 0 where
  pub server : S → Server
  pub put : S → Server → S
  pub server_put : (s : S) (t : Server) → server (put s t) ≡ t

module _ {S : Type 0} where
  -- The program goes on if it has not ended and does not wait.
  unfoldable pub proceed : Option (RxResult S) → (S → Option (RxResult S)) → Option (RxResult S)
  proceed none next = none
  proceed (some (ended s)) next = some (ended s)
  proceed (some (blocked s)) next = some (blocked s)
  proceed (some (idle s)) next = next s

module _ {S : Type 0} (part : Part S) where
  abbrev pub put_back : S → Option Server → Option (RxResult S)
  put_back s none = none
  put_back s (some t) = some (idle (part.put s t))

  -- The second test of `socketSeverPoll`.
  unfoldable pub poll_shut_down : ℤ → ℕ → S → Option (RxResult S)
  unfolding delete_socket_rec
  poll_shut_down fd revent s =
      if bit_and revent 0x2000 == 0
      then some (idle s)
      else put_back s (delete_socket_rec fd (part.server s))

  -- `socketSeverPoll`. `rx` is the callback for received data; the callback for connections of
  -- interface_srpcserver.c does nothing.
  unfoldable pub socket_sever_poll :
      (ℤ → S → Option (RxResult S)) → ℤ → ℤ → ℕ → S → Option (RxResult S)
  unfolding create_socket_rec proceed poll_shut_down
  socket_sever_poll rx accepted fd revent s = elim (part.server s).records [
    | [] ↦ none
    | listening ∷ _ ↦
        if eq_ℤ fd listening
        then put_back s (create_socket_rec accepted (part.server s))
        else proceed (if bit_and revent 0x1 == 0 then some (idle s) else rx fd s)
            (poll_shut_down fd revent)
  ]

-- `socketSeverSend`: 0, or what a failed `write` returns. `result` is what `write` returns for a
-- socket.
unfoldable pub socket_sever_send : (ℤ → ℤ) → Bytes → ℤ → Server → ℤ × Server
socket_sever_send result buf fd s = if eq_ℤ fd (pos 0) then (pos 0, s) else (
  if is_negative (result fd) then result fd else pos 0,
  record s { written = s.written ++ (fd, buf) ∷ [] },
)

-- The loop of `socketSeverSendAllclients` over the records behind the first.
unfoldable pub send_loop : (ℤ → ℤ) → Bytes → List ℤ → Server → Option (ℤ × Server)
unfolding delete_socket_rec
send_loop result buf [] s = some (pos 0, s)
send_loop result buf (fd ∷ rest) s =
    let s' = record s { written = s.written ++ (fd, buf) ∷ [] } in
    let next = send_loop result buf rest s' in
    if is_negative (result fd)
    then Option.map (λ t. (result fd, t)) (delete_socket_rec fd s')
    else next

unfoldable pub socket_sever_send_allclients : (ℤ → ℤ) → Bytes → Server → Option (ℤ × Server)
unfolding send_loop
socket_sever_send_allclients result buf s = elim s.records [
  | [] ↦ none
  | _ ∷ clients ↦ send_loop result buf clients s
]

-- `while (socketSeverGetNumClients() > 1) deleteSocketRec(fds[idx++]);`. `none` also if the fuel
-- runs out.
unfoldable pub close_loop : ℕ → List ℤ → Server → Option Server
unfolding socket_sever_get_num_clients delete_socket_rec
close_loop zero fds s = none
close_loop (suc fuel) fds s = elim (ltb 1 (socket_sever_get_num_clients s)) [
  | false ↦ some s
  | true ↦ elim fds [
    | [] ↦ none
    | fd ∷ rest ↦ elim (delete_socket_rec fd s) [ none ↦ none | some s' ↦ close_loop fuel rest s' ]
  ]
]

-- `close(fds[0])`, if it is not 0.
unfoldable pub close_listening : List ℤ → Server → Option Server
close_listening [] s = none
close_listening (fd ∷ _) s =
    some (if eq_ℤ fd (pos 0) then s else record s { closed = s.closed ++ fd ∷ [] })

-- `socketSeverClose` with an array of `max` places. The loop cannot pass the end of the array, so
-- its length bounds the rounds.
unfoldable pub close_with : ℕ → Server → Option Server
unfolding close_loop close_listening socket_sever_get_client_fds
close_with max s =
    let fds = socket_sever_get_client_fds max s in
    elim (close_loop (suc max) fds s) [ none ↦ none | some s' ↦ close_listening fds s' ]

unfoldable pub socket_sever_close : Server → Option Server
unfolding close_with
socket_sever_close = close_with max_clients
