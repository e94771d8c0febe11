-- ===== src/CommandLine/Sent.antt =====
-- A message that a command line client sends.
use lighting_gateway.Prelude.{
  ℕ, ◌++◌, ◌+◌, ◌∷◌, ◌≡◌, ◌≤◌, List, [], ap, arith, drop, false, get_or, length, ltb, refl, some,
  suc, take, zero,
}
use lighting_gateway.Prelude.Int.{negsuc, eq_ℤ}
use lighting_gateway.Prelude.Reading.{Bytes}
use lighting_gateway.CommandLine.{Line, Client, socket_client_send_data, MsgData}

-- `send` never fails.
abbrev pub Sends : Line → Type 0
Sends l = (before : List Bytes) (buf : Bytes) → eq_ℤ (l.send before buf) (negsuc 0) ≡ false

-- The first `n` bytes one by one, and what follows.
abbrev pub firsts : ℕ → Bytes → Bytes → Bytes
firsts zero bs rest = rest
firsts (suc n) bs rest = get_or bs 0 0 ∷ firsts n (drop 1 bs) rest

pub firsts_lem : (n : ℕ) (bs : Bytes) → n ≤ length bs → bs ≡ firsts n bs (drop n bs)
firsts_lem zero bs h = refl
firsts_lem (suc n) [] h = absurd (omega arith)
firsts_lem (suc n) (b ∷ bs) h = ap (λ l. b ∷ l) (firsts_lem n bs (omega arith))

-- A whole message is handed to `send`.
pub send_lem :
    (m : MsgData) (l : Line)
    → m.len ≤ length m.p_data
    → Sends l
    → socket_client_send_data m l
      ≡ some (
          Client.running
            (record l { sent = l.sent ++ (m.cmd_id ∷ m.len ∷ take m.len m.p_data) ∷ [] }))
unfolding socket_client_send_data
send_lem m l fits works =
    let size : m.len + 2 ≡ suc (suc m.len) = omega arith in
    let room : ltb (suc (suc (length m.p_data))) (suc (suc m.len)) ≡ false = ground (arith, fits) in
    rw (socket_client_send_data, size, room, works) refl
