-- ===== src/CommandLine/Flashed.antt =====
-- The client that flashes a light sends commands that take turns, as many as it was asked for.
use mathlib.Core.List.{map}
use lighting_gateway.Prelude.{
  if◌then◌else◌, ℕ, ◌%◌, ◌++◌, ◌+◌, ◌-◌, ◌<◌, ◌==◌, ◌^◌, ◌∙◌, ◌∷◌, ◌≡◌, ◌⊎◌, Bool, List, [], ap,
  append-nil, append_assoc, arith, false, get_or, inl, inr, length, length-set, ltb, none, refl,
  set, some, suc, take, true, zero,
}
use lighting_gateway.Prelude.Reading.{Bytes, hi_uint16, lo_uint16}
use lighting_gateway.Srpc.Incoming.Stream.{Frame, frame_bytes}
use lighting_gateway.CommandLine.{
  Line, Client, send_light_state, and_then, next_loops, flash_loop, flash,
}
use lighting_gateway.CommandLine.Sent.{Sends, firsts_lem, send_lem}

-- Six bytes, one, two, one and two that are not set lie in between.
abbrev light_payload : Bytes → (addr addr_mode ep state : ℕ) → Bytes
light_payload fill addr addr_mode ep state =
    addr_mode % 256
    ∷ lo_uint16 addr
    ∷ hi_uint16 addr
    ∷ get_or fill 3 0
    ∷ get_or fill 4 0
    ∷ get_or fill 5 0
    ∷ get_or fill 6 0
    ∷ get_or fill 7 0
    ∷ get_or fill 8 0
    ∷ ep % 256
    ∷ get_or fill 10 0
    ∷ get_or fill 11 0
    ∷ state
    ∷ get_or fill 13 0
    ∷ get_or fill 14 0
    ∷ []

abbrev pub light_frame : Bytes → (addr addr_mode ep state : ℕ) → Frame
light_frame fill addr addr_mode ep state = record {
  function_id = 0x82;
  payload = light_payload fill addr addr_mode ep state;
}

set5_length :
    (bs : Bytes) (a b c d e : ℕ)
    → length (set (set (set (set (set bs 0 a) 1 b) 2 c) 9 d) 12 e) ≡ length bs
set5_length bs a b c d e = rw (length-set, length-set, length-set, length-set, length-set) refl

pub sent_state :
    (fill : Bytes) (addr addr_mode ep state : ℕ) (l : Line)
    → length fill ≡ 128
    → Sends l
    → send_light_state fill addr addr_mode ep state l
      ≡ some (
          Client.running (record l {
            sent = l.sent ++ frame_bytes (light_frame fill addr addr_mode ep state) ∷ [];
          }))
unfolding send_light_state
sent_state fill addr addr_mode ep state l full works =
    let content =
      set
        (set (set (set (set fill 0 (addr_mode % 256)) 1 (lo_uint16 addr)) 2 (hi_uint16 addr)) 9
          (ep % 256))
        12 state in
    let size : length content ≡ 128 = set5_length fill _ _ _ _ _ ∙ full in
    let spread = firsts_lem 15 fill (omega arith) in
    let laid_out : take 15 content ≡ light_payload fill addr addr_mode ep state = rw spread refl in
    send_lem (record { cmd_id = 0x82; len = 15; p_data = content }) l (omega (arith, size)) works
    ∙ ap (λ b. some (Client.running (record l { sent = l.sent ++ (0x82 ∷ 15 ∷ b) ∷ [] }))) laid_out

abbrev pub bit : Bool → ℕ
bit on = if on then 1 else 0

-- Whether the light is on, in `n` commands that take turns; the last one is for the number 1.
abbrev pub alternating : ℕ → ℕ → List Bool
alternating start_with zero = []
alternating start_with (suc n) = (suc n % 2 == start_with) ∷ alternating start_with n

abbrev pub light_frames : Bytes → (addr addr_mode ep : ℕ) → List Bool → List Frame
light_frames fill addr addr_mode ep = map (λ on. light_frame fill addr addr_mode ep (bit on))

flash_loop_lem :
    (n fuel : ℕ) (fill : Bytes) (addr addr_mode ep start_with : ℕ) (l : Line)
    → n < fuel
    → length fill ≡ 128
    → Sends l
    → flash_loop fuel fill addr addr_mode ep start_with (n + 2) l
      ≡ some (
          Client.running (record l {
            sent =
                l.sent
                ++ map frame_bytes (light_frames fill addr addr_mode ep (alternating start_with n));
          }))
unfolding flash_loop and_then next_loops
flash_loop_lem n zero fill addr addr_mode ep start_with l enough full works = absurd (omega arith)
flash_loop_lem zero (suc fuel) fill addr addr_mode ep start_with l enough full works =
    rw append-nil refl
flash_loop_lem (suc n) (suc fuel) fill addr addr_mode ep start_with l enough full works =
    let on = suc n % 2 == start_with in
    let l' : Line = record l {
      sent = l.sent ++ frame_bytes (light_frame fill addr addr_mode ep (bit on)) ∷ [];
    } in
    let more : (suc n + 2 == 2) ≡ false = ground arith in
    let same : (suc n + 2) % 2 ≡ suc n % 2 = omega arith in
    let large : ltb 1 (suc n + 2) ≡ true = ground arith in
    let fewer : suc n + 2 - 1 ≡ n + 2 = omega arith in
    let next : next_loops (suc n + 2) ≡ n + 2 = rw (next_loops, large) fewer in
    let sent = sent_state fill addr addr_mode ep (bit on) l full works in
    let later =
      flash_loop_lem n fuel fill addr addr_mode ep start_with l' (omega arith) full works in
    rw (flash_loop, more, same, next, sent)
      (later
        ∙ rw
            (append_assoc l.sent (frame_bytes (light_frame fill addr addr_mode ep (bit on)) ∷ [])
              (map frame_bytes (light_frames fill addr addr_mode ep (alternating start_with n))))
            refl)

-- With a number of commands from 1 to 65533 on the command line, so many are sent, and the client ends.
pub flashed :
    (n fuel : ℕ) (fill : Bytes) (addr addr_mode ep start_with : ℕ) (l : Line)
    → 0 < n
    → n < 65534
    → n < fuel
    → length fill ≡ 128
    → Sends l
    → flash fuel fill addr addr_mode ep start_with n l
      ≡ some (
          Client.running (record l {
            sent =
                l.sent
                ++ map frame_bytes (
                    light_frames fill
                      (addr % 2 ^ 16)
                      (addr_mode % 2 ^ 8)
                      (ep % 2 ^ 8)
                      (alternating start_with n));
          }))
unfolding flash
flashed n fuel fill addr addr_mode ep start_with l some_loops few enough full works =
    let small : n % 2 ^ 16 ≡ n = omega arith in
    let larger : (n + 2) % 2 ^ 16 ≡ n + 2 = omega arith in
    let nonzero : (n == 0) ≡ false = ground arith in
    rw (flash, small, nonzero, larger)
      (flash_loop_lem n fuel fill (addr % 2 ^ 16) (addr_mode % 2 ^ 8) (ep % 2 ^ 8) start_with l
        enough full works)

-- A number that is not 2 and stays below it comes back for ever.
endless :
    (fuel : ℕ) (fill : Bytes) (addr addr_mode ep start_with loops : ℕ) (l : Line)
    → loops < 2
    → length fill ≡ 128
    → Sends l
    → flash_loop fuel fill addr addr_mode ep start_with loops l ≡ none
unfolding flash_loop and_then next_loops
endless zero fill addr addr_mode ep start_with loops l low full works = refl
endless (suc fuel) fill addr addr_mode ep start_with loops l low full works =
    let on = loops % 2 == start_with in
    let l' : Line = record l {
      sent = l.sent ++ frame_bytes (light_frame fill addr addr_mode ep (bit on)) ∷ [];
    } in
    let more : (loops == 2) ≡ false = ground arith in
    let stays : next_loops loops < 2 = ground arith in
    rw (flash_loop, more, sent_state fill addr addr_mode ep (bit on) l full works)
      (endless fuel fill addr addr_mode ep start_with (next_loops loops) l' stays full works)

-- Asked for no commands, or for 65534 or 65535, the client that flashes a light never ends: no
-- number of rounds gives a result, if no send fails and the memory of the message has 128 bytes.
pub flash-endless :
    (n fuel : ℕ) (fill : Bytes) (addr addr_mode ep start_with : ℕ) (l : Line)
    → (n ≡ 0) ⊎ ((n ≡ 65534) ⊎ (n ≡ 65535))
    → length fill ≡ 128
    → Sends l
    → flash fuel fill addr addr_mode ep start_with n l ≡ none
unfolding flash
flash-endless n fuel fill addr addr_mode ep start_with l which full works =
    let loops = if n % 2 ^ 16 == 0 then 0 else (n % 2 ^ 16 + 2) % 2 ^ 16 in
    let low : loops < 2 = elim which [
      | inl none_asked ↦ rw none_asked (omega arith)
      | inr (inl one_short) ↦ rw one_short (omega arith)
      | inr (inr largest) ↦ rw largest (omega arith)
    ] in
    endless fuel fill (addr % 2 ^ 16) (addr_mode % 2 ^ 8) (ep % 2 ^ 8) start_with loops l low full
      works
