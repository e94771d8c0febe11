-- ===== src/Soc/Api/Heard.antt =====
-- What a listener that knows the serial protocol hears of calls, how the transaction numbers run,
-- and the size of the writes.
use mathlib.Core.List.{map}
use mathlib.Core.Option
use lighting_gateway.Prelude.{
  ap₂, ℕ, ◌++◌, ◌∙◌, ◌∷◌, ◌≡◌, All, All-append, List, Option, [], ap, append-nil, append_assoc,
  arith, concat, length, none, refl, some, suc, sym, zero,
}
use lighting_gateway.Prelude.Reading.{Bytes}
use lighting_gateway.Soc.Port.{Soc, send}
use lighting_gateway.Soc.Wire.{Request, encode, decode}
use lighting_gateway.Soc.Wire.RoundTrip.{Fits, IsWord, decode-encode}
use lighting_gateway.Soc.Api.{
  Call, perform, requests, seq_after, touch_link, bridge_start_nwk, reset_to_fn, send_reset_to_fn,
  open_nwk, get_info, identify, identify_effect, set_state, set_level, set_hue, set_sat,
  set_hue_sat, add_group, store_scene, recall_scene, get_state, get_level, get_hue, get_sat,
  get_model,
}
use lighting_gateway.Soc.Api.Sending.{line, perform-Adds}
use lighting_gateway.Soc.Port.Chunks.{IsChunk}

-- The requests of a run of frames; `none` if a frame is broken or bytes are left over.
unfoldable pub decode_many : ℕ → Bytes → Option (List Request)
decode_many zero [] = some []
decode_many zero (_ ∷ _) = none
decode_many (suc n) buf = elim (decode buf) [
  | none ↦ none
  | some (r, rest) ↦ Option.map (λ rs. r ∷ rs) (decode_many n rest)
]

decode_many-encode :
    (rs : List Request) → All Fits rs → decode_many (length rs) (concat (map encode rs)) ≡ some rs
unfolding decode_many
decode_many-encode [] h = refl
decode_many-encode (r ∷ rs) h =
    rw (decode_many, decode-encode r (concat (map encode rs)) h.0, decode_many-encode rs h.1) refl

-- The sixteen-bit arguments of a call are in range.
abbrev pub InRange : Call → Type 0
InRange touch_link = Unit
InRange bridge_start_nwk = Unit
InRange reset_to_fn = Unit
InRange send_reset_to_fn = Unit
InRange (open_nwk d) = Unit
InRange get_info = Unit
InRange (identify t to) = IsWord to.dst_addr
InRange (identify_effect e v to) = IsWord to.dst_addr
InRange (set_state x to) = IsWord to.dst_addr
InRange (set_level x t to) = IsWord to.dst_addr
InRange (set_hue x t to) = IsWord to.dst_addr
InRange (set_sat x t to) = IsWord to.dst_addr
InRange (set_hue_sat x y t to) = IsWord to.dst_addr
InRange (add_group g to) = IsWord to.dst_addr
InRange (store_scene g x to) = IsWord to.dst_addr
InRange (recall_scene g x to) = IsWord to.dst_addr
InRange (get_state to) = IsWord to.dst_addr
InRange (get_level to) = IsWord to.dst_addr
InRange (get_hue to) = IsWord to.dst_addr
InRange (get_sat to) = IsWord to.dst_addr
InRange (get_model to) = IsWord to.dst_addr
InRange (Call.bind src src_endpoint src_ieee dst_endpoint dst_ieee cluster) =
    IsWord src × IsWord cluster

All-requests-Fits : (c : Call) (seq : ℕ) → InRange c → All Fits (requests c seq)
unfolding requests
All-requests-Fits touch_link seq h = (tt, tt)
All-requests-Fits bridge_start_nwk seq h = (tt, tt)
All-requests-Fits reset_to_fn seq h = (tt, tt)
All-requests-Fits send_reset_to_fn seq h = (tt, tt)
All-requests-Fits (open_nwk d) seq h = (tt, (tt, tt))
All-requests-Fits get_info seq h = (tt, tt)
All-requests-Fits (identify t to) seq h = ((h, omega arith, omega arith), tt)
All-requests-Fits (identify_effect e v to) seq h = ((h, omega arith, omega arith), tt)
All-requests-Fits (set_state x to) seq h = ((h, omega arith, omega arith), tt)
All-requests-Fits (set_level x t to) seq h = ((h, omega arith, omega arith), tt)
All-requests-Fits (set_hue x t to) seq h = ((h, omega arith, omega arith), tt)
All-requests-Fits (set_sat x t to) seq h = ((h, omega arith, omega arith), tt)
All-requests-Fits (set_hue_sat x y t to) seq h = ((h, omega arith, omega arith), tt)
All-requests-Fits (add_group g to) seq h = ((h, omega arith, omega arith), tt)
All-requests-Fits (store_scene g x to) seq h = ((h, omega arith, omega arith), tt)
All-requests-Fits (recall_scene g x to) seq h = ((h, omega arith, omega arith), tt)
All-requests-Fits (get_state to) seq h = ((h, omega arith, omega arith), tt)
All-requests-Fits (get_level to) seq h = ((h, omega arith, omega arith), tt)
All-requests-Fits (get_hue to) seq h = ((h, omega arith, omega arith), tt)
All-requests-Fits (get_sat to) seq h = ((h, omega arith, omega arith), tt)
All-requests-Fits (get_model to) seq h = ((h, omega arith, omega arith), tt)
All-requests-Fits (Call.bind src src_endpoint src_ieee dst_endpoint dst_ieee cluster) seq h =
    ((h.0, h.1, refl, refl), tt)

-- One call of a command function with sixteen-bit addresses adds to the line bytes that decode to
-- exactly the requests that the call stands for, and no byte is left over.
pub heard :
    (c : Call) (s : Soc)
    → InRange c
    → (sent : Bytes) × (line (perform c s) ≡ line s ++ sent)
      × (decode_many (length (requests c s.trans_seq_number)) sent
          ≡ some (requests c s.trans_seq_number))
heard c s h =
    let rs = requests c s.trans_seq_number in
    (
      concat (map encode rs),
      (perform-Adds c s).line_is,
      decode_many-encode rs (All-requests-Fits c s.trans_seq_number h),
    )

-- A call takes one transaction number, modulo 256, if it sends a cluster library command, and
-- leaves the number as it is otherwise.
pub trans_seq_number-perform :
    (c : Call) (s : Soc) → (perform c s).trans_seq_number ≡ seq_after c s.trans_seq_number
unfolding perform seq_after send
trans_seq_number-perform touch_link s = refl
trans_seq_number-perform _ s = refl

-- If every write so far had between one and eight bytes, the same holds after any call of a command
-- function.
pub perform-IsChunk :
    (c : Call) (s : Soc) → All IsChunk s.written → All IsChunk (perform c s).written
perform-IsChunk c s h = (perform-Adds c s).chunked h

-- A run of calls, the first one first, and what it asks for.
abbrev pub perform_all : List Call → Soc → Soc
perform_all [] s = s
perform_all (c ∷ cs) s = perform_all cs (perform c s)

abbrev pub requests_all : List Call → ℕ → List Request
requests_all [] seq = []
requests_all (c ∷ cs) seq = requests c seq ++ requests_all cs (seq_after c seq)

concat-encode-append :
    (a b : List Request)
    → concat (map encode (a ++ b)) ≡ concat (map encode a) ++ concat (map encode b)
concat-encode-append [] b = refl
concat-encode-append (r ∷ a) b =
    ap (λ l. encode r ++ l) (concat-encode-append a b)
    ∙ sym (append_assoc (encode r) (concat (map encode a)) (concat (map encode b)))

sent_all :
    (cs : List Call) (s : Soc)
    → line (perform_all cs s) ≡ line s ++ concat (map encode (requests_all cs s.trans_seq_number))
sent_all [] s = sym (append-nil (line s))
sent_all (c ∷ cs) s =
    let first = concat (map encode (requests c s.trans_seq_number)) in
    let later = λ (seq : ℕ). concat (map encode (requests_all cs seq)) in
    sent_all cs (perform c s)
    ∙ ap₂ (λ l seq. l ++ later seq) (perform-Adds c s).line_is (trans_seq_number-perform c s)
    ∙ append_assoc (line s) first (later (seq_after c s.trans_seq_number))
    ∙ ap (λ l. line s ++ l)
        (sym (
          concat-encode-append (requests c s.trans_seq_number)
            (requests_all cs (seq_after c s.trans_seq_number))))

All-requests_all-Fits : (cs : List Call) (seq : ℕ) → All InRange cs → All Fits (requests_all cs seq)
All-requests_all-Fits [] seq h = tt
All-requests_all-Fits (c ∷ cs) seq h =
    All-append Fits (requests c seq) _ (All-requests-Fits c seq h.0)
      (All-requests_all-Fits cs (seq_after c seq) h.1)

-- For any run of calls of the driver's command functions whose network addresses (and the cluster
-- of a binding) are sixteen-bit numbers, the bytes added to the serial line decode, by an
-- independently described reader that checks length and check sum of each frame, to exactly the
-- requests of the calls, in their order, each with its own transaction number, and no byte is left
-- over.
pub heard_run :
    (cs : List Call) (s : Soc)
    → All InRange cs
    → (sent : Bytes) × (line (perform_all cs s) ≡ line s ++ sent)
      × (decode_many (length (requests_all cs s.trans_seq_number)) sent
          ≡ some (requests_all cs s.trans_seq_number))
heard_run cs s h =
    let rs = requests_all cs s.trans_seq_number in
    (
      concat (map encode rs),
      sent_all cs s,
      decode_many-encode rs (All-requests_all-Fits cs s.trans_seq_number h),
    )
