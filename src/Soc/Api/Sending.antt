-- ===== src/Soc/Api/Sending.antt =====
-- Every command function puts on the line the frames of the requests that it stands for.
use lighting_gateway.Prelude.{
  if◌then◌else◌, ℕ, ◌%◌, ◌++◌, ◌<◌, ◌==◌, ◌∙◌, ◌∷◌, ◌≡◌, All, List, [], append-nil, append_assoc,
  arith, concat, length, length-append, refl, sym,
}
use lighting_gateway.Prelude.Reading.{Bytes, hi_uint16, lo_uint16}
use lighting_gateway.Soc.Port.{Soc, send, zb_soc_transport_write, next_seq}
use lighting_gateway.Soc.Port.Checksum.{calc_fcs_lem, checksum}
use lighting_gateway.Soc.Port.Chunks.{concat-transport_loop, IsChunk, send-IsChunk}
use mathlib.Core.List.{map}
use lighting_gateway.Soc.Command.Clusters.{
  cluster_on_off, cluster_basic, cluster_identify, cluster_groups, cluster_scenes,
  cluster_level_control, cluster_color_control,
}
use lighting_gateway.Soc.Wire.{sealed, Request, body, encode, app, permit_join, device_info}
use lighting_gateway.Soc.Api.{
  Call, perform, requests, zcl_request, octets, touch_link, bridge_start_nwk, reset_to_fn,
  send_reset_to_fn, open_nwk, get_info, identify, identify_effect, set_state, set_level, set_hue,
  set_sat, set_hue_sat, add_group, store_scene, recall_scene, get_state, get_level, get_hue,
  get_sat, get_model,
}

-- All bytes that were handed to the port.
abbrev pub line : Soc → Bytes
line s = concat s.written

pub concat-append : (a b : List Bytes) → concat (a ++ b) ≡ concat a ++ concat b
concat-append [] b = refl
concat-append (x ∷ a) b = rw (concat-append a b) (sym (append_assoc x (concat a) (concat b)))

line-transport_write :
    (buf : Bytes) (n : ℕ) (s : Soc)
    → length buf ≡ n
    → n < 256
    → line (zb_soc_transport_write buf n s) ≡ line s ++ buf
unfolding zb_soc_transport_write
line-transport_write buf n s e h =
    let small : n % 256 ≡ length buf = omega arith in
    rw (small, concat-append, concat-transport_loop (length buf) buf (omega arith)) refl

length-sealed : (content : Bytes) → length (sealed content) ≡ length (0xFE ∷ (content ++ 0 ∷ []))
length-sealed content =
    omega (arith, length-append content (checksum content ∷ []), length-append content (0 ∷ []))

-- An array with a placeholder for the check sum goes out with the check sum.
line-send :
    (content : Bytes) (s : Soc)
    → length (0xFE ∷ (content ++ 0 ∷ [])) < 256
    → line (send (0xFE ∷ (content ++ 0 ∷ [])) s) ≡ line s ++ sealed content
unfolding send
line-send content s h =
    rw (calc_fcs_lem 0xFE content) (line-transport_write _ _ s (length-sealed content) h)

-- The writes `w'` are those of `w` and some more that hold the bytes `bs`, none of them longer than
-- eight bytes or empty.
pub record Adds (bs : Bytes) (w w' : List Bytes) : Type 0 where
  pub line_is : concat w' ≡ concat w ++ bs
  pub chunked : All IsChunk w → All IsChunk w'

-- One command array.
send-Adds :
    (r : Request) (s : Soc)
    → length (0xFE ∷ (body r ++ 0 ∷ [])) < 256
    → Adds (concat (encode r ∷ [])) s.written (send (0xFE ∷ (body r ++ 0 ∷ [])) s).written
unfolding encode
send-Adds r s h = record {
  line_is = rw append-nil (line-send (body r) s h);
  chunked = send-IsChunk (0xFE ∷ (body r ++ 0 ∷ [])) s h;
}

-- Whatever function is called, the bytes that go to the port are, behind all that went before,
-- the frames of the requests that the call stands for, in order; they go in pieces of one to eight
-- bytes.
pub perform-Adds :
    (c : Call) (s : Soc)
    → Adds (concat (map encode (requests c s.trans_seq_number))) s.written (perform c s).written
unfolding perform requests body
perform-Adds touch_link s = send-Adds (app 0x01 0) s (omega arith)
perform-Adds bridge_start_nwk s = send-Adds (app 0x07 0) s (omega arith)
perform-Adds reset_to_fn s = send-Adds (app 0x02 0) s (omega arith)
perform-Adds send_reset_to_fn s = send-Adds (app 0x06 0) s (omega arith)
perform-Adds (open_nwk duration) s =
    let local = send (0xFE ∷ (body (app 0x05 duration) ++ 0 ∷ [])) s in
    let first = send-Adds (app 0x05 duration) s (omega arith) in
    let second = send-Adds (permit_join duration) local (omega arith) in
    record {
      line_is = second.line_is ∙ rw first.line_is (simp (append_assoc, append-nil));
      chunked = λ h. second.chunked (first.chunked h);
    }
perform-Adds get_info s = send-Adds (device_info) s (omega arith)
perform-Adds (identify time to) s =
    send-Adds
      (zcl_request to cluster_identify 1 s.trans_seq_number 0x00
        (lo_uint16 time ∷ hi_uint16 time ∷ []))
      (next_seq s) (omega arith)
perform-Adds (identify_effect effect varient to) s =
    send-Adds (zcl_request to cluster_identify 1 s.trans_seq_number 0x40 (effect ∷ varient ∷ []))
      (next_seq s) (omega arith)
perform-Adds (set_state state to) s =
    send-Adds
      (zcl_request to cluster_on_off 1 s.trans_seq_number (if state == 0 then 0 else 1) ([]))
      (next_seq s) (omega arith)
perform-Adds (set_level level time to) s =
    send-Adds
      (zcl_request to cluster_level_control 1 s.trans_seq_number 0x00
        (level ∷ lo_uint16 time ∷ hi_uint16 time ∷ []))
      (next_seq s) (omega arith)
perform-Adds (set_hue hue time to) s =
    send-Adds
      (zcl_request to cluster_color_control 1 s.trans_seq_number 0x00
        (hue ∷ 0 ∷ lo_uint16 time ∷ hi_uint16 time ∷ []))
      (next_seq s) (omega arith)
perform-Adds (set_sat sat time to) s =
    send-Adds
      (zcl_request to cluster_color_control 1 s.trans_seq_number 0x03
        (sat ∷ lo_uint16 time ∷ hi_uint16 time ∷ []))
      (next_seq s) (omega arith)
perform-Adds (set_hue_sat hue sat time to) s =
    send-Adds
      (zcl_request to cluster_color_control 1 s.trans_seq_number 0x06
        (hue ∷ sat ∷ lo_uint16 time ∷ hi_uint16 time ∷ []))
      (next_seq s) (omega arith)
perform-Adds (add_group group to) s =
    send-Adds
      (zcl_request to cluster_groups 1 s.trans_seq_number 0x00
        (lo_uint16 group ∷ hi_uint16 group ∷ 0 ∷ []))
      (next_seq s) (omega arith)
perform-Adds (store_scene group scene to) s =
    send-Adds
      (zcl_request to cluster_scenes 1 s.trans_seq_number 0x04
        (lo_uint16 group ∷ hi_uint16 group ∷ scene ∷ []))
      (next_seq s) (omega arith)
perform-Adds (recall_scene group scene to) s =
    send-Adds
      (zcl_request to cluster_scenes 1 s.trans_seq_number 0x05
        (lo_uint16 group ∷ hi_uint16 group ∷ scene ∷ []))
      (next_seq s) (omega arith)
perform-Adds (get_state to) s =
    send-Adds
      (zcl_request to cluster_on_off 0 s.trans_seq_number 0 (lo_uint16 0 ∷ hi_uint16 0 ∷ []))
      (next_seq s) (omega arith)
perform-Adds (get_level to) s =
    send-Adds
      (zcl_request to cluster_level_control 0 s.trans_seq_number 0 (lo_uint16 0 ∷ hi_uint16 0 ∷ []))
      (next_seq s) (omega arith)
perform-Adds (get_hue to) s =
    send-Adds
      (zcl_request to cluster_color_control 0 s.trans_seq_number 0 (lo_uint16 0 ∷ hi_uint16 0 ∷ []))
      (next_seq s) (omega arith)
perform-Adds (get_sat to) s =
    send-Adds
      (zcl_request to cluster_color_control 0 s.trans_seq_number 0 (lo_uint16 1 ∷ hi_uint16 1 ∷ []))
      (next_seq s) (omega arith)
perform-Adds (get_model to) s =
    send-Adds (zcl_request to cluster_basic 0 s.trans_seq_number 0 (lo_uint16 5 ∷ hi_uint16 5 ∷ []))
      (next_seq s) (omega arith)
perform-Adds (Call.bind src src_endpoint src_ieee dst_endpoint dst_ieee cluster) s =
    send-Adds
      (Request.bind (record {
        src_addr = src;
        src_ieee = octets src_ieee;
        src_endpoint = src_endpoint;
        cluster = cluster;
        dst_ieee = octets dst_ieee;
        dst_endpoint = dst_endpoint;
      }))
      s (omega arith)
