-- ===== src/Soc/Rpc/Report/Delivery.antt =====
-- Every report of the chip reaches the client as the callback that is due, however the serial port
-- cuts its bytes.
use lighting_gateway.Prelude.{
  if◌then◌else◌, ℕ, ◌%◌, ◌&&◌, ◌+◌, ◌<◌, ◌==◌, ◌∙◌, ◌∷◌, ◌≡◌, ◌≢◌, ◌≤◌, All, Bool, List, [], ap,
  arith, false, length, none, not, refl, set, some, true,
}
use lighting_gateway.Prelude.Reading.{Bytes, build_uint16_lem, byte, bytes-append, pure, ◌>>=◌}
use lighting_gateway.Soc.Wire.{device_info}
use lighting_gateway.Soc.Wire.RoundTrip.{IsWord}
use lighting_gateway.Soc.Rpc.{
  Event, Callbacks, Stack, notify, nothing, zcl_get_state, zcl_get_level, zcl_get_hue, zcl_get_sat,
}
use lighting_gateway.Soc.Rpc.Zdo.{clusters}
use lighting_gateway.Soc.Rpc.Process.{process_rpc}
use lighting_gateway.Soc.Rpc.Receive.{
  value_of, ReadResult, read_loop, Outcome, dispatch, zb_soc_process_rpc, got, handled,
}
use lighting_gateway.Soc.Rpc.Receive.Reads.{
  brought, failures, read_loop-complete, read_loop-gave_up,
}
use lighting_gateway.Soc.Rpc.Report.{
  Report, Descriptor, words, render, due, touch_link, attribute, announce, simple_desc, leave,
  device_info, device_info_error, told, is_touch_link, on_off, level, hue, saturation,
}

abbrev IsDescriptor : Descriptor → Type 0
IsDescriptor d = IsWord d.nwk_addr × IsWord d.profile_id × IsWord d.device_id

-- The fields fit the places that the report has for them.
abbrev pub Fits : Report → Type 0
Fits (touch_link d) = IsDescriptor d
Fits (attribute a value nwk endpoint seq) = IsWord nwk
Fits (announce nwk ieee) = IsWord nwk × (length ieee ≡ 8)
Fits (simple_desc d ins outs) = IsDescriptor d × All IsWord ins × All IsWord outs
Fits (leave nwk) = IsWord nwk
Fits (device_info nwk ieee device_type state) = IsWord nwk × (length ieee ≡ 8)
Fits (device_info_error status) = status ≢ 0

clusters_lem :
    (ws : List ℕ) (rest : Bytes)
    → All IsWord ws
    → clusters (length ws) (words ws rest) ≡ some (ws, rest)
unfolding clusters
clusters_lem [] rest h = refl
clusters_lem (w ∷ ws) rest h = rw (build_uint16_lem w h.0, clusters_lem ws rest h.1) refl

-- An attribute's value is read and passed on.
value_told :
    (set : Bool) (e : ℕ → Event) (value : ℕ) (rest : Bytes)
    → value_of ((if set then (byte >>= λ v. pure (some (e v))) else nothing) (value ∷ rest))
      ≡ some (told set (e value))
unfolding value_of
value_told true e value rest = refl
value_told false e value rest = refl

told_unless :
    (skipped set : Bool) (e : Event) (rest : Bytes)
    → value_of ((if not skipped then notify set e else nothing) rest)
      ≡ some (if skipped then none else told set e)
unfolding value_of
told_unless true set e rest = refl
told_unless false set e rest = refl

-- The driver's test on the two counts.
touch_link_test :
    (d : Descriptor) (ins outs : List ℕ)
    → ((length ins == 1) && (length outs == 1) && (d.profile_id == 0xC05E))
      ≡ is_touch_link d ins outs
touch_link_test d [] outs = refl
touch_link_test d (x ∷ []) [] = refl
touch_link_test d (x ∷ []) (y ∷ []) = refl
touch_link_test d (x ∷ []) (y ∷ z ∷ outs) = ground arith
touch_link_test d (x ∷ y ∷ ins) outs = ground arith

module _ (cb : Callbacks) (stack : Stack) where
  process_rpc-render :
      (r : Report) (rest : Bytes)
      → Fits r
      → value_of (process_rpc cb stack (render r rest)) ≡ some (due cb stack r)
  unfolding value_of process_rpc render due
  process_rpc-render (touch_link d) rest h =
      rw
        (
          build_uint16_lem d.nwk_addr h.0,
          build_uint16_lem d.profile_id h.1,
          build_uint16_lem d.device_id h.2,
        )
        refl
  process_rpc-render (attribute on_off value nwk endpoint seq) rest h =
      rw (build_uint16_lem nwk h)
        (value_told cb.pfn_zcl_get_state (λ v. zcl_get_state v nwk endpoint) value rest)
  process_rpc-render (attribute level value nwk endpoint seq) rest h =
      rw (build_uint16_lem nwk h)
        (value_told cb.pfn_zcl_get_level (λ v. zcl_get_level v nwk endpoint) value rest)
  process_rpc-render (attribute hue value nwk endpoint seq) rest h =
      rw (build_uint16_lem nwk h)
        (value_told cb.pfn_zcl_get_hue (λ v. zcl_get_hue v nwk endpoint) value rest)
  process_rpc-render (attribute saturation value nwk endpoint seq) rest h =
      rw (build_uint16_lem nwk h)
        (value_told cb.pfn_zcl_get_sat (λ v. zcl_get_sat v nwk endpoint) value rest)
  process_rpc-render (announce nwk ieee) rest h =
      rw (bytes-append 8 ieee rest h.1, build_uint16_lem nwk h.0) refl
  process_rpc-render (simple_desc d ins outs) rest h =
      rw
        (
          build_uint16_lem d.nwk_addr h.0.0,
          build_uint16_lem d.profile_id h.0.1,
          build_uint16_lem d.device_id h.0.2,
          clusters_lem ins _ h.1,
          clusters_lem outs _ h.2,
          touch_link_test d ins outs,
        )
        (told_unless (is_touch_link d ins outs) cb.pfn_zdo_simple_desc_rsp _ rest)
  process_rpc-render (leave nwk) rest h = rw (build_uint16_lem nwk h) refl
  process_rpc-render (device_info nwk ieee device_type state) rest h =
      rw (bytes-append 8 ieee _ h.1, build_uint16_lem nwk h.0) refl
  process_rpc-render (device_info_error status) rest h =
      let bad : (status == 0) ≡ false = ground arith in rw bad refl

  -- A report of the chip whose fields fit their places, sent in a message with a length byte below
  -- 252, leads to exactly the callback that is due for it, in whatever pieces the reads bring its
  -- bytes, if no more than five reads fail; nothing is read past the end of the message. Reports
  -- are touch link, the answer to a read of the on/off, level, hue or saturation attribute, device
  -- announcement, simple descriptor, leave, and device information.
  pub received_report :
      (junk : Bytes) (r : Report) (rest : Bytes) (len : ℕ) (rs : List ReadResult)
      → Fits r
      → brought rs ≡ render r rest
      → length (brought rs) ≡ len + 3
      → len < 252
      → failures rs ≤ 5
      → zb_soc_process_rpc cb stack junk (got (0xFE ∷ []) ∷ got (len ∷ []) ∷ rs)
        ≡ handled (some (due cb stack r))
  unfolding zb_soc_process_rpc
  received_report junk r rest len rs fits e total small few =
      let (n, done) = read_loop-complete junk rs (len + 3) [] 0 (omega arith) total (omega arith) in
      let room : (len + 3) % 256 ≡ len + 3 = omega arith in
      ap (λ l. dispatch cb stack (read_loop junk rs l [] 0)) room
      ∙ ap (dispatch cb stack) done
      ∙ ap handled (rw e (process_rpc-render r rest fits))

  -- If more than five reads fail while the reads together bring fewer bytes than a message with a
  -- length byte below 252 has, the driver fails and makes no callback.
  pub gave_up_report :
      (junk : Bytes) (len : ℕ) (rs : List ReadResult)
      → length (brought rs) < len + 3
      → len < 252
      → 5 < failures rs
      → zb_soc_process_rpc cb stack junk (got (0xFE ∷ []) ∷ got (len ∷ []) ∷ rs) ≡ Outcome.failed
  unfolding zb_soc_process_rpc
  gave_up_report junk len rs short small many =
      let room : (len + 3) % 256 ≡ len + 3 = omega arith in
      ap (λ l. dispatch cb stack (read_loop junk rs l [] 0)) room
      ∙ ap (dispatch cb stack)
          (read_loop-gave_up junk rs (len + 3) [] 0 (omega arith) short (omega arith) (omega arith))
