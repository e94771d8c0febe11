-- ===== src/Soc/Rpc/Receive/Reads.antt =====
-- When the reading loop has the message, and when it gives up.
use lighting_gateway.Prelude.{
  lt→ltb, ℕ, ◌%◌, ◌++◌, ◌+◌, ◌-◌, ◌<◌, ◌==◌, ◌∙◌, ◌∷◌, ◌≡◌, ◌≤◌, Bool-cases, List, [], ap,
  append-nil, append_assoc, arith, false, inl, inr, length, length-append, ltb, nil_of_length, refl,
  true,
}
use lighting_gateway.Prelude.Reading.{Bytes}
use lighting_gateway.Soc.Rpc.Receive.{ReadResult, got, failed, complete, read_loop, gave_up}

-- The bytes that the reads bring, and the number of those that fail.
abbrev pub brought : List ReadResult → Bytes
brought [] = []
brought (got bs ∷ rs) = bs ++ brought rs
brought (failed ∷ rs) = brought rs

abbrev pub failures : List ReadResult → ℕ
failures [] = 0
failures (got bs ∷ rs) = failures rs
failures (failed ∷ rs) = failures rs + 1

-- The reading loop ends with the bytes that the reads brought, behind those it had, when these are
-- as many as it still wants (fewer than 255) and the failed reads and the retries so far are at
-- most five.
pub read_loop-complete :
    (junk : Bytes) (rs : List ReadResult) (rpc_len : ℕ) (buff : Bytes) (retries : ℕ)
    → rpc_len < 255
    → length (brought rs) ≡ rpc_len
    → retries + failures rs ≤ 5
    → (n : ℕ) × (read_loop junk rs rpc_len buff retries ≡ complete (buff ++ brought rs) n)
unfolding read_loop
read_loop-complete junk [] rpc_len buff retries small e k = (retries, rw append-nil (ground arith))
read_loop-complete junk (got bs ∷ rs) rpc_len buff retries small e k =
    elim (Bool-cases (rpc_len == 0)) [
      | inl done ↦
          (retries, rw (done, nil_of_length (bs ++ brought rs) (ground arith), append-nil) refl)
      | inr more ↦
          let total = length-append bs (brought rs) in
          let enough : ltb rpc_len (length bs % 256) ≡ false = ground (arith, total) in
          let (n, ih) =
            read_loop-complete junk rs (rpc_len - length bs % 256) (buff ++ bs) retries
              (omega arith) (omega (arith, total)) k in
          (n, rw (more, enough) (ih ∙ ap (λ b. complete b n) (append_assoc buff bs (brought rs))))
    ]
read_loop-complete junk (failed ∷ rs) rpc_len buff retries small e k =
    elim (Bool-cases (rpc_len == 0)) [
      | inl done ↦ (retries, rw (done, nil_of_length (brought rs) (ground arith), append-nil) refl)
      | inr more ↦
          let bad : ltb rpc_len 255 ≡ true = lt→ltb rpc_len 255 small in
          let again : ltb retries 5 ≡ true = lt→ltb retries 5 (omega arith) in
          let (n, ih) =
            read_loop-complete junk rs rpc_len buff (retries + 1) small e (omega arith) in
          (n, rw (more, bad, again) ih)
    ]

-- The reading loop, with at most five retries so far and fewer than 255 bytes to read, gives up
-- when the reads bring fewer bytes than it wants and failed reads and retries together are more
-- than five.
pub read_loop-gave_up :
    (junk : Bytes) (rs : List ReadResult) (rpc_len : ℕ) (buff : Bytes) (retries : ℕ)
    → rpc_len < 255
    → length (brought rs) < rpc_len
    → 5 < retries + failures rs
    → retries ≤ 5
    → read_loop junk rs rpc_len buff retries ≡ gave_up
unfolding read_loop
read_loop-gave_up junk [] rpc_len buff retries small e k r = absurd (omega arith)
read_loop-gave_up junk (got bs ∷ rs) rpc_len buff retries small e k r =
    let total = length-append bs (brought rs) in
    ground
      (arith, total, read_loop-gave_up junk rs (rpc_len - length bs % 256) (buff ++ bs) retries)
read_loop-gave_up junk (failed ∷ rs) rpc_len buff retries small e k r =
    ground (arith, read_loop-gave_up junk rs rpc_len buff (retries + 1))
