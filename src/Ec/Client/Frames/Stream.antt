-- ===== src/Ec/Client/Frames/Stream.antt =====
-- Reading frames from a connection that delivers: however the stream is cut into chunks, a packet
-- that the peer encoded is read back.
use amule_remote_qt.Base.{
  ℕ, zero, suc, ◌+◌, ◌-◌, ◌<◌, ◌≡◌, ◌≢◌, refl, sym, ap, ◌∙◌, true, false, [], ◌∷◌, ◌++◌, arith, ltb,
  lt→ltb, ltb→lt, ◌==◌, length, Bool-cases, inl, inr, append_assoc, append-nil, append-split,
}
use amule_remote_qt.Ec.Bytes.{Bytes}
use amule_remote_qt.Ec.Codec.Length.{length-append_bytes}
use amule_remote_qt.Ec.Outcome.{ok}
use amule_remote_qt.Ec.Client.Socket.{Socket, IsDelivering}
use amule_remote_qt.Ec.Client.Frames.{after_chunk, await, read_loop, read_exactly, timeout_ms}

module _ {S : Type 0} (sock : Socket S) (pending : S → Bytes) (d : IsDelivering sock pending) where
  pending-ne-nil : (s : S) (b : ℕ) (bs : Bytes) → pending s ≡ b ∷ bs → pending s ≢ []
  pending-ne-nil s b bs e nothing = cc

  -- With something to come, the wait ends with bytes at hand and none lost.
  await-ready :
      (s : S)
      → pending s ≢ []
      → (t : S) × (await sock s ≡ (ok tt, t))
        × (pending t ≡ pending s)
        × (0 < sock.bytes_available t)
  unfolding await
  await-ready s h = elim (Bool-cases (sock.bytes_available s == 0)) [
    | inl e ↦ (
      (sock.wait_for_ready_read timeout_ms s).1,
      rw e (rw (d.wait_ready timeout_ms s (ground arith) h) refl),
      d.wait_keeps timeout_ms s,
      d.wait_available timeout_ms s (ground arith) h,
    )
    | inr e ↦ (s, rw e refl, refl, ground arith)
  ]

  -- One round of the loop, with bytes at hand.
  read_loop-round :
      (fuel n : ℕ) (buf : Bytes) (s t : S)
      → ltb (length buf) n ≡ true
      → await sock s ≡ (ok tt, t)
      → 0 < sock.bytes_available t
      → read_loop sock (suc fuel) n buf s
        ≡ read_loop sock fuel n
            (buf ++ (sock.read (n - length buf) t).0)
            (sock.read (n - length buf) t).1
  unfolding read_loop after_chunk
  read_loop-round fuel n buf s t short ready some_bytes =
      let not_empty : (length (sock.read (n - length buf) t).0 == 0) ≡ false =
        ground (arith, d.read_some (n - length buf) t) in
      rw (short, ready) (rw not_empty refl)

  -- The loop reads the bytes that are missing from the front of the stream.
  abbrev LoopReads : ℕ → Type 0
  LoopReads fuel =
      (n : ℕ) (buf want rest : Bytes) (s : S)
      → pending s ≡ want ++ rest
      → length buf + length want ≡ n
      → length want < fuel
      → (t : S) × (read_loop sock fuel n buf s ≡ (ok (buf ++ want), t)) × (pending t ≡ rest)

  read_loop-done :
      (fuel n : ℕ) (buf : Bytes) (s : S)
      → length buf ≡ n
      → read_loop sock (suc fuel) n buf s ≡ (ok (buf ++ []), s)
  unfolding read_loop
  read_loop-done fuel n buf s l =
      let full : ltb (length buf) n ≡ false = ground arith in rw (full, append-nil buf) refl

  read_loop-step :
      (fuel n : ℕ) (buf want rest : Bytes) (s t : S)
      → LoopReads fuel
      → ltb (length buf) n ≡ true
      → await sock s ≡ (ok tt, t)
      → 0 < sock.bytes_available t
      → pending t ≡ want ++ rest
      → length buf + length want ≡ n
      → length want < suc fuel
      → (v : S) × (read_loop sock (suc fuel) n buf s ≡ (ok (buf ++ want), v)) × (pending v ≡ rest)
  read_loop-step fuel n buf want rest s t ih short ready at_hand e l h =
      let chunk = (sock.read (n - length buf) t).0 in
      let u = (sock.read (n - length buf) t).1 in
      let (m, split, left) =
        append-split chunk (pending u) want rest (sym (d.read_front (n - length buf) t) ∙ e)
          (omega (arith, d.read_most (n - length buf) t)) in
      let lengths = length-append_bytes chunk m in
      let (v, done, stays) =
        ih n (buf ++ chunk) m rest u left
          (omega (arith, length-append_bytes buf chunk, lengths, ap length split))
          (omega (
            arith,
            d.read_some (n - length buf) t,
            ltb→lt (length buf) n short,
            lengths,
            ap length split,
          )) in
      (
        v,
        read_loop-round fuel n buf s t short ready at_hand
            ∙ done
            ∙ ap (λ bs. (ok bs, v)) (append_assoc buf chunk m ∙ ap (◌++◌ buf) (sym split)),
        stays,
      )

  read_loop-pending : (fuel : ℕ) → LoopReads fuel
  read_loop-pending zero n buf want rest s e l h = absurd (omega arith)
  read_loop-pending (suc fuel) n buf [] rest s e l h =
      (s, read_loop-done fuel n buf s (omega arith), e)
  read_loop-pending (suc fuel) n buf (w ∷ ws) rest s e l h =
      let (t, ready, kept, at_hand) = await-ready s (pending-ne-nil s w (ws ++ rest) e) in
      read_loop-step fuel n buf (w ∷ ws) rest s t (read_loop-pending fuel)
        (lt→ltb (length buf) n (omega arith)) ready at_hand (kept ∙ e) l h

  -- On a socket that delivers what is sent, `readExactly n` returns the next `n` bytes, in whatever
  -- chunks they arrive, and leaves the rest, once so many are still to come and there is more fuel
  -- than `n`.
  pub read_exactly-pending :
      (fuel : ℕ) (want rest : Bytes) (s : S)
      → pending s ≡ want ++ rest
      → length want < fuel
      → (t : S) × (read_exactly sock fuel (length want) s ≡ (ok want, t)) × (pending t ≡ rest)
  unfolding read_exactly
  read_exactly-pending fuel want rest s e h =
      read_loop-pending fuel (length want) [] want rest s e (omega arith) h
