-- ===== src/Dialers/Connections.antt =====
-- No connection is left open by a dial that failed.
use proxy_in_a_box.Prelude.{
  ℕ, ◌+◌, ◌-◌, ◌≡◌, refl, ◌∙◌, ◌⊎◌, inl, inr, Bool-cases, none, some, Option-cases, Text, get_or,
  ◌==◌, if◌then◌else◌, Time, Duration, arith,
}
use proxy_in_a_box.Prelude.Int.{ℤ}
use proxy_in_a_box.Sources.{split_host_port}
use proxy_in_a_box.Dialers.{
  Wire, Ip4, Timeouts, DialError, unreachable, broken, refused, bad_address, unresolved, Dialled,
  closing, deadline_dial, connect_exchange, http_connect_dial, socks4_request, socks4_exchange,
  socks4_resolve, socks4_connect, socks4_dial, atoi,
}

-- A count of the open connections, kept by the world: a connection that is made adds one, a close
-- takes one, and nothing else changes it.
pub record Opens (W : Wire) (opened : W.World → ℕ) : Type 0 where
  pub opened-now : (w : W.World) → opened (W.now w).0 ≡ opened w
  pub opened-dial_timeout :
      (u : Text) (d : Duration) (w : W.World)
      → opened (W.dial_timeout u d w).0
        ≡ (if (W.dial_timeout u d w).1 then opened w else opened w + 1)
  pub opened-set_deadline : (t : Time) (w : W.World) → opened (W.set_deadline t w).0 ≡ opened w
  pub opened-close : (w : W.World) → opened (W.close w) ≡ opened w - 1
  pub opened-write_connect : (u : Text) (w : W.World) → opened (W.write_connect u w).0 ≡ opened w
  pub opened-read_response : (w : W.World) → opened (W.read_response w).0 ≡ opened w
  pub opened-resolve_ip4 : (u : Text) (w : W.World) → opened (W.resolve_ip4 u w).0 ≡ opened w
  pub opened-write : (u : Text) (w : W.World) → opened (W.write u w).0 ≡ opened w
  pub opened-read : (n : ℕ) (w : W.World) → opened (W.read n w).0 ≡ opened w

-- From `n` open connections: one more with a result, and no more with an error.
abbrev pub IsClean : (W : Wire) → (W.World → ℕ) → ℕ → Dialled W → Type 0
IsClean W opened n r =
    ((r.1 ≡ none) × (opened r.0 ≡ n + 1)) ⊎ (((e : DialError) × (r.1 ≡ some e)) × (opened r.0 ≡ n))

module _ (W : Wire) (opened : W.World → ℕ) (O : Opens W opened) where
  open W use {World}

  closing-IsClean :
      (n : ℕ) (e : DialError) (w : World) → opened w ≡ n + 1 → IsClean W opened n (closing W e w)
  closing-IsClean n e w one = inr ((e, refl), omega (arith, O.opened-close w, one))

  deadline_dial-IsClean :
      (d : Timeouts) (addr : Text) (w : World)
      → IsClean W opened (opened w) (deadline_dial W d addr w)
  unfolding deadline_dial
  deadline_dial-IsClean d addr w =
      let (w1, failed) = W.dial_timeout addr d.connect w in
      let made = O.opened-dial_timeout addr d.connect w in
      elim (Bool-cases failed) [
        | inl bad ↦ rw (deadline_dial, bad) (inr ((_, refl), rw bad at made))
        | inr good ↦
            let (w2, t) = W.now w1 in
            let one = O.opened-now w1 ∙ (rw good at made) in
            let w3 = (W.set_deadline (t + d.handshake) w2).0 in
            let one3 = O.opened-set_deadline (t + d.handshake) w2 ∙ one in
            elim (Bool-cases (W.set_deadline (t + d.handshake) w2).1) [
              | inl bad ↦
                  rw (deadline_dial, good, bad) (closing-IsClean (opened w) unreachable w3 one3)
              | inr good' ↦ rw (deadline_dial, good, good') (inl (refl, one3))
            ]
      ]

  connect_exchange-IsClean :
      (n : ℕ) (addr : Text) (w : World)
      → opened w ≡ n + 1
      → IsClean W opened n (connect_exchange W addr w)
  unfolding connect_exchange
  connect_exchange-IsClean n addr w one =
      let w1 = (W.write_connect addr w).0 in
      let one1 = O.opened-write_connect addr w ∙ one in
      let w2 = (W.read_response w1).0 in
      let one2 = O.opened-read_response w1 ∙ one1 in
      elim (Bool-cases (W.write_connect addr w).1) [
        | inl bad ↦ rw (connect_exchange, bad) (closing-IsClean n broken w1 one1)
        | inr good ↦ elim (Option-cases (W.read_response w1).1) [
          | inl bad ↦ rw (connect_exchange, good, bad) (closing-IsClean n broken w2 one2)
          | inr (status, e) ↦ elim (Bool-cases (status == 200)) [
            | inl ok ↦ rw (connect_exchange, good, e, ok) (inl (refl, one2))
            | inr other ↦
                rw (connect_exchange, good, e, other) (closing-IsClean n (refused status) w2 one2)
          ]
        ]
      ]

  socks4_exchange-IsClean :
      (n : ℕ) (port : ℤ) (ip : Ip4) (w : World)
      → opened w ≡ n + 1
      → IsClean W opened n (socks4_exchange W port ip w)
  unfolding socks4_exchange
  socks4_exchange-IsClean n port ip w one =
      let w1 = (W.write (socks4_request port ip) w).0 in
      let one1 = O.opened-write (socks4_request port ip) w ∙ one in
      let w2 = (W.read 8 w1).0 in
      let one2 = O.opened-read 8 w1 ∙ one1 in
      elim (Bool-cases (W.write (socks4_request port ip) w).1) [
        | inl bad ↦ rw (socks4_exchange, bad) (closing-IsClean n broken w1 one1)
        | inr good ↦ elim (Option-cases (W.read 8 w1).1) [
          | inl bad ↦ rw (socks4_exchange, good, bad) (closing-IsClean n broken w2 one2)
          | inr (resp, e) ↦ elim (Bool-cases (get_or resp 1 0 == 90)) [
            | inl ok ↦ rw (socks4_exchange, good, e, ok) (inl (refl, one2))
            | inr other ↦
                rw (socks4_exchange, good, e, other) (closing-IsClean n (refused _) w2 one2)
          ]
        ]
      ]

  socks4_connect-IsClean :
      (n : ℕ) (addr : Text) (w : World)
      → opened w ≡ n + 1
      → IsClean W opened n (socks4_connect W addr w)
  unfolding socks4_connect socks4_resolve
  socks4_connect-IsClean n addr w one = elim (Option-cases (split_host_port addr)) [
    | inl bad ↦ rw (socks4_connect, bad) (closing-IsClean n bad_address w one)
    | inr (parts, e) ↦ elim (Option-cases (atoi parts.1)) [
      | inl bad ↦ rw (socks4_connect, e, bad) (closing-IsClean n bad_address w one)
      | inr (port, e') ↦
          let one1 = O.opened-resolve_ip4 parts.0 w ∙ one in
          let w1 = (W.resolve_ip4 parts.0 w).0 in
          elim (Option-cases (W.resolve_ip4 parts.0 w).1) [
            | inl bad ↦
                rw (socks4_connect, e, e', socks4_resolve, bad)
                  (closing-IsClean n unresolved w1 one1)
            | inr (ip, e2) ↦
                rw (socks4_connect, e, e', socks4_resolve, e2)
                  (socks4_exchange-IsClean n port ip w1 one1)
          ]
    ]
  ]

  -- A dial through an HTTP or a SOCKS4 proxy, whatever fails on the way, ends with one open
  -- connection more when it succeeds and with as many as before when it fails.
  pub dial-IsClean :
      (d : Timeouts) (proxy addr : Text) (w : World)
      → IsClean W opened (opened w) (http_connect_dial W d proxy addr w)
        × IsClean W opened (opened w) (socks4_dial W d proxy addr w)
  unfolding http_connect_dial socks4_dial
  dial-IsClean d proxy addr w =
      let w1 = (deadline_dial W d proxy w).0 in
      elim (deadline_dial-IsClean d proxy w) [
        | inl (made, one) ↦
            rw (http_connect_dial, socks4_dial, made)
              (
                connect_exchange-IsClean (opened w) addr w1 one,
                socks4_connect-IsClean (opened w) addr w1 one,
              )
        | inr ((e, failed), same) ↦
            rw (http_connect_dial, socks4_dial, failed)
              (inr ((e, refl), same), inr ((e, refl), same))
      ]
