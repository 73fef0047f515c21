-- ===== src/Server/Laws.antt =====
-- The two servers of server/mod.rs on plain connections.
use ippper_rs.Prelude.{
  Bool-cases, String, eqb, true, inl, inr, ◌⊎◌, ℕ, ◌≡◌, ◌≢◌, refl, ap, List, [], ◌∷◌, eqb_iff,
  arith,
}
use ippper_rs.Stream.Poll.{IoResult, ok, err}
use ippper_rs.Server.{
  Served, peek_failed, tls_failed, served, serve_tls, Network, first_byte, serve_plain,
  serve_peeked, serve_adaptive, accept_loop, serve_http, serve_adaptive_https,
}

module _ {C : Type 0} (net : Network C) where
  -- A connection that begins with something else than a TLS handshake.
  abbrev pub IsPlain : IoResult (List ℕ) → Type 0
  IsPlain (ok header) = first_byte header ≢ 22
  IsPlain (err e) = ⊥

  abbrev pub AllPlain : List (IoResult C) → Type 0
  AllPlain [] = Unit
  AllPlain (ok stream ∷ more) = IsPlain (net.peek stream 1) × AllPlain more
  AllPlain (err e ∷ more) = AllPlain more

  serve_peeked-plain :
      (stream : C) (header : IoResult (List ℕ))
      → IsPlain header
      → serve_peeked net stream header ≡ serve_plain net stream
  unfolding serve_peeked
  serve_peeked-plain stream (err e) plain = absurd plain
  serve_peeked-plain stream (ok header) plain = ground (arith, eqb_iff (first_byte header) 22)

  accept_loop-plain :
      (accepts : List (IoResult C))
      → AllPlain accepts
      → accept_loop (serve_adaptive net) accepts ≡ accept_loop (serve_plain net) accepts
  unfolding accept_loop serve_adaptive
  accept_loop-plain [] plain = refl
  accept_loop-plain (err e ∷ more) plain = accept_loop-plain more plain
  accept_loop-plain (ok stream ∷ more) plain =
      rw (serve_peeked-plain stream (net.peek stream 1) plain.0, accept_loop-plain more plain.1)
        refl

  -- On connections of which every one can be peeked at and none begins with the byte 22, the
  -- adaptive server does what the plain one does.
  pub serve_adaptive_https-plain :
      (bound : IoResult (Unit {0})) (accepts : List (IoResult C))
      → AllPlain accepts
      → serve_adaptive_https net bound accepts ≡ serve_http net bound accepts
  unfolding serve_http serve_adaptive_https
  serve_adaptive_https-plain (err e) accepts plain = refl
  serve_adaptive_https-plain (ok _) accepts plain = ap ok (accept_loop-plain accepts plain)

  -- What becomes of a connection: it cannot be peeked at; or it does not begin with the byte 22, and
  -- is served as it is; or it does, and is served on the stream that the TLS handshake gives, or ends
  -- with the handshake's error.
  abbrev pub Serves : C → Served C → Type 0
  Serves stream task =
      ((e : String) × (net.peek stream 1 ≡ err e) × (task ≡ peek_failed e))
      ⊎ ((header : List ℕ) × (net.peek stream 1 ≡ ok header)
          × (((first_byte header ≢ 22) × (task ≡ served stream (net.serve_connection stream)))
              ⊎ ((first_byte header ≡ 22)
                  × (((e : String) × (net.accept_tls stream ≡ err e) × (task ≡ tls_failed e))
                      ⊎ ((inner : C) × (net.accept_tls stream ≡ ok inner)
                          × (task ≡ served inner (net.serve_connection inner)))))))

  -- One task for each connection that has been accepted, in order; an error of `accept` has none, and
  -- does not keep later connections from being served.
  abbrev pub ServesAll : List (IoResult C) → List (Served C) → Type 0
  ServesAll [] [] = Unit
  ServesAll (err e ∷ more) tasks = ServesAll more tasks
  ServesAll (ok stream ∷ more) (task ∷ tasks) = Serves stream task × ServesAll more tasks
  ServesAll _ _ = ⊥

  serve_peeked-Serves :
      (stream : C) (header : IoResult (List ℕ)) (shaken : IoResult C)
      → net.peek stream 1 ≡ header
      → net.accept_tls stream ≡ shaken
      → Serves stream (serve_peeked net stream header)
  unfolding serve_peeked serve_plain serve_tls
  serve_peeked-Serves stream (err e) shaken peeked tls = inl (e, peeked, refl)
  serve_peeked-Serves stream (ok header) shaken peeked tls =
      elim (Bool-cases (eqb (first_byte header) 22)) [
        | inr other ↦ inr (
          header,
          peeked,
          inl (λ e. ground (arith, eqb_iff (first_byte header) 22), rw other refl),
        )
        | inl same ↦
            inr
              (header, peeked, inr ((eqb_iff (first_byte header) 22).0 same, shake shaken tls same))
      ]
    where
      shake :
          (answer : IoResult C)
          → net.accept_tls stream ≡ answer
          → eqb (first_byte header) 22 ≡ true
          → ((e : String) × (net.accept_tls stream ≡ err e)
              × (serve_peeked net stream (ok header) ≡ tls_failed e))
            ⊎ ((inner : C) × (net.accept_tls stream ≡ ok inner)
                × (serve_peeked net stream (ok header) ≡ served inner (net.serve_connection inner)))
      shake (err e) tls same = inl (e, tls, rw (same, tls) refl)
      shake (ok inner) tls same = inr (inner, tls, rw (same, tls) refl)

  accept_loop-ServesAll :
      (accepts : List (IoResult C)) → ServesAll accepts (accept_loop (serve_adaptive net) accepts)
  unfolding accept_loop serve_adaptive
  accept_loop-ServesAll [] = tt
  accept_loop-ServesAll (err e ∷ more) = accept_loop-ServesAll more
  accept_loop-ServesAll (ok stream ∷ more) = (
    serve_peeked-Serves stream (net.peek stream 1) (net.accept_tls stream) refl refl,
    accept_loop-ServesAll more,
  )

  -- The adaptive server, once it is bound, spawns for each accepted connection, in order and whatever
  -- errors `accept` gives in between, one task that peeks at one byte of it: a connection that begins
  -- with the byte 22 is served on the stream that the TLS handshake gives, or ends with the error of
  -- the handshake; any other, an ended one too, is served as it is; and one that cannot be peeked at
  -- ends with that error.
  pub serve_adaptive_https-ServesAll :
      (accepts : List (IoResult C))
      → (tasks : List (Served C)) × (serve_adaptive_https net (ok tt) accepts ≡ ok tasks)
        × ServesAll accepts tasks
  unfolding serve_adaptive_https
  serve_adaptive_https-ServesAll accepts =
      (accept_loop (serve_adaptive net) accepts, refl, accept_loop-ServesAll accepts)
