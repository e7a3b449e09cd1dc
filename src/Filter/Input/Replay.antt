-- ===== src/Filter/Input/Replay.antt =====
-- `read_tls_to_rustls` returns, and loses no TLS data of the client while it is buffered for the
-- session that the connection gets after the client hello.
use mod_tls.Base.{
  ◌⊎◌, Option-cases, econnreset, ℕ, suc, ◌<◌, ◌≡◌, refl, ap, sym, ◌∙◌, Bool, true, some, List, [],
  ◌∷◌, ◌++◌, append_assoc, is_empty, Status, success, failed, arith, Bool-cases, Status-cases, inl,
  inr, ltb, subst,
}
use mod_tls.Brigade.{Bucket, metadata, eos}
use mod_tls.Conn.{Conn}
use mod_tls.Filter.{Ctx}
use mod_tls.Filter.Output.{Outcome, returned}
use mod_tls.Filter.Input.{
  In, InIo, read_loop, read_tls_to_rustls, process_packets, after_loop, load, read_status,
}
use mod_tls.Filter.Input.Reads.{bytes_of, bytes_of-append, NoEos, Kept}
use mod_tls.Filter.Input.Rounds.{read_loop_lem}

empty_lem {ℓ} : {A : Type ℓ} (l : List A) → is_empty l ≡ true → l ≡ []
empty_lem [] h = refl
empty_lem (x ∷ l) h = ground arith

-- rustls asks for a byte at least; `received` is the bytes that the filters below have given so far.
pub record Network {ℓ} {S N : Type ℓ} (io : InIo S N) : Type ℓ where
  pub read_size_positive : (s : S) → 0 < io.read_size s
  pub received : N → List ℕ
  pub received_more :
      (n : N) (nonblock : Bool) (len : ℕ)
      → received (io.get_brigade n nonblock len).0
        ≡ received n ++ bytes_of (io.get_brigade n nonblock len).1.1

module _ {ℓ} {S N X : Type ℓ} {io : InIo S N} (network : Network io) where
  -- All that was received is buffered or unread, in order.
  pub record Complete (c : Ctx (In S N X)) : Type ℓ where
    pub all :
        (buffer : List ℕ) × (c.world.tls_buffer_bb ≡ some buffer)
        × (buffer ++ bytes_of c.world.tls_bb ≡ network.received c.world.net)

  -- The next bucket to read is EOS, and the buffer has been emptied.
  pub record AtEnd (c : Ctx (In S N X)) : Type ℓ where
    pub front : (rest : List Bucket) × (c.world.tls_bb ≡ metadata eos ∷ rest)
    pub emptied : c.world.tls_buffer_bb ≡ some []

  -- The outcome is a return, in a state of which one of both holds.
  abbrev pub Returns : Outcome (In S N X) → Type ℓ
  Returns o = (c : Ctx (In S N X)) × (rv : Status) × (o ≡ returned c rv) × (Complete c ⊎ AtEnd c)

  -- The same, and without EOS from `bb` on there is none later.
  abbrev pub Read : Type 0 → Outcome (In S N X) → Type ℓ
  Read quiet o =
      (c : Ctx (In S N X)) × (rv : Status) × (o ≡ returned c rv)
      × (Complete c ⊎ AtEnd c)
      × (quiet → NoEos c.world.tls_bb)

  Kept-Complete :
      (c c' : Ctx (In S N X)) → Complete c → Kept c.world.tls_bb c c' → Complete c' ⊎ AtEnd c'
  Kept-Complete c c' h k =
      let (b, e, s) = h.all in
      elim k.kept [
        | inl same ↦
            let (b', e', s') = same b e in
            inl (record { all = (b', e', s' ∙ s ∙ sym (ap network.received k.net)) })
        | inr (front, emptied) ↦ inr (record { front = front; emptied = emptied b e })
      ]

  -- What holds of the data does not depend on the session and the connection.
  moved :
      (c : Ctx (In S N X)) (s : S) (cc : Conn)
      → Complete c ⊎ AtEnd c
      → Complete (record c { cc = cc; world = record c.world { session = s } })
        ⊎ AtEnd (record c { cc = cc; world = record c.world { session = s } })
  moved c s cc (inl h) = inl (record { all = h.all })
  moved c s cc (inr h) = inr (record { front = h.front; emptied = h.emptied })

  processed :
      (quiet : Type 0) (errors : Bool) (rv : Status) (passed : ℕ) (c : Ctx (In S N X))
      → Complete c ⊎ AtEnd c
      → (quiet → NoEos c.world.tls_bb)
      → Read quiet (process_packets io errors rv passed c)
  unfolding process_packets
  processed quiet errors rv passed c h q =
      let p = io.process c.world.session c.cc in
      let after = record c { cc = p.1.0; world = record c.world { session = p.0 } } in
      elim (Bool-cases (ltb 0 passed)) [
        | inl some_passed ↦ elim (Option-cases p.1.1) [
          | inl e ↦
              rw (process_packets, some_passed, e)
                (after, read_status c.world.nonblock rv passed, refl, moved c p.0 p.1.0 h, q)
          | inr (rr, e) ↦ elim (Bool-cases errors) [
            | inl x ↦
                rw (process_packets, some_passed, e, x)
                  (after, failed econnreset, refl, moved c p.0 p.1.0 h, q)
            | inr x ↦
                rw (process_packets, some_passed, e, x)
                  (
                    record after { cc = record after.cc { last_error = some rr } },
                    failed (io.rustls_error rr),
                    refl,
                    moved c p.0 (record p.1.0 { last_error = some rr }) h,
                    q,
                  )
          ]
        ]
        | inr none_passed ↦
            rw (process_packets, none_passed)
              (c, read_status c.world.nonblock rv passed, refl, h, q)
      ]

  loop-Read :
      (quiet : Type 0) (errors : Bool) (len : ℕ) (c : Ctx (In S N X))
      → Complete c
      → (quiet → NoEos c.world.tls_bb)
      → Read quiet (after_loop io errors (read_loop io (suc (load c.world.tls_bb)) len success 0 c))
  unfolding after_loop
  loop-Read quiet errors len c h q =
      let (c1, rv, passed, e, k) =
        read_loop_lem io (suc (load c.world.tls_bb)) len success 0 c network.read_size_positive
          (omega arith) in
      let h1 = Kept-Complete c c1 h k in
      let q1 : quiet → NoEos c1.world.tls_bb = λ x. k.no_eos (q x) in
      elim e [
        | inl e1 ↦ rw e1 (c1, read_status c1.world.nonblock rv passed, refl, h1, q1)
        | inr e1 ↦ rw e1 (processed quiet errors rv passed c1 h1 q1)
      ]

  -- With `quiet` as what excludes EOS in what is unread and in what the filters below give.
  pub read_tls_to_rustls-Read :
      (quiet : Type 0) (len : ℕ) (nonblock errors : Bool) (c : Ctx (In S N X))
      → Complete c
      → (quiet → NoEos c.world.tls_bb)
      → (quiet → NoEos (io.get_brigade c.world.net nonblock len).1.1)
      → Read quiet (read_tls_to_rustls io len nonblock errors c)
  unfolding read_tls_to_rustls
  read_tls_to_rustls-Read quiet len nonblock errors c h q given =
      let g = io.get_brigade c.world.net nonblock len in
      let c1 = record c {
        world = record c.world { net = g.0; tls_bb = c.world.tls_bb ++ g.1.1 };
      } in
      let (b, e, s) = h.all in
      elim (Bool-cases (is_empty c.world.tls_bb)) [
        | inl t ↦
            let h1 : Complete c1 = record {
              all = (
                b,
                e,
                ap (λ (l : List ℕ). b ++ l) (bytes_of-append c.world.tls_bb g.1.1)
                    ∙ sym (append_assoc b (bytes_of c.world.tls_bb) (bytes_of g.1.1))
                    ∙ ap (λ (l : List ℕ). l ++ bytes_of g.1.1) s
                    ∙ sym (network.received_more c.world.net nonblock len),
              );
            } in
            let q1 : quiet → NoEos c1.world.tls_bb = λ x.
              subst (λ (l : List Bucket). NoEos (l ++ g.1.1)) (sym (empty_lem c.world.tls_bb t))
                (given x) in
            elim (Status-cases g.1.0) [
              | inl ok ↦ rw (read_tls_to_rustls, t, ok) (loop-Read quiet errors len c1 h1 q1)
              | inr (err, bad) ↦
                  rw (read_tls_to_rustls, t, bad)
                    (c1, read_status c.world.nonblock (failed err) 0, refl, inl h1, q1)
            ]
        | inr t ↦ rw (read_tls_to_rustls, t) (loop-Read quiet errors len c h q)
      ]

  -- With rustls and the filters below as `Network` says, while the data is buffered for the replay
  -- and all that was received is buffered or unread: `read_tls_to_rustls` returns, whatever the
  -- length and its other arguments. Then again all that was received is buffered or unread, in its
  -- order, unless EOS was met: the next bucket is EOS, and the buffer has been emptied.
  pub read_tls_to_rustls-Returns :
      (len : ℕ) (nonblock errors : Bool) (c : Ctx (In S N X))
      → Complete c
      → Returns (read_tls_to_rustls io len nonblock errors c)
  read_tls_to_rustls-Returns len nonblock errors c h =
      let (c1, rv, e, k, q) =
        read_tls_to_rustls-Read ⊥ len nonblock errors c h (λ x. absurd x) (λ x. absurd x) in
      (c1, rv, e, k)
