-- ===== src/Filter/Output/Appends.antt =====
-- What becomes of the first bucket, in a round of the loop of `filter_conn_output`: it goes away, or
-- to the buffer, or to rustls.
use mod_tls.Base.{
  ℕ, ◌+◌, ◌≤◌, ◌<◌, ◌≡◌, refl, ap, sym, ◌∙◌, List, [], ◌∷◌, ◌++◌, append_assoc, append-nil, length,
  length-append, false, arith, success,
}
use mod_tls.Filter.{Ctx}
use mod_tls.Filter.Output.{
  pass_buf_to_rustls, Item, Io, Out, returned, then_do, with_bb, buf_plain_size,
}
use mod_tls.Filter.Output.Views.{Works, sent, plain_bytes, rounds, Readable, Done, then_do-Done}
use mod_tls.Filter.Output.Sends.{pass_buf_to_rustls_lem}
use mod_tls.Filter.Output.Flushes.{Roomy}
use mod_tls.Filter.Output.Buckets.{store}

module _ {ℓ} {S N : Type ℓ} {io : Io S N} (works : Works io) where
  -- Of the brigade `bb`, what is no longer there has been sent.
  pub record Fed (bb : List Item) (c c' : Ctx (Out S N)) : Type ℓ where
    pub sent_all :
        sent works c' ++ plain_bytes works c'.world.bb ≡ sent works c ++ plain_bytes works bb
    pub fewer : rounds c'.world.bb < rounds bb
    pub bounded : length c'.world.buf_plain ≤ buf_plain_size
    pub readable : Readable c'.world.bb
    pub aborted : c'.aborted ≡ false

  -- The first bucket goes away, and had no bytes.
  pub dropped :
      (rest : List Item) (b : Item) (c : Ctx (Out S N))
      → plain_bytes works (b ∷ rest) ≡ plain_bytes works rest
      → rounds rest < rounds (b ∷ rest)
      → length c.world.buf_plain ≤ buf_plain_size
      → Readable rest
      → c.aborted ≡ false
      → Fed (b ∷ rest) c (with_bb c rest)
  dropped rest b c e f l r a = record {
    sent_all = ap (λ (l : List ℕ). sent works c ++ l) (sym e);
    fewer = f;
    bounded = l;
    readable = r;
    aborted = a;
  }

  -- The bytes `d` go to the buffer.
  pub stored :
      (bb rest : List Item) (d : List ℕ) (c c' : Ctx (Out S N))
      → Roomy works c c'
      → d ++ plain_bytes works rest ≡ plain_bytes works bb
      → rounds rest < rounds bb
      → length c'.world.buf_plain + length d ≤ buf_plain_size
      → Readable rest
      → Fed bb c (store d rest c')
  stored bb rest d c c' h e f l r = record {
    sent_all =
        append_assoc (works.accepted c'.world.session) (c'.world.buf_plain ++ d)
          (plain_bytes works rest)
        ∙ ap (λ (l : List ℕ). works.accepted c'.world.session ++ l)
            (append_assoc c'.world.buf_plain d (plain_bytes works rest)
              ∙ ap (λ (l : List ℕ). c'.world.buf_plain ++ l) e)
        ∙ sym (
            append_assoc (works.accepted c'.world.session) c'.world.buf_plain
              (plain_bytes works bb))
        ∙ ap (λ (l : List ℕ). l ++ plain_bytes works bb) h.sent_same;
    fewer = f;
    bounded = rw (length-append c'.world.buf_plain d) l;
    readable = r;
    aborted = h.aborted;
  }

  -- The bytes `d` go to rustls.
  pub wrote :
      (bb rest : List Item) (d : List ℕ) (c : Ctx (Out S N))
      → c.aborted ≡ false
      → c.world.buf_plain ≡ []
      → d ++ plain_bytes works rest ≡ plain_bytes works bb
      → rounds rest < rounds bb
      → Readable rest
      → (c0 : Ctx (Out S N)) → c0.aborted ≡ c.aborted
      → c0.world.session ≡ c.world.session
      → c0.world.buf_plain ≡ c.world.buf_plain
      → Done
          (Fed bb c)
          (then_do (pass_buf_to_rustls io d c0) (λ c'. returned (with_bb c' rest) success))
  wrote bb rest d c a empty e f r c0 a0 s0 b0 =
      then_do-Done _ _ (pass_buf_to_rustls_lem works d c0 (a0 ∙ a)) (λ c1 t.
        let none : c1.world.buf_plain ≡ [] = t.buf_plain ∙ b0 ∙ empty in
        (
          with_bb c1 rest,
          refl,
          record {
            sent_all =
                rw
                  (
                    none,
                    empty,
                    append-nil (works.accepted c1.world.session),
                    append-nil (works.accepted c.world.session),
                    t.accepted,
                    s0,
                  )
                  (append_assoc (works.accepted c.world.session) d (plain_bytes works rest)
                    ∙ ap (λ (l : List ℕ). works.accepted c.world.session ++ l) e);
            fewer = f;
            bounded = rw none (omega arith);
            readable = r;
            aborted = t.aborted ∙ a0 ∙ a;
          },
        ))
