-- ===== src/Engine/Broadcast.antt =====
-- engine.go: what a tick tells the clients.
use nodefall.Base.{
  ℕ, String, ◌≡◌, refl, sym, ap, subst, ◌∙◌, Option, none, some, inl, inr, Option-cases, arith, [],
  ◌∷◌,
}
use nodefall.Base.Dict.{Dict, lookup}
use nodefall.Base.Loop.{Returned, Returned-then}
use nodefall.Engine.State.{Engine, Host, Ranges}
use nodefall.Engine.Lifecycle.{countdown, snapshot, send_all, broadcast, advance, tick}
use nodefall.Engine.Everyone.Clients.{advance-Clients}

module _ {F S C M : Type 0} (h : Host F S C M) where
  -- A client, if there is one, after the message, if there is one.
  abbrev pub told : Option M → Option C → Option C
  told none o = o
  told (some msg) none = none
  told (some msg) (some c) = some (h.transport.send msg c)

  lookup-send_all :
      (msg : M) (k : String) (m : Dict C)
      → lookup k (send_all h msg m) ≡ told (some msg) (lookup k m)
  unfolding lookup send_all
  lookup-send_all msg k [] = refl
  lookup-send_all msg k ((j, c) ∷ m) = ground (arith, lookup-send_all msg k m)

  snapshot-broadcast :
      (now : ℕ) (e : Engine F C) → snapshot h now (broadcast h now e) ≡ snapshot h now e
  unfolding snapshot countdown broadcast
  snapshot-broadcast now e = ground arith

  clients-broadcast :
      (now : ℕ) (k : String) (e : Engine F C)
      → lookup k (broadcast h now e).clients
        ≡ told (h.marshal (snapshot h now e)) (lookup k e.clients)
  unfolding broadcast
  clients-broadcast now k e = elim (Option-cases (h.marshal (snapshot h now e))) [
    | inl failed ↦ rw (failed, broadcast) refl
    | inr (msg, made) ↦ rw (made, broadcast) (lookup-send_all msg k e.clients)
  ]

  told_by :
      (now : ℕ) (k : String) (f e : Engine F C)
      → f.clients ≡ e.clients
      → lookup k (broadcast h now f).clients
        ≡ told (h.marshal (snapshot h now (broadcast h now f))) (lookup k e.clients)
  told_by now k f e same =
      clients-broadcast now k f
      ∙ ap (λ m. told (h.marshal (snapshot h now f)) (lookup k m)) same
      ∙ ap (λ x. told (h.marshal x) (lookup k e.clients)) (sym (snapshot-broadcast now f))

  Tells : ℕ → String → Engine F C → Engine F C × S → Type 0
  Tells now k e t =
      lookup k t.0.clients ≡ told (h.marshal (snapshot h now t.0)) (lookup k e.clients)

  -- A tick that does not panic sends every client one message, the snapshot of the engine as it is after
  -- the tick, or none if the snapshot cannot be encoded; nobody becomes a client or ceases to be one.
  pub tick_tells :
      (w : Ranges) (now : ℕ) (k : String) (e e' : Engine F C) (s s' : S)
      → tick h w now (e, s) ≡ some (e', s')
      → lookup k e'.clients ≡ told (h.marshal (snapshot h now e')) (lookup k e.clients)
  unfolding tick Tells
  tick_tells w now k e e' s s' done = subst (Returned (Tells now k e)) done (
      Returned-then {S = Engine F C × S} (λ t. t.0.clients ≡ e.clients) (Tells now k e)
        (λ t. (broadcast h now t.0, t.1)) (λ t same. told_by now k t.0 e same)
        (advance h w now e.phase (e, s))
        (advance-Clients h (λ m. m ≡ e.clients) w now e.phase e s refl))
