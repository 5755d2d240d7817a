-- ===== src/Server/Hall/Wires.antt =====
-- services/game/server: a client over an open connection of its player.
use nodefall.Base.{
  ℕ, ◌≤◌, String, false, eqb, ◌≡◌, ◌∙◌, sym, subst, none, some, List, [], ◌∷◌, arith, Bool-cases,
  Option-cases, inl, inr, All, length, length-append,
}
use nodefall.Base.Dict.{Dict, lookup, EachAt, lookup-EachAt}
use nodefall.Server.Client.{Client, send, receive, send_buffer}
use nodefall.Server.Hall.{
  Link, player_of, unlink, set_adrift, forget, take_from, take_filed, take_adrift,
}
use nodefall.Server.Hall.Cases.{player_of-unlink, player_of-link}

module _ {M : Type 0} where
  -- A client over an open connection of the player `k`, with a channel within its capacity.
  pub record IsWired (ls : List Link) (k : String) (c : Client M) : Type 0 where
    pub own_id : c.id ≡ k
    pub open_link : player_of c.conn ls ≡ some k
    pub bounded : length c.queued ≤ send_buffer

  pub IsWired-send :
      (ls : List Link) (k : String) (msg : M) (c : Client M)
      → IsWired ls k c
      → IsWired ls k (send msg c)
  unfolding send
  IsWired-send ls k msg c w = ground (arith, length-append c.queued (msg ∷ []))

  IsWired-take_from :
      (ls : List Link) (k : String) (n : ℕ) (c : Client M)
      → IsWired ls k c
      → IsWired ls k (take_from n c)
  unfolding take_from receive
  IsWired-take_from ls k n c w = ground arith

  pub IsWired-link :
      (n : ℕ) (player k : String) (ls : List Link) (c : Client M)
      → player_of n ls ≡ none
      → IsWired ls k c
      → IsWired (record { conn = n; player = player } ∷ ls) k c
  IsWired-link n player k ls c fresh w = record {
    own_id = w.own_id;
    open_link = player_of-link n c.conn k player ls fresh w.open_link;
    bounded = w.bounded;
  }

  -- The link of another socket goes.
  pub IsWired-unlink :
      (n : ℕ) (k : String) (ls : List Link) (c : Client M)
      → eqb c.conn n ≡ false
      → IsWired ls k c
      → IsWired (unlink n ls) k c
  IsWired-unlink n k ls c other w = record {
    own_id = w.own_id;
    open_link = player_of-unlink c.conn n ls ∙ rw other w.open_link;
    bounded = w.bounded;
  }

  -- A client that no longer stands in the engine.
  abbrev pub IsLoose : List Link → Client M → Type 0
  IsLoose ls c = IsWired ls c.id c

  pub set_adrift-IsLoose :
      (ls : List Link) (k : String) (m : Dict (Client M)) (cs : List (Client M))
      → EachAt (IsWired ls) m
      → All (IsLoose ls) cs
      → All (IsLoose ls) (set_adrift (lookup k m) cs)
  set_adrift-IsLoose ls k m cs filed loose = elim (Option-cases (lookup k m)) [
    | inl free ↦ rw free (unfold set_adrift in loose)
    | inr (c, there) ↦
        let w = lookup-EachAt (IsWired ls) k m c filed there in
        rw there (unfold set_adrift in ((subst (λ i. IsWired ls i c) (sym w.own_id) w, loose)))
  ]

  pub forget-IsLoose :
      (n : ℕ) (ls : List Link) (cs : List (Client M))
      → All (IsLoose ls) cs
      → All (IsLoose (unlink n ls)) (forget n cs)
  unfolding forget
  forget-IsLoose n ls [] loose = tt
  forget-IsLoose n ls (c ∷ cs) (w, rest) = elim (Bool-cases (eqb c.conn n)) [
    | inl same ↦ rw same (forget-IsLoose n ls cs rest)
    | inr other ↦ rw other (IsWired-unlink n c.id ls c other w, forget-IsLoose n ls cs rest)
  ]

  pub take_filed-IsWired :
      (n : ℕ) (ls : List Link) (m : Dict (Client M))
      → EachAt (IsWired ls) m
      → EachAt (IsWired ls) (take_filed n m)
  unfolding take_filed
  take_filed-IsWired n ls [] filed = tt
  take_filed-IsWired n ls ((k, c) ∷ m) (w, rest) =
      (IsWired-take_from ls k n c w, take_filed-IsWired n ls m rest)

  id-take_from : (n : ℕ) (c : Client M) → (take_from n c).id ≡ c.id
  unfolding take_from receive
  id-take_from n c = ground arith

  pub take_adrift-IsLoose :
      (n : ℕ) (ls : List Link) (cs : List (Client M))
      → All (IsLoose ls) cs
      → All (IsLoose ls) (take_adrift n cs)
  unfolding take_adrift
  take_adrift-IsLoose n ls [] loose = tt
  take_adrift-IsLoose n ls (c ∷ cs) (w, rest) = (
    subst (λ i. IsWired ls i (take_from n c)) (sym (id-take_from n c))
        (IsWired-take_from ls c.id n c w),
    take_adrift-IsLoose n ls cs rest,
  )
