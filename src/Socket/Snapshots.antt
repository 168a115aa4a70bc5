-- ===== src/Socket/Snapshots.antt =====
-- `firstSnapshot`: which deliveries to `onState` are marked as the first of their connection.
use aetheldesk.Base.{
  ℕ, ◌+◌, ◌≤◌, ◌<◌, ◌≡◌, ◌⊎◌, inl, inr, refl, String, Bool, false, not, ◌&&◌, ◌||◌, Option, none,
  some, List, [], ◌∷◌, arith, ◌==◌, sym, subst, Option-cases, Bool-cases,
}
use aetheldesk.Storage.{Browser}
use aetheldesk.Socket.{
  Client, Page, Delivery, Payload, unreadable, snapshot, Event, connects, reconnects, clears,
  timer_fires, opens, fails, receives, closes, sends, step, run, connect, deliver, new_client,
  on_open, on_close, on_timer, on_message, send, same_socket, empty,
}

-- Whether a snapshot of the connection was delivered and `onState` returned.
abbrev pub applied : ℕ → List Delivery → Bool
applied g [] = false
applied g (d ∷ ds) = (d.generation == g && d.returned) || applied g ds

-- Newest first.
abbrev pub Below : ℕ → List Delivery → Type 0
Below n [] = Unit
Below n (d ∷ ds) = (d.generation ≤ n) × Below d.generation ds

abbrev pub Marked : List Delivery → Type 0
Marked [] = Unit
Marked (d ∷ ds) = (d.first ≡ not (applied d.generation ds)) × Marked ds

-- The part of the client that the invariant is about.
record Core : Type 0 where
  ws : Option ℕ
  generation : ℕ
  first : ℕ → Bool
  delivered : List Delivery

abbrev core : {S : Type 0} → Client S → Core
core c = record {
  ws = c.ws;
  generation = c.connection_generation;
  first = c.first_snapshot;
  delivered = c.delivered;
}

record Inv (k : Core) : Type 0 where
  current : ((k.ws ≡ none) × (k.generation ≡ 0)) ⊎ (k.ws ≡ some k.generation)
  flags : (g : ℕ) → k.first g ≡ not (applied g k.delivered)
  ordered : Below k.generation k.delivered
  marked : Marked k.delivered

applied_above : (g n : ℕ) (ds : List Delivery) → Below n ds → n < g → applied g ds ≡ false
applied_above g n [] b h = refl
applied_above g n (d ∷ ds) b h = ground (arith, applied_above g d.generation ds b.1)

Below-mono : (n m : ℕ) (ds : List Delivery) → n ≤ m → Below n ds → Below m ds
Below-mono n m [] h b = tt
Below-mono n m (d ∷ ds) h b = (omega arith, b.1)

module _ {S D : Type 0} (page : Page S D) where
  connect-Inv : (c : Client S) → Inv (core c) → Inv (core (connect page c))
  unfolding connect
  connect-Inv c v = record {
    current = ground arith;
    flags = λ g.
        ground (arith, v.flags g, applied_above g c.connection_generation c.delivered v.ordered);
    ordered =
        ground
          (arith, Below-mono c.connection_generation (c.connection_generation + 1) c.delivered);
    marked = ground arith;
  }

  deliver-Inv :
      (d : D) (g : ℕ) (c : Client S)
      → c.ws ≡ some g
      → Inv (core c)
      → Inv (core (deliver page d g c))
  unfolding deliver
  deliver-Inv d g c h v = record {
    current = v.current;
    flags = λ k. ground (arith, v.flags k, v.flags g);
    ordered = ground arith;
    marked = ground (arith, v.flags g);
  }

  core-on_open : (g : ℕ) (c : Client S) → core (on_open page g c) ≡ core c
  unfolding on_open
  core-on_open g c = ground arith

  core-on_close : (g code : ℕ) (c : Client S) → core (on_close page g code c) ≡ core c
  unfolding on_close
  core-on_close g code c = ground arith

  core-send : (msg : String) (is_open : Bool) (c : Client S) → core (send msg is_open c) ≡ core c
  unfolding send
  core-send msg is_open c = ground arith

  on_timer-Inv : (c : Client S) → Inv (core c) → Inv (core (on_timer page c))
  on_timer-Inv c v = elim (Option-cases c.reconnect_timer) [
    | inl e ↦ unfold on_timer in rw (e, on_timer) v
    | inr (d, e) ↦
        unfold on_timer in rw (e, on_timer) (connect-Inv (record c { reconnect_timer = none }) v)
  ]

  on_message-Inv :
      (g : ℕ) (p : Payload D) (c : Client S) → Inv (core c) → Inv (core (on_message page g p c))
  unfolding on_message
  on_message-Inv g unreadable c v = v
  on_message-Inv g empty c v = v
  on_message-Inv g (snapshot d) c v = elim (Bool-cases (same_socket c.ws g)) [
    | inl e ↦ rw e (deliver-Inv d g c (ground arith) v)
    | inr e ↦ rw e v
  ]

  step-Inv : (e : Event D) (c : Client S) → Inv (core c) → Inv (core (step page e c))
  unfolding step
  step-Inv connects c v = connect-Inv c v
  step-Inv reconnects c v = connect-Inv (record c { reconnect_attempt = 0 }) v
  step-Inv clears c v = v
  step-Inv timer_fires c v = on_timer-Inv c v
  step-Inv (opens g) c v = subst Inv (sym (core-on_open g c)) v
  step-Inv (fails g) c v = v
  step-Inv (receives g p) c v = on_message-Inv g p c v
  step-Inv (closes g code) c v = subst Inv (sym (core-on_close g code c)) v
  step-Inv (sends msg is_open) c v = subst Inv (sym (core-send msg is_open c)) v

  run-Inv : (es : List (Event D)) (c : Client S) → Inv (core c) → Inv (core (run page es c))
  unfolding run
  run-Inv [] c v = v
  run-Inv (e ∷ es) c v = run-Inv es (step page e c) (step-Inv e c v)

  -- Over any events, a snapshot is delivered as the first of its connection exactly if no snapshot of
  -- that connection was delivered before it with `onState` returning; and the connections of the
  -- deliveries never go back to an older one.
  pub run-Marked :
      (b : Browser) (room : S) (es : List (Event D))
      → let c = run page es (new_client b room) in
        Marked c.delivered × Below c.connection_generation c.delivered
  run-Marked b room es =
      let v =
        run-Inv es (new_client b room)
          (record { current = inl (refl, refl); flags = λ g. refl; ordered = tt; marked = tt }) in
      (v.marked, v.ordered)
