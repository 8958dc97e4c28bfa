-- ===== src/CanSim/Chain/Sends.antt =====
-- The simulator's side of the chain: what it has sent after the hello and its rounds.
use mathlib.Core.List.{map-append, append-nil}
use kmm_yocto.Base.{
  ℕ, ◌+◌, ◌≡◌, refl, sym, ap, ap₂, ◌∙◌, true, List, [], ◌∷◌, ◌++◌, map, onto, onto-append, mail,
  mail-onto, u32, u64, ℤ, pos,
}
use kmm_yocto.CanSim.{Wire, bytes_of, batch, period, wait, Sim, rx_cb, start, Event, interrupt, run}
use kmm_yocto.CanSim.Stream.{addressed, round_lem}
use kmm_yocto.CanSim.Runs.{run-append, run-nil, step_hello}
use kmm_yocto.CanSim.Chain.{round_events, rounds, Due, sent_wires}

to_peer-append :
    (peer : ℕ) (ws vs : List Wire) (l : List (ℕ × List ℕ))
    → onto (map (addressed peer) (ws ++ vs)) l
      ≡ onto (map (addressed peer) vs) (onto (map (addressed peer) ws) l)
to_peer-append peer ws vs l =
    ap (λ ms. onto ms l) (map-append (addressed peer) ws vs)
    ∙ onto-append (map (addressed peer) ws) (map (addressed peer) vs) l

module _ (send : List (ℕ × List ℕ) → ℕ → List ℕ → ℤ) where
  rounds_out :
      (rs : List (ℕ × Wire)) (s : Sim)
      → s.place ≡ wait
      → s.peer_known ≡ true
      → Due s.next rs
      → (run send (rounds rs) s).out ≡ onto (map (addressed s.peer_addr) (sent_wires s.t rs)) s.out
  rounds_out [] s h p d = ap (λ q. q.out) (run-nil send s)
  rounds_out ((now, w) ∷ rs) s h p (d, _, _, ds) =
      let s' = run send (round_events (now, w)) s in
      let (place, next, out, t, known, addr) = round_lem send now w s h p d in
      let due : Due s'.next rs = rw next ds in
      ap (λ q. q.out) (run-append send (round_events (now, w)) (rounds rs) s)
      ∙ rounds_out rs s' place known due
      ∙ ap (λ x. onto (map (addressed x) (sent_wires s'.t rs)) s'.out) addr
      ∙ ap₂ (λ t l. onto (map (addressed s.peer_addr) (sent_wires t rs)) l) t out
      ∙ sym (
          to_peer-append s.peer_addr (batch (u32 (s.t + 33)) w) (sent_wires (u32 (s.t + 33)) rs)
            s.out)

  -- The simulator stands where it stood, and knows its peer.
  abbrev Greeted : (me : ℕ) → (before after : Sim) → Type 0
  Greeted me s s' =
      (s'.place ≡ s.place)
      × (s'.next ≡ s.next)
      × (s'.t ≡ s.t)
      × (s'.out ≡ s.out)
      × (s'.peer_known ≡ true)
      × (s'.peer_addr ≡ me)

  -- The first message is the hello, and later ones change nothing that the stream depends on.
  hellos :
      (me : ℕ) (m : List ℕ) (ms : List (List ℕ)) (s : Sim)
      → Greeted me s (run send (map (λ _. interrupt me) (m ∷ ms)) s)
  unfolding run rx_cb
  hellos me m [] s = rw (step_hello send me s, run) (refl, refl, refl, refl, refl, refl)
  hellos me m (m' ∷ ms) s =
      let (place, next, t, out, known, addr) = hellos me m' ms (rx_cb me s) in
      rw (step_hello send me s, run) (place, next, t, out, known, addr)

module _ (send : List (ℕ × List ℕ) → ℕ → List ℕ → ℤ)
    (accepts : (out : List (ℕ × List ℕ)) (to : ℕ) (m : List ℕ) → send out to m ≡ pos 0) where
  -- What has been sent after the hello and the rounds.
  stream_out :
      (me now : ℕ) (m : List ℕ) (ms : List (List ℕ)) (rs : List (ℕ × Wire))
      → Due (u64 (now + period)) rs
      → (run send (map (λ _. interrupt me) (m ∷ ms) ++ rounds rs) (start now)).out
        ≡ onto (map (addressed me) (sent_wires 0 rs)) []
  unfolding start
  stream_out me now m ms rs due =
      let hs : List Event = map (λ _. interrupt me) (m ∷ ms) in
      let s₁ = run send hs (start now) in
      let (place, next, t, out, known, addr) = hellos send me m ms (start now) in
      let due₁ : Due s₁.next rs = rw next due in
      ap (λ q. q.out) (run-append send hs (rounds rs) (start now))
      ∙ rounds_out send rs s₁ place known due₁
      ∙ ap (λ x. onto (map (addressed x) (sent_wires s₁.t rs)) s₁.out) addr
      ∙ ap₂ (λ t l. onto (map (addressed me) (sent_wires t rs)) l) t out

  pub stream_mail :
      (me now : ℕ) (m : List ℕ) (ms : List (List ℕ)) (rs : List (ℕ × Wire))
      → Due (u64 (now + period)) rs
      → mail send me (run send (map (λ _. interrupt me) (m ∷ ms) ++ rounds rs) (start now)).out []
        ≡ map bytes_of (sent_wires 0 rs)
  stream_mail me now m ms rs due =
      ap (λ out. mail send me out []) (stream_out me now m ms rs due)
      ∙ mail-onto send bytes_of accepts me (sent_wires 0 rs) [] []
      ∙ append-nil (map bytes_of (sent_wires 0 rs))
