-- ===== src/Echo/Rounds.antt =====
-- The echo firmware with a client that waits for each answer before it sends again.
use mathlib.Core.List.{append-nil, map-id}
use kmm_yocto.Base.{
  ℕ, zero, suc, ◌-◌, ◌<◌, ◌≡◌, refl, ap, ◌∙◌, Option, none, some, List, [], ◌∷◌, replicate, get_or,
  get_or-replicate, mail, mail-onto, map, onto, take, ℤ, pos,
}
use kmm_yocto.Echo
use kmm_yocto.Echo.{buf_size, Echo, waiting, Event, interrupt, proceed}
use kmm_yocto.Echo.Slot.{Server, server_run, start-IsValid, run-view}

-- The same message `n` times: it arrives, and the four steps of an answer follow.
abbrev pub pings : (src : ℕ) (m : List ℕ) (n : ℕ) → List Event
pings src m zero = []
pings src m (suc n) = interrupt src m ∷ proceed ∷ proceed ∷ proceed ∷ proceed ∷ pings src m n

served :
    (src : ℕ) (m : List ℕ) (n : ℕ) (l : List (ℕ × List ℕ))
    → let v : Server = record { slot = none; doing = waiting; echoed = l } in
      server_run (pings src m n) v
      ≡ record v { echoed = onto (map (λ x. (src, x)) (replicate n (take (buf_size - 1) m))) l }
unfolding server_run
served src m zero l = refl
served src m (suc n) l = served src m n ((src, take (buf_size - 1) m) ∷ l)

-- The firmware answers each message with its first 511 bytes, whatever its sends return.
pub echoes :
    (send : List (ℕ × List ℕ) → ℕ → List ℕ → ℤ) (src : ℕ) (m : List ℕ) (n : ℕ)
    → (s : Echo) × (Echo.run send (pings src m n) Echo.start ≡ some s)
      × (s.out ≡ onto (map (λ x. (src, x)) (replicate n (take (buf_size - 1) m))) [])
echoes send src m n =
    let (s, ran, _, shown) = run-view send (pings src m n) Echo.start start-IsValid in
    (s, ran, ap (λ v. v.echoed) (shown ∙ served src m n []))

module _ (send : List (ℕ × List ℕ) → ℕ → List ℕ → ℤ) (src : ℕ) where
  -- The answer number `a` that arrives at the client after a run of the firmware, counted from 0;
  -- empty if there is none.
  abbrev pub answer_at : Option Echo → (a : ℕ) → List ℕ
  answer_at none a = []
  answer_at (some s) a = get_or (mail send src s.out []) a []

  pub answer_at-pings :
      (m : List ℕ)
      → ((out : List (ℕ × List ℕ)) (to : ℕ) (sent : List ℕ) → send out to sent ≡ pos 0)
      → (n a : ℕ) → a < n
      → answer_at (Echo.run send (pings src m n) Echo.start) a ≡ take (buf_size - 1) m
  answer_at-pings m accepts n a h =
      let (s, ran, out) = echoes send src m n in
      let ms = replicate n (take (buf_size - 1) m) in
      let arrived : mail send src s.out [] ≡ ms =
        ap (λ l. mail send src l []) out
        ∙ mail-onto send (λ x. x) accepts src ms [] []
        ∙ append-nil (map (λ x. x) ms)
        ∙ map-id ms in
      ap (λ o. answer_at o a) ran
      ∙ ap (λ (l : List (List ℕ)). get_or l a []) arrived
      ∙ get_or-replicate n (take (buf_size - 1) m) a [] h
