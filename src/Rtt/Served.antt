-- ===== src/Rtt/Served.antt =====
-- The tool and the echo firmware together: m4/tools/rpmsg-rtt.c writes its ping, m4/rpmsg-echo/main.c
-- answers it. The rpmsg channel and the terminal between them bring each ping as one message, and
-- each answer in any number of reads.
use mathlib.Core.Path.{subst}
use kmm_yocto.Base.{
  ℕ, zero, suc, ◌+◌, ◌-◌, ◌≤◌, ◌<◌, ◌≡◌, refl, sym, ap, ◌∙◌, true, some, List, [], ◌∷◌, ◌++◌, arith,
  length, ◌==◌, codes, ℤ, pos, negsuc,
}
use kmm_yocto.Echo
use kmm_yocto.Echo.{Echo, waiting, Event, interrupt, proceed}
use kmm_yocto.Echo.Rounds.{pings, answer_at, answer_at-pings}
use kmm_yocto.Rtt.{tx_size, collect, after_one, left_after, waiting_before, offered, Summary}
use kmm_yocto.Rtt.Main.{reports, main, total}
use kmm_yocto.Rtt.Lossless.{IsWhole, main-Reports}
use kmm_yocto.CharRtt.{cmp_ll}
use kmm_yocto.CharRtt.Report.{Sorts}

-- `tx`, with the zero at its end.
abbrev pub tx : List ℕ
tx = codes "ping-0123456789" ++ (0 ∷ [])

-- Reads that bring `n` bytes, each of them some.
abbrev pub IsSplit : (n : ℕ) → List ℤ → Type 0
IsSplit n [] = n ≡ 0
IsSplit n (pos zero ∷ rs) = ⊥
IsSplit n (pos (suc r) ∷ rs) = (suc r ≤ n) × IsSplit (n - suc r) rs
IsSplit n (negsuc r ∷ rs) = ⊥

collect_lem :
    (n got : ℕ) (rs : List ℤ) → IsSplit n rs → got + n ≡ tx_size → collect got rs ≡ tx_size
unfolding collect
collect_lem n got [] h e = omega arith
collect_lem n got (pos zero ∷ rs) h e = absurd h
collect_lem n got (pos (suc r) ∷ rs) (h, more) e =
    let rest = collect_lem (n - suc r) (got + suc r) rs more (omega arith) in ground (arith, rest)
collect_lem n got (negsuc r ∷ rs) h e = absurd h

-- The attempt that gets its answer leaves no read behind.
left_after-split :
    (n got : ℕ) (rs : List ℤ) → IsSplit n rs → got + n ≡ tx_size → left_after got rs ≡ []
unfolding left_after
left_after-split n got [] h e = refl
left_after-split n got (pos zero ∷ rs) h e = absurd h
left_after-split n got (pos (suc r) ∷ rs) (h, more) e =
    let rest = left_after-split (n - suc r) (got + suc r) rs more (omega arith) in
    ground (arith, rest)
left_after-split n got (negsuc r ∷ rs) h e = absurd h

-- The first ping is answered in one read, and each of the others in any reads.
module _ (answers : ℕ → List ℤ) (n : ℕ) (first : answers 0 ≡ pos tx_size ∷ [])
    (splits : (a : ℕ) → a < n → IsSplit tx_size (answers (suc a))) where
  nothing_waits : (a : ℕ) → a ≤ n → waiting_before answers a ≡ []
  unfolding waiting_before
  nothing_waits zero h = ap after_one first
  nothing_waits (suc a) h =
      rw (nothing_waits a (omega arith))
        (left_after-split tx_size 0 (answers (suc a)) (splits a (omega arith)) refl)

  all-IsWhole : (a : ℕ) → a < n → IsWhole (offered answers) a
  unfolding offered
  all-IsWhole a h =
      rw (nothing_waits a (omega arith))
        (ap (λ c. c == tx_size) (collect_lem tx_size 0 (answers (suc a)) (splits a h) refl))

-- The tool writes one ping to warm up and then, with a `qsort` that sorts, measures n > 0 more. The
-- firmware gets each as one message and its sends are accepted. The answer to the warm-up, for which
-- the tool makes one read only, comes in one, as VMIN = 16 has it when its bytes come within a second
-- of each other; each of the other answers comes in reads of any sizes, as `cut` says. Then the tool
-- ends with a report and without a loss: the least time is at most the median, that at most the 99th
-- percentile, that at most the greatest; the time of every attempt lies between the least and the
-- greatest; the histogram counts all n.
pub served-Reports :
    (send : List (ℕ × List ℕ) → ℕ → List ℕ → ℤ) (src n : ℕ) (cut : ℕ → List ℕ → List ℤ)
    (elapsed : ℕ → ℕ) (qsort : (ℕ → ℕ → ℤ) → List ℕ → List ℕ)
    → ((out : List (ℕ × List ℕ)) (to : ℕ) (m : List ℕ) → send out to m ≡ pos 0)
    → ((m : List ℕ) → cut 0 m ≡ pos (length m) ∷ [])
    → ((a : ℕ) (m : List ℕ) → IsSplit (length m) (cut (suc a) m))
    → ((l : List ℕ) → Sorts cmp_ll l (qsort cmp_ll l))
    → 0 < n
    → let firmware = Echo.run send (pings src tx (suc n)) Echo.start in
      let answers : ℕ → List ℤ = λ k. cut k (answer_at send src firmware k) in
      (s : Summary) × (bins : List ℕ) × (main qsort true answers elapsed (some n)
        ≡ some (reports 0 s bins))
      × (s.least ≤ s.median)
      × (s.median ≤ s.p99)
      × (s.p99 ≤ s.most)
      × ((k : ℕ) → k < n → (s.least ≤ elapsed k) × (elapsed k ≤ s.most))
      × (length bins ≡ 20)
      × (total bins ≡ n)
served-Reports send src n cut elapsed qsort accepts one_read splits sorts some_n =
    let firmware = Echo.run send (pings src tx (suc n)) Echo.start in
    let answers : ℕ → List ℤ = λ k. cut k (answer_at send src firmware k) in
    let answer = answer_at-pings send src tx accepts (suc n) in
    let first : answers 0 ≡ pos tx_size ∷ [] = ap (cut 0) (answer 0 (omega arith)) ∙ one_read tx in
    let others : (a : ℕ) → a < n → IsSplit tx_size (answers (suc a)) = λ a h.
      subst (λ m. IsSplit tx_size (cut (suc a) m)) (sym (answer (suc a) (omega arith)))
        (splits a tx) in
    let (e, ran, (s, bins, is, low, middle, high, between, twenty, all)) =
      main-Reports answers elapsed n (all-IsWhole answers n first others) qsort sorts some_n in
    (s, bins, ran ∙ ap some is, low, middle, high, between, twenty, all)
