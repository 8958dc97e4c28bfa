-- ===== src/CharRtt/Served.antt =====
-- The tool and the echo firmware together: m4/tools/rpmsg-char-rtt.c writes its ping to an endpoint of
-- its own, m4/rpmsg-echo/main.c answers to that. Between them is the rpmsg channel.
use kmm_yocto.Base.{
  ℕ, suc, ◌≤◌, ◌<◌, ◌≡◌, ap, true, some, List, [], ◌∷◌, ◌++◌, arith, length, take, codes, ℤ, pos,
}
use kmm_yocto.Echo
use kmm_yocto.Echo.{buf_size}
use kmm_yocto.Echo.Rounds.{pings, answer_at, answer_at-pings}
use kmm_yocto.Rtt.{Summary}
use kmm_yocto.CharRtt.{cmp_ll, Os, reports, not_positive, is_sixteen, elapsed, main}
use kmm_yocto.CharRtt.Report.{Answered, times_from, Sorts, IsHighest, endpoint, Ready, main-reports}

-- `tx`, with the zero at its end.
abbrev pub tx : List ℕ
tx = codes "ping-char-00000" ++ (0 ∷ [])

-- `sizeof(rx)`
abbrev pub rx_size : ℕ
rx_size = 512

-- What `poll` returns: whether a message is there.
abbrev pub polled : List ℕ → ℤ
polled [] = pos 0
polled (x ∷ m) = pos 1

-- An operating system that brings these answers: the first to the warm-up, the next ones to the
-- rounds. A read gives what of a message fits `rx`.
abbrev pub fed : Os → (ℕ → List ℕ) → Os
fed os answers = record os {
  warm_poll = polled (answers 0);
  polls = λ k. polled (answers (suc k));
  receives = λ k. pos (length (take rx_size (answers (suc k))));
}

-- The tool creates its endpoint, `device` is the highest of the eight devices that can be opened,
-- every write of the rounds takes the 16 bytes of the ping, and the sends of the firmware, which gets
-- the warm-up and n > 0 pings from this endpoint, are accepted; `qsort` sorts. Then each round is
-- answered, and the tool reports: the least time is at most the median, that at most the 99th
-- percentile, that at most the greatest, and the time of every round lies between the least and the
-- greatest.
pub served-reports :
    (send : List (ℕ × List ℕ) → ℕ → List ℕ → ℤ) (src n device : ℕ) (os : Os)
    (qsort : (ℕ → ℕ → ℤ) → List ℕ → List ℕ)
    → ((out : List (ℕ × List ℕ)) (to : ℕ) (m : List ℕ) → send out to m ≡ pos 0)
    → os.opens_ctrl ≡ true
    → os.creates endpoint ≡ true
    → IsHighest os.can_open 8 device
    → ((k : ℕ) → is_sixteen (os.sends k) ≡ true)
    → ((l : List ℕ) → Sorts cmp_ll l (qsort cmp_ll l))
    → 0 < n
    → let firmware = Echo.run send (pings src tx (suc n)) Echo.start in
      let os' = fed os (answer_at send src firmware) in
      (s : Summary) × ((k : ℕ) → k < n → Answered os' k)
      × (main os' qsort n ≡ some (reports device s))
      × (s.least ≤ s.median)
      × (s.median ≤ s.p99)
      × (s.p99 ≤ s.most)
      × ((k : ℕ) → k < n → (s.least ≤ elapsed os' k) × (elapsed os' k ≤ s.most))
served-reports send src n device os qsort accepts opens creates highest takes sorts some_n =
    let firmware = Echo.run send (pings src tx (suc n)) Echo.start in
    let os' = fed os (answer_at send src firmware) in
    let came = answer_at-pings send src tx accepts (suc n) in
    let answered : (k : ℕ) → k < n → Answered os' k = λ k h.
      let answer = came (suc k) (omega arith) in
      (
        takes k,
        ap (λ m. not_positive (polled m)) answer,
        ap (λ m. not_positive (pos (length (take rx_size m)))) answer,
      ) in
    let ready : Ready os' device = record {
      opens = opens;
      creates = creates;
      highest = highest;
      warm = ap (λ m. not_positive (polled m)) (came 0 (omega arith));
    } in
    let (s, ran, low, middle, high, between) =
      main-reports os' qsort device n ready some_n answered (sorts (times_from os' 0 n)) in
    (s, answered, ran, low, middle, high, between)
